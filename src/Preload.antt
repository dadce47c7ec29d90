-- ===== src/Preload.antt =====
-- vcl-ldpreload/src/libvcl-ldpreload/vcom.c: the calls of the C library that a program's own are
-- replaced by, each for a descriptor of VPP or passed on to the C library.
-- A call of the C library is an argument, what it returns.
pub mod Int
pub mod Time
pub mod Sets
pub mod Internal
pub mod Polling
pub mod Entry
mod Tests
