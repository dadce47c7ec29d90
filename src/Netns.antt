-- ===== src/Netns.antt =====
-- netlink/librtnl/netns.c and netns.h: a copy of the links, routes, addresses and neighbours of a
-- network namespace, which follows the messages of its stream.
pub mod Attrs
pub mod Entry
pub mod Kinds
pub mod Handles
pub mod Store
mod Tests
