-- ===== src/Netip.antt =====
-- What the code uses of Go's `net/netip`: addresses, prefixes, their order and their text.
pub mod Addr
pub mod Prefix
