-- ===== src/Ipam.antt =====
-- internal/ipam: addresses, the bitmap, the allocator of pod addresses, and the pools.
pub mod Bitmap
pub mod Address
pub mod Allocator
pub mod Pool
pub mod Manager
