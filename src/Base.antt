-- ===== src/Base.antt =====
-- yagi/src/base.cc, and the `std::stoull` that reads back what `to_hex` writes.
pub mod Hex
pub mod Stoull
pub mod Split
pub mod RoundTrip
