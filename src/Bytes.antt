-- ===== src/Bytes.antt =====
-- Byte strings: the `std::memcpy` of integers, `std::string`'s equality and order,
-- `std::to_string`, and `std::string::find`.
pub mod Words
pub mod Order
pub mod Decimal
pub mod Fields
pub mod Find
