-- ===== src/Array.antt =====
-- libwired/collections/wi-array.c, by parts.
pub mod State
pub mod Read
pub mod Write
pub mod Valid
pub mod Capacity
pub mod Add
pub mod Search
pub mod Remove
pub mod Bulk
pub mod Replace
pub mod Order
pub mod Sorting
pub mod Copy
