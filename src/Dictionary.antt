-- ===== src/Dictionary.antt =====
-- Dictionaries: libwired/collections/wi-dictionary.c.
pub mod State
pub mod Read
pub mod Write
pub mod Valid
pub mod Change
pub mod Lookups
pub mod Removal
pub mod Emptying
pub mod Transfer
