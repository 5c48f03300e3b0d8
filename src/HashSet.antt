-- ===== src/HashSet.antt =====
-- Sets: libwired/collections/wi-set.c.
pub mod State
pub mod Read
pub mod Write
pub mod Valid
pub mod Change
pub mod Counts
