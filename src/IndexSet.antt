-- ===== src/IndexSet.antt =====
-- libwired/collections/wi-indexset.c: a sorted array of indexes, which stand in it as pointers.
pub mod State
pub mod Laws
pub mod Arrays
