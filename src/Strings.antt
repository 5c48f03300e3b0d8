-- ===== src/Strings.antt =====
-- Strings, libwired/data/wi-string.c.
pub mod State
pub mod Edit
pub mod Holds
pub mod Appending
pub mod Overflow
pub mod Insertion
pub mod Deletion
pub mod Replacement
pub mod Trimming
pub mod Search
pub mod Paths
pub mod PathParts
pub mod Equality
pub mod Splitting
pub mod Normalizing
pub mod Resolving
pub mod Format
pub mod Formatting
pub mod Substitution
