-- ===== src/Lib.antt =====
-- A verification library for libwired, the C library of the Wired server and client.
--
-- The library gives C programs reference-counted collections and values. Modelled are the
-- collections, libwired/collections, strings and data, libwired/data, the runtime with its pools,
-- libwired/base, and the Base64 codec, libwired/crypto/wi-base64.c:
--
-- File Base - shared names, lists by native numbers, and `Run`, the outcome of a call: a value, a failed
--   `WI_ASSERT`, or a bad access to memory. `Guarded g r P` says that the call `r` ends normally in
--   a value with `P` if `g`, and in a failed assertion if not; `Ends g f r P` also says that it makes
--   a bad access if `g` but not `f`.
-- File Numbers - `wi_log2`, `wi_exp2m1` (libwired/base/wi-base.h), `WI_CLAMP` (wi-macros.h).
-- File Cells - the allocator of items and buckets that wi-array.c, wi-dictionary.c and wi-set.c each
--   write out, `_wi_array_create_item` and its likes. A cell is known by its number.
-- File Callbacks - retain, release, equality and hash callbacks. A pointer is a number, NULL is 0. The
--   calls that a collection makes are logged, so that the balance of references can be stated.
-- File Array (wi-array.c) - State has the private functions, Read and Write the public ones. The
--   function `wi_mutable_array_add_data` is `mutable_add_data`, `wi_array_data_at_index` is
--   `data_at_index`, and so on. Valid has the invariant, Capacity the vector's optimisation, and
--   Add, Search, Remove, Bulk, Replace, Order, Sorting and Copy what the functions do.
-- File IndexSet (wi-indexset.c) - a set holds an array and calls its functions. Its
--   Arrays has the functions of wi-array.c that take an index set.
-- File Base64 (wi-base64.c) - Codec has both functions, Bits and RoundTrip their proofs.
-- File Chains - the vector of chains of wi-dictionary.c and wi-set.c: lookup, changes of a chain and
--   rehash. Enumerate is the enumerator of both; Totals, Lookup, Rehash, Fresh and Update say what
--   each change of a chain and the rehash keep.
-- File Dictionary (wi-dictionary.c) - State has the private functions, Read and Write the public
--   ones, Valid the invariant; Change, Lookups, Removal, Emptying and Transfer say what the functions
--   that change a dictionary do.
-- File HashSet (wi-set.c) - by the same plan: an entry's value is its count, and Counts says what
--   adding and removing do.
-- File Enumerator (wi-enumerator.c) - the next datum and the array of all data, on a collection and the
--   function that walks it; AllData and Chained say what is collected.
-- File Memory - blocks of bytes with `memmove`, `strlen`, `wi_malloc` and `wi_realloc`
--   (libwired/system/wi-system.c); a bad access is one outside of the block.
-- File Data (wi-data.c) - data on such a block, and in Contents what they hold.
-- File Strings (wi-string.c) - State has the representation, growth and comparison, Edit the
--   functions that change a string or make a changed copy, Search those that look for bytes, Paths and
--   PathParts those on paths, Format the formats; `wi_mutable_string_append_string` is
--   `append_string`, `wi_string_has_prefix` is `has_prefix`, and so on. Holds says what a string
--   holds; Appending, Overflow, Insertion, Deletion, Replacement, Trimming, Equality, Splitting,
--   Formatting, Normalizing and Resolving what the functions do to it. Substitution is the
--   replacement of every occurrence.
-- File Runtime (wi-runtime.c) - instances with retain counts and options in a memory; Pools has the
--   autorelease pools of wi-pool.c, Releasing and Draining what releases and drains do.
-- File Tests - sample states and the theorems at them.
--
-- Bounds and fuel. A wi_uinteger_t has 64 bits; `log2` runs on fuel 64, which every such number uses
-- up at most. Counts of data are not wrapped: they are bounded by memory. The sums of a range are
-- wrapped, by `word`; the count of a datum in a counted set is taken to stay below 2 ^ 64.
-- `wi_exp2m1` shifts an int, which C defines up to 2 ^ 30; beyond, the count of the shift is taken
-- modulo 32, and the theorems that say when a capacity is enough are stated below 2 ^ 30. What
-- `qsort` compares by is the number of a comparison cut to an int. The
-- loops of strings that are on fuel take a byte or a component away, or leave fewer bytes to
-- search, in each round; the loop of an enumerator takes a datum. The
-- loops over a range run as many rounds as the range is long; the loops over a vector or a chain
-- are recursions on the list.
--
-- Parameters: `qsort` and, for strings, the searches and `wi_strsep` of libwired/compat/wi-compat.c,
-- which are copies of a system library's, the users of the system, and `snprintf`; what their
-- documentation promises is a hypothesis where it is used. The class table of the runtime, and the
-- callbacks of collections, which are functions on pointers. `junk` is what memory holds that
-- `wi_realloc` adds.
--
-- Not modelled: deallocation of collections, descriptions, variadic initialisers, property lists,
-- encodings of strings and numbers read from them, and an object that is an argument of a call on
-- itself, as a string that is appended to itself. Strings are taken in the C locale. The retain count
-- lock, and an autorelease into a pool that is being drained. The rest of the library (numbers, dates,
-- files, network, threads, parsers) calls the operating system or other libraries for most of its
-- work.
pub mod Base
pub mod Numbers
pub mod Cells
pub mod Callbacks
pub mod Array
pub mod IndexSet
pub mod Base64
pub mod Chains
pub mod Dictionary
pub mod HashSet
pub mod Enumerator
pub mod Memory
pub mod Data
pub mod Strings
pub mod Runtime
pub mod Tests
