-- ===== src/Data.antt =====
-- Data, libwired/data/wi-data.c: bytes that may be 0, with no NUL behind them. The file, the digests,
-- the random bytes and the description in hexadecimal are not modelled.
pub mod Contents
use libwired.Base.{
  ℕ, ◌+◌, ◌-◌, Bool, true, false, List, [], ◌∷◌, length, take, max, ltb, ◌==◌, if◌then◌else◌, ◌&&◌,
  min, Run, ok, bad_access, ◌>>=◌, ◌>>◌, wi_assert,
}
use libwired.Numbers.{log2, exp2m1}
use libwired.Memory.{read_bytes, write_bytes, wi_malloc, wi_realloc}

-- `struct _wi_data`: the block behind the pointer `bytes`, how much of it is used, the size that
-- `capacity` states, and whether the instance frees it. `mutable` is the runtime's option.
pub record Data : Type 0 where
  pub mutable : Bool
  pub bytes : List ℕ
  pub length : ℕ
  pub capacity : ℕ
  pub free : Bool

-- `_WI_DATA_MIN_SIZE`
abbrev pub data_min_size : ℕ
data_min_size = 128

unfoldable pub capacity_for : ℕ → ℕ
capacity_for n = max (exp2m1 (log2 n + 1)) data_min_size

unfoldable pub init_with_capacity : Bool → ℕ → Data
init_with_capacity mutable n = record {
  mutable = mutable;
  bytes = wi_malloc (capacity_for n);
  length = 0;
  capacity = capacity_for n;
  free = true;
}

unfoldable pub init_with_bytes : Bool → List ℕ → Run Data
init_with_bytes mutable bs =
    let d = init_with_capacity mutable (length bs) in
    do m ← write_bytes d.bytes 0 bs; ok (record d { bytes = m; length = length bs })

unfoldable pub init_with_bytes_no_copy : Bool → List ℕ → ℕ → Bool → Data
init_with_bytes_no_copy mutable block n free = record {
  mutable = mutable;
  bytes = block;
  length = n;
  capacity = n;
  free = free;
}

-- `_wi_data_copy`
unfoldable pub copy : Data → Run Data
unfolding init_with_bytes
copy d = do bs ← read_bytes d.bytes 0 d.length; init_with_bytes false bs

-- `wi_mutable_copy` and `wi_runtime_make_immutable`, on data.
unfoldable pub mutable_copy : Data → Run Data
unfolding copy
mutable_copy d = do c ← copy d; ok (record c { mutable = true })

abbrev pub make_immutable : Data → Data
make_immutable d = record d { mutable = false }

abbrev pub same : List ℕ → List ℕ → Bool
same [] [] = true
same (x ∷ xs) (y ∷ ys) = x == y && same xs ys
same _ _ = false

-- `_wi_data_is_equal`
unfoldable pub is_equal : Data → Data → Run Bool
is_equal d e =
    if d.length == e.length
    then (do a ← read_bytes d.bytes 0 d.length; b ← read_bytes e.bytes 0 d.length; ok (same a b))
    else ok false

-- `wi_data_get_bytes` takes as many bytes as it is told to.
unfoldable pub get_bytes : Data → ℕ → Run (List ℕ)
get_bytes d n = read_bytes d.bytes 0 n

-- The test of `_wi_data_append_bytes`
unfoldable pub make_room : List ℕ → Data → ℕ → Data
make_room junk d n =
    if ltb d.capacity (d.length + n)
    then record d { bytes = wi_realloc junk d.bytes (d.length + n); capacity = d.length + n }
    else d

-- `_wi_data_append_bytes`
unfoldable pub append : List ℕ → Data → List ℕ → Run Data
unfolding make_room
append junk d bs =
    let e = make_room junk d (length bs) in
    do
      m ← write_bytes e.bytes e.length bs
      ok (record e { bytes = m; length = e.length + length bs })

-- `WI_RUNTIME_ASSERT_MUTABLE`
abbrev pub assert_mutable : Data → Run (Unit {0})
assert_mutable d = wi_assert d.mutable

unfoldable pub append_bytes : List ℕ → Data → List ℕ → Run Data
append_bytes junk d bs = do assert_mutable d; append junk d bs

unfoldable pub append_data : List ℕ → Data → Data → Run Data
append_data junk d other = do
  assert_mutable d
  bs ← read_bytes other.bytes 0 other.length
  append junk d bs

-- The option of the argument changes, and the new data stay mutable: the argument and the result.
unfoldable pub by_appending_bytes : List ℕ → Data → List ℕ → Run (Data × Data)
unfolding mutable_copy append_bytes
by_appending_bytes junk d bs = do
  c ← mutable_copy d
  e ← append_bytes junk c bs
  ok (make_immutable d, e)

unfoldable pub by_appending_data : List ℕ → Data → Data → Run (Data × Data)
unfolding mutable_copy append_bytes
by_appending_data junk d other = do
  c ← mutable_copy d
  bs ← read_bytes other.bytes 0 other.length
  e ← append_bytes junk c bs
  ok (make_immutable d, e)
