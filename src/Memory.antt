-- ===== src/Memory.antt =====
-- Blocks of memory as lists of bytes: what `memmove`, `memcpy`, `strlen` and the functions
-- `wi_malloc` and `wi_realloc` of libwired/system/wi-system.c do to them. An access outside of its
-- block is a bad access.
pub mod Laws
use libwired.Base.{
  ℕ, ◌+◌, ◌-◌, List, [], ◌∷◌, ◌++◌, length, take, drop, replicate, leb, ◌==◌, if◌then◌else◌, Run,
  ok, bad_access, ◌>>=◌,
}

unfoldable pub read_bytes : List ℕ → ℕ → ℕ → Run (List ℕ)
read_bytes m i n = if leb (i + n) (length m) then ok (take n (drop i m)) else bad_access

unfoldable pub write_bytes : List ℕ → ℕ → List ℕ → Run (List ℕ)
write_bytes m i bs =
    if leb (i + length bs) (length m)
    then ok (take i m ++ bs ++ drop (i + length bs) m)
    else bad_access

-- `memmove(m + target, m + from, n)`
unfoldable pub memmove : List ℕ → ℕ → ℕ → ℕ → Run (List ℕ)
unfolding read_bytes write_bytes
memmove m target from n = do bs ← read_bytes m from n; write_bytes m target bs

-- `wi_malloc` clears the block.
abbrev pub wi_malloc : ℕ → List ℕ
wi_malloc n = replicate n 0

-- `wi_realloc` keeps what fits; the bytes that are new may hold anything: `junk` is the first of
-- them, the others are 0.
abbrev pub wi_realloc : List ℕ → List ℕ → ℕ → List ℕ
wi_realloc junk m n = take n (m ++ junk ++ replicate n 0)

-- The bytes of a C string: those in front of the first NUL, which has to be there.
unfoldable pub c_string : List ℕ → Run (List ℕ)
c_string [] = bad_access
c_string (b ∷ m) = let rest = c_string m in if b == 0 then ok [] else rest >>= λ bs. ok (b ∷ bs)
