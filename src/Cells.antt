-- ===== src/Cells.antt =====
-- The allocator of items and buckets that libwired/collections/wi-array.c, wi-dictionary.c and
-- wi-set.c each write out: chunks of one page that are cut into cells, and a list of free cells.
-- A cell is known by its number: the chunk's number times the cells of a page, plus its offset.
-- A pointer into a chunk stays valid, since only the vector of chunks is reallocated.
use libwired.Base.{
  ℕ, zero, suc, ◌+◌, ◌-◌, ◌*◌, ◌≤◌, ◌<◌, ◌≡◌, refl, List, [], ◌∷◌, arith, ltb, ◌==◌, if◌then◌else◌,
  to_nat, count, inl, inr, List-cases, Bool-cases, ==_iff, ◌∙◌,
}

-- `per_page` is the constant that each container computes once from the page size.
pub record Cells : Type 0 where
  pub per_page : ℕ
  pub chunks_count : ℕ
  pub chunks_offset : ℕ
  pub free_list : List ℕ

-- What `calloc` and the initialiser leave: no chunk, and the offset at the end of a page.
abbrev pub no_cells : ℕ → Cells
no_cells per_page = record {
  per_page = per_page;
  chunks_count = 0;
  chunks_offset = per_page;
  free_list = [];
}

-- A new chunk if the last one is used up.
unfoldable pub add_chunk : Cells → Cells
add_chunk c =
    if c.chunks_offset == c.per_page
    then record c { chunks_count = c.chunks_count + 1; chunks_offset = 0 }
    else c

-- The head of the free list; where that is empty, the next cell of the last chunk.
unfoldable pub create : Cells → ℕ × Cells
unfolding add_chunk
create c = elim c.free_list [
  | cell ∷ rest ↦ (cell, record c { free_list = rest })
  | [] ↦
      let d = add_chunk c in
      (
        (d.chunks_count - 1) * d.per_page + d.chunks_offset,
        record d { chunks_offset = d.chunks_offset + 1 },
      )
]

unfoldable pub put_back : ℕ → Cells → Cells
put_back cell c = record c { free_list = cell ∷ c.free_list }

-- The cells that have been cut from the chunks so far.
abbrev pub allocated : Cells → ℕ
allocated c = c.chunks_count * c.per_page + c.chunks_offset - c.per_page

-- Each of them is in use once or free once, never both, and no other cell is either.
pub record IsTidy (c : Cells) (used : ℕ → ℕ) : Type 0 where
  pub page : 0 < c.per_page
  pub within : c.chunks_offset ≤ c.per_page
  pub started : c.per_page ≤ c.chunks_count * c.per_page + c.chunks_offset
  pub split : (a : ℕ) → used a + count a c.free_list ≡ to_nat (ltb a (allocated c))

pub no_cells-IsTidy : (per_page : ℕ) → 0 < per_page → IsTidy (no_cells per_page) (λ _. 0)
no_cells-IsTidy per_page h = record {
  page = h;
  within = omega arith;
  started = omega arith;
  split = λ a. ground arith;
}

-- A chunk more at offset 0 stands where the last one stood at its end.
record HasRoom (c d : Cells) : Type 0 where
  same_page : d.per_page ≡ c.per_page
  same_free : d.free_list ≡ c.free_list
  same_end :
      d.chunks_count * d.per_page + d.chunks_offset ≡ c.chunks_count * c.per_page + c.chunks_offset
  inside : d.chunks_offset < d.per_page
  some_chunk : d.per_page ≤ d.chunks_count * d.per_page

first_chunk : (n p o : ℕ) → p ≤ n * p + o → o < p → p ≤ n * p
first_chunk zero p o started h = absurd (omega arith)
first_chunk (suc n) p o started h = omega arith

add_chunk-HasRoom :
    (c : Cells)
    → 0 < c.per_page
    → c.chunks_offset ≤ c.per_page
    → c.per_page ≤ c.chunks_count * c.per_page + c.chunks_offset
    → HasRoom c (add_chunk c)
add_chunk-HasRoom c page within started = elim (Bool-cases (c.chunks_offset == c.per_page)) [
  | inl full ↦
      let e = (==_iff c.chunks_offset c.per_page).0 full in
      let d : add_chunk c ≡ record c { chunks_count = c.chunks_count + 1; chunks_offset = 0 } =
        unfold add_chunk in rw full in
      rw d (record {
        same_page = refl;
        same_free = refl;
        same_end = omega arith;
        inside = page;
        some_chunk = omega arith;
      })
  | inr room ↦
      let d : add_chunk c ≡ c = unfold add_chunk in rw room in
      let less : c.chunks_offset < c.per_page = ground arith in
      rw d (record {
        same_page = refl;
        same_free = refl;
        same_end = refl;
        inside = less;
        some_chunk = first_chunk _ _ _ started less;
      })
]

last_chunk : (n p o : ℕ) → p ≤ n * p → (n - 1) * p + o ≡ n * p + o - p
last_chunk zero p o h = omega arith
last_chunk (suc n) p o h = let e : suc n - 1 ≡ n = omega arith in rw e (omega arith)

-- With no free cell the next one is cut from the last chunk.
create_next :
    (c : Cells)
    → 0 < c.per_page
    → c.chunks_offset ≤ c.per_page
    → c.per_page ≤ c.chunks_count * c.per_page + c.chunks_offset
    → c.free_list ≡ []
    → let (cell, d) = create c in
      (cell ≡ allocated c)
      × (allocated d ≡ allocated c + 1)
      × (d.free_list ≡ [])
      × (0 < d.per_page)
      × (d.chunks_offset ≤ d.per_page)
      × (d.per_page ≤ d.chunks_count * d.per_page + d.chunks_offset)
create_next c page within started empty =
    let room = add_chunk-HasRoom c page within started in
    let d = add_chunk c in
    let last = last_chunk d.chunks_count d.per_page d.chunks_offset room.some_chunk in
    unfold create in
    rw (empty, create)
      (omega arith, omega arith, room.same_free ∙ empty, omega arith, omega arith, omega arith)

-- The cell that `create` hands out was not in use.
pub create-fresh : (c : Cells) (used : ℕ → ℕ) → IsTidy c used → used (create c).0 ≡ 0
create-fresh c used t = elim (List-cases c.free_list) [
  | inl empty ↦
      let next = create_next c t.page t.within t.started empty in
      ground (arith, t.split (create c).0)
  | inr (cell, rest, free) ↦
      let s = rw free at (t.split cell) in unfold create in rw (free, create) (ground arith)
]

pub create-IsTidy :
    (c : Cells) (used : ℕ → ℕ)
    → IsTidy c used
    → IsTidy (create c).1 (λ a. to_nat (a == (create c).0) + used a)
create-IsTidy c used t = elim (List-cases c.free_list) [
  | inl empty ↦
      let next = create_next c t.page t.within t.started empty in
      record {
        page = next.3;
        within = next.4;
        started = next.5;
        split = λ a. let s = rw empty at (t.split a) in rw (next.2, next.1, next.0) (ground arith);
      }
  | inr (cell, rest, free) ↦
      unfold create in
      rw (free, create)
        (record {
          page = t.page;
          within = t.within;
          started = t.started;
          split = λ a. let s = rw free at (t.split a) in ground arith;
        })
]

pub put_back-IsTidy :
    (c : Cells) (used used' : ℕ → ℕ) (cell : ℕ)
    → ((a : ℕ) → to_nat (a == cell) + used' a ≡ used a)
    → IsTidy c used
    → IsTidy (put_back cell c) used'
unfolding put_back
put_back-IsTidy c used used' cell same t = record {
  page = t.page;
  within = t.within;
  started = t.started;
  split = λ a. omega (arith, t.split a, same a);
}
