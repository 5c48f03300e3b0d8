-- ===== src/Array/Capacity.antt =====
-- What the vector's size does: `_WI_ARRAY_CHECK_OPTIMIZE` after a removal.
use libwired.Base.{
  ℕ, ◌*◌, ◌≤◌, ◌≡◌, refl, ◌&&◌, ◌||◌, length, take_all, ltb, leb, arith, Bool-cases, inl, inr,
}
use libwired.Numbers.{clamp}
use libwired.Array.State.{Array, array_max_count, optimize, check_optimize}
use libwired.Array.Valid.{Edited}

clamp_room : (x lo hi : ℕ) → x ≤ hi → x ≤ clamp x lo hi
unfolding clamp
clamp_room x lo hi h = ground arith

-- A count of at most `_WI_ARRAY_MAX_COUNT` keeps its slots.
optimize-Edited :
    (a : Array)
    → length a.items ≡ a.data_count
    → a.data_count ≤ array_max_count
    → Edited a a.items (optimize a)
unfolding optimize
optimize-Edited a filled few =
    let room = clamp_room a.data_count a.min_count array_max_count few in
    record {
      new_items = take_all _ a.items (rw filled room);
      filled = filled;
      room = room;
      same_cells = refl;
      same_calls = refl;
      same_callbacks = refl;
      same_mutable = refl;
      same_min = refl;
    }

pub check_optimize-Edited :
    (a : Array)
    → length a.items ≡ a.data_count
    → a.data_count ≤ a.items_count
    → a.data_count ≤ array_max_count
    → Edited a a.items (check_optimize a)
unfolding check_optimize
check_optimize-Edited a filled room few =
    elim (Bool-cases (
      (leb (3 * a.data_count) a.items_count && ltb a.min_count a.items_count)
      || (leb (3 * a.items_count) a.data_count && ltb a.items_count array_max_count))) [
        | inl e ↦ rw e (optimize-Edited a filled few)
        | inr e ↦ rw e (record {
          new_items = refl;
          filled = filled;
          room = room;
          same_cells = refl;
          same_calls = refl;
          same_callbacks = refl;
          same_mutable = refl;
          same_min = refl;
        })
      ]
