-- ===== src/Stats/Saved.antt =====
-- Saving and restoring the windows of an int field (dump and restore of common/twmap.hh).
use weakforced.Prelude.{ℕ, ◌<◌, some, List, [], ◌∷◌, All, length, ◌≡◌, refl, arith, ap, false}
use weakforced.Stats.Member.{
  Sketches, Member, int_member, int_mod, to_bytes, of_bytes, dump, restore,
}
use weakforced.Stats.Entry.{Entry, done}
use weakforced.Stats.Reads.{dump_array, restore_array, entry_dump, entry_restore}

-- Four bytes hold an int.
of_bytes-to_bytes : (i : ℕ) → i < int_mod → of_bytes (to_bytes i) ≡ i
unfolding of_bytes to_bytes
of_bytes-to_bytes i lt = omega arith

module _ {k : Sketches} where
  -- The window holds an int of 32 bits.
  abbrev pub IsInt32 : ℕ × Member k → Type 0
  IsInt32 w = (n : ℕ) × (w.1 ≡ int_member n) × (n < int_mod)

  restore-dump :
      (m m' : Member k) (t t' : ℕ) → IsInt32 (t, m) → IsInt32 (t', m') → restore (dump m) m' ≡ m
  unfolding restore dump
  restore-dump m m' t t' (n, e, lt) (n', e', lt') =
      rw (e, e') (ap int_member (of_bytes-to_bytes n lt))

  pub restore_array-dump_array :
      (ws ws' : List (ℕ × Member k))
      → length ws ≡ length ws'
      → All IsInt32 ws
      → All IsInt32 ws'
      → restore_array (dump_array ws) ws' ≡ some ws
  unfolding restore_array dump_array
  restore_array-dump_array [] [] e h h' = refl
  restore_array-dump_array [] (w' ∷ ws') e h h' = absurd (omega arith)
  restore_array-dump_array (w ∷ ws) [] e h h' = absurd (omega arith)
  restore_array-dump_array ((t, m) ∷ ws) ((t', m') ∷ ws') e h h' =
      rw (restore_array-dump_array ws ws' (omega arith) h.1 h'.1, restore-dump m m' t t' h.0 h'.0)
        refl

  -- What dump gives for an int field, restore takes into another entry of the field: it then has the
  -- windows and the start time of the first, was last cleaned at 0 and has no valid sum. Both entries
  -- have as many windows, of 32-bit ints.
  pub entry_restore-entry_dump :
      (e f : Entry k)
      → length e.stats_array ≡ length f.stats_array
      → All IsInt32 e.stats_array
      → All IsInt32 f.stats_array
      → entry_restore (entry_dump e).0 (entry_dump e).1 f
        ≡ done (record f {
          stats_array = e.stats_array;
          start_time = e.start_time;
          last_cleaned = 0;
          sum_cache_valid = false;
          ssum_cache_valid = false;
        })
  unfolding entry_restore entry_dump
  entry_restore-entry_dump e f same h h' =
      rw (entry_restore, restore_array-dump_array e.stats_array f.stats_array same h h') refl
