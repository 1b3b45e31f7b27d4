-- ===== src/Stats/Whole/Reading.antt =====
-- The methods of TWStatsEntry (common/twmap.hh) that read stay in the array of windows.
use weakforced.Prelude.{
  ℕ, zero, suc, ◌+◌, ◌%◌, ◌≤◌, Bool, true, false, some, List, [], ◌∷◌, Str, length, get_elem?, set,
  length-set, if◌then◌else◌, ◌≡◌, refl, sym, subst, ◌∙◌, arith,
}
use weakforced.Stats.Member.{Sketches, Member, get_str}
use weakforced.Stats.Entry.{Clock, Entry, Outcome, done, clean_windows, current_window}
use weakforced.Stats.Reads.{
  window_at, read_value, entry_get, put_read, read_text, entry_get_str, windows_back,
  collect_windows, entry_get_windows, windows_back_str, collect_windows_str, entry_get_windows_str,
  sum_window, entry_sum, sum_window_str, entry_sum_str,
}
use weakforced.Stats.Listing.{get_elem?-in, windows_back-value_at, collect_windows-done}
use weakforced.Stats.Db.Invariant.{Holds}
use weakforced.Stats.Whole.{
  IsWhole, clean_windows-IsWhole, with_array, current_window-in, current_window-window,
}

if-Holds :
    {A : Type 0} (P : A → Type 0) (b : Bool) (r r' : Outcome A)
    → Holds ⊥ P r
    → Holds ⊥ P r'
    → Holds ⊥ P (if b then r else r')
unfolding Holds
if-Holds P true r r' h h' = h
if-Holds P false r r' h h' = h'

module _ {k : Sketches} (num first_time : ℕ) (pos : 1 ≤ num) where
  abbrev Whole : Entry k → Type 0
  Whole = IsWhole num first_time

  window_at-here :
      (now cw : ℕ) (w : ℕ × Member k) (e : Entry k)
      → current_window now e ≡ some cw
      → get_elem? e.stats_array cw ≡ some w
      → window_at now e ≡ some w
  unfolding window_at
  window_at-here now cw w e here there = rw (window_at, here) there

  window_at-window :
      (now : ℕ) (e : Entry k)
      → first_time ≤ now
      → Whole e
      → (w : ℕ × Member k) × (window_at now e ≡ some w)
  unfolding window_at
  window_at-window now e late h =
      let (cw, w, here, there) = current_window-window num first_time pos now e late h in
      (w, window_at-here now cw w e here there)

  pub entry_get-Whole :
      (c : Clock) (e : Entry k)
      → first_time ≤ c.current
      → Whole e
      → Holds ⊥ (λ r. Whole r.0) (entry_get c e)
  unfolding entry_get read_value Holds
  entry_get-Whole c e late h =
      let h' = clean_windows-IsWhole num first_time c.cleaned e h in
      let (w, at) = window_at-window c.current _ late h' in
      subst (λ o. Holds ⊥ (λ r. Whole r.0) (read_value o (clean_windows c.cleaned e))) (sym at) h'

  read_text-Whole :
      (s : Str) (cw : ℕ) (w : ℕ × Member k) (e : Entry k)
      → get_elem? e.stats_array cw ≡ some w
      → Whole e
      → Holds ⊥ (λ r. Whole r.0) (read_text s (some cw) e)
  unfolding put_read Holds read_text
  read_text-Whole s cw (t, m) e there h =
      rw (read_text, there) (with_array num first_time _ e (length-set e.stats_array cw _) h)

  pub entry_get_str-Whole :
      (c : Clock) (s : Str) (e : Entry k)
      → first_time ≤ c.current
      → Whole e
      → Holds ⊥ (λ r. Whole r.0) (entry_get_str c s e)
  unfolding entry_get_str
  entry_get_str-Whole c s e late h =
      let h' = clean_windows-IsWhole num first_time c.cleaned e h in
      let (cw, w, here, there) = current_window-window num first_time pos c.current _ late h' in
      subst (λ o. Holds ⊥ (λ r. Whole r.0) (read_text s o (clean_windows c.cleaned e))) (sym here)
        (read_text-Whole s cw w (clean_windows c.cleaned e) there h')

  pub entry_sum-Whole :
      (c : Clock) (e : Entry k)
      → first_time ≤ c.current
      → Whole e
      → Holds ⊥ (λ r. Whole r.0) (entry_sum c e)
  unfolding entry_sum sum_window Holds
  entry_sum-Whole c e late h =
      let h' = clean_windows-IsWhole num first_time c.cleaned e h in
      let (w, at) = window_at-window c.current _ late h' in
      if-Holds (λ r. Whole r.0) (clean_windows c.cleaned e).sum_cache_valid _ _ h'
        (subst (λ o. Holds ⊥ (λ r. Whole r.0) (sum_window o (clean_windows c.cleaned e))) (sym at)
          (record { array = h'.array; windows = h'.windows; size = h'.size; started = h'.started }))

  pub entry_sum_str-Whole :
      (c : Clock) (s : Str) (e : Entry k)
      → first_time ≤ c.current
      → Whole e
      → Holds ⊥ (λ r. Whole r.0) (entry_sum_str c s e)
  unfolding entry_sum_str sum_window_str Holds
  entry_sum_str-Whole c s e late h =
      let h' = clean_windows-IsWhole num first_time c.cleaned e h in
      let (w, at) = window_at-window c.current _ late h' in
      if-Holds (λ r. Whole r.0) (clean_windows c.cleaned e).ssum_cache_valid _ _ h'
        (subst (λ o. Holds ⊥ (λ r. Whole r.0) (sum_window_str s o (clean_windows c.cleaned e)))
          (sym at)
          (record { array = h'.array; windows = h'.windows; size = h'.size; started = h'.started }))

  windows_back_str-suc :
      (s : Str) (cw n t : ℕ) (m : Member k) (ws ws' : List (ℕ × Member k)) (ns : List ℕ)
      → get_elem? ws ((cw + suc n) % num) ≡ some (t, m)
      → windows_back_str s cw num n (set ws ((cw + suc n) % num) (t, (get_str s m).0))
        ≡ some (ws', ns)
      → windows_back_str s cw num (suc n) ws ≡ some (ws', (get_str s m).1 ∷ ns)
  unfolding windows_back_str
  windows_back_str-suc s cw n t m ws ws' ns f e = rw (windows_back_str, f, e) refl

  windows_back_str-some :
      (s : Str) (cw n : ℕ) (ws : List (ℕ × Member k))
      → length ws ≡ num
      → (ws' : List (ℕ × Member k)) × (ns : List ℕ) × (windows_back_str s cw num n ws
          ≡ some (ws', ns))
        × (length ws' ≡ num)
  unfolding windows_back_str
  windows_back_str-some s cw zero ws l = (ws, [], refl, l)
  windows_back_str-some s cw (suc n) ws l =
      let ((t, m), there) = get_elem?-in ws ((cw + suc n) % num) (omega (arith, pos)) in
      let (ws', ns, e, l') =
        windows_back_str-some s cw n (set ws ((cw + suc n) % num) (t, (get_str s m).0))
          (length-set ws _ _ ∙ l) in
      (ws', (get_str s m).1 ∷ ns, windows_back_str-suc s cw n t m ws ws' ns there e, l')

  collect_windows-Whole :
      (cw : ℕ) (e : Entry k) → Whole e → Holds ⊥ (λ r. Whole r.0) (collect_windows (some cw) e)
  unfolding collect_windows Holds
  collect_windows-Whole cw e h =
      let (ns, all, _, _) = windows_back-value_at cw num num e.stats_array pos h.array in
      subst (Holds ⊥ (λ r. Whole r.0))
        (sym (
          collect_windows-done cw e ns
            (subst (λ n. windows_back cw n n e.stats_array ≡ some ns) (sym h.windows) all)))
        h

  collect_windows_str-done :
      (s : Str) (cw : ℕ) (e : Entry k) (ws : List (ℕ × Member k)) (ns : List ℕ)
      → windows_back_str s cw e.num_windows e.num_windows e.stats_array ≡ some (ws, ns)
      → collect_windows_str s (some cw) e ≡ done (record e { stats_array = ws }, ns)
  unfolding collect_windows_str
  collect_windows_str-done s cw e ws ns all = rw (collect_windows_str, all) refl

  collect_windows_str-Whole :
      (s : Str) (cw : ℕ) (e : Entry k)
      → Whole e
      → Holds ⊥ (λ r. Whole r.0) (collect_windows_str s (some cw) e)
  unfolding Holds
  collect_windows_str-Whole s cw e h =
      let (ws, ns, all, l) = windows_back_str-some s cw num e.stats_array h.array in
      subst (Holds ⊥ (λ r. Whole r.0))
        (sym (
          collect_windows_str-done s cw e ws ns (
            subst (λ n. windows_back_str s cw n n e.stats_array ≡ some (ws, ns)) (sym h.windows)
              all)))
        (with_array num first_time ws e (l ∙ sym h.array) h)

  pub entry_get_windows-Whole :
      (c : Clock) (e : Entry k)
      → first_time ≤ c.current
      → Whole e
      → Holds ⊥ (λ r. Whole r.0) (entry_get_windows c e)
  unfolding entry_get_windows
  entry_get_windows-Whole c e late h =
      let h' = clean_windows-IsWhole num first_time c.cleaned e h in
      let (cw, here, _) = current_window-in num first_time pos c.current _ late h' in
      subst (λ o. Holds ⊥ (λ r. Whole r.0) (collect_windows o (clean_windows c.cleaned e)))
        (sym here) (collect_windows-Whole cw (clean_windows c.cleaned e) h')

  pub entry_get_windows_str-Whole :
      (c : Clock) (s : Str) (e : Entry k)
      → first_time ≤ c.current
      → Whole e
      → Holds ⊥ (λ r. Whole r.0) (entry_get_windows_str c s e)
  unfolding entry_get_windows_str
  entry_get_windows_str-Whole c s e late h =
      let h' = clean_windows-IsWhole num first_time c.cleaned e h in
      let (cw, here, _) = current_window-in num first_time pos c.current _ late h' in
      subst (λ o. Holds ⊥ (λ r. Whole r.0) (collect_windows_str s o (clean_windows c.cleaned e)))
        (sym here) (collect_windows_str-Whole s cw (clean_windows c.cleaned e) h')
