-- ===== src/Stats/Listing.antt =====
-- What get_windows of common/twmap.hh lists.
use weakforced.Prelude.{
  ℕ, zero, suc, ◌+◌, ◌-◌, ◌%◌, ◌<◌, Option, none, some, List, [], ◌∷◌, length, get_elem?, ◌≡◌, sym,
  ap, ◌∙◌, refl, arith,
}
use weakforced.Stats.Member.{Sketches, Member, get}
use weakforced.Stats.Entry.{Clock, Entry, done, clean_windows, current_window}
use weakforced.Stats.Reads.{windows_back, collect_windows, entry_get_windows}

module _ {k : Sketches} where
  -- The number of a window, if there is one.
  abbrev pub value_at : List (ℕ × Member k) → ℕ → Option ℕ
  value_at ws i = elim (get_elem? ws i) [ none ↦ none | some (t, m) ↦ some (get m) ]

  pub get_elem?-in :
      (ws : List (ℕ × Member k)) (i : ℕ)
      → i < length ws
      → (w : ℕ × Member k) × (get_elem? ws i ≡ some w)
  get_elem?-in [] i lt = absurd (omega arith)
  get_elem?-in (w ∷ ws) zero lt = (w, refl)
  get_elem?-in (w ∷ ws) (suc i) lt = get_elem?-in ws i (omega arith)

  windows_back-suc :
      (cw num n t : ℕ) (m : Member k) (ns : List ℕ) (ws : List (ℕ × Member k))
      → get_elem? ws ((cw + suc n) % num) ≡ some (t, m)
      → windows_back cw num n ws ≡ some ns
      → windows_back cw num (suc n) ws ≡ some (get m ∷ ns)
  unfolding windows_back
  windows_back-suc cw num n t m ns ws f e = rw (windows_back, f, e) refl

  value_at-some :
      (ws : List (ℕ × Member k)) (i t : ℕ) (m : Member k)
      → get_elem? ws i ≡ some (t, m)
      → value_at ws i ≡ some (get m)
  value_at-some ws i t m f = rw (value_at, f) refl

  -- The list has a number for each of the windows, the first for `cw + n`, and so on back.
  pub windows_back-value_at :
      (cw num n : ℕ) (ws : List (ℕ × Member k))
      → 0 < num
      → length ws ≡ num
      → (ns : List ℕ) × (windows_back cw num n ws ≡ some ns)
        × (length ns ≡ n)
        × ((j : ℕ) → j < n → get_elem? ns j ≡ value_at ws ((cw + (n - j)) % num))
  unfolding windows_back
  windows_back-value_at cw num zero ws pos same = ([], refl, refl, λ j lt. absurd (omega arith))
  windows_back-value_at cw num (suc n) ws pos same =
      let (ns, e, l, at) = windows_back-value_at cw num n ws pos same in
      let ((t, m), f) = get_elem?-in ws ((cw + suc n) % num) (omega arith) in
      let here : suc n - 0 ≡ suc n = omega arith in
      (
        get m ∷ ns,
        windows_back-suc cw num n t m ns ws f e,
        omega (arith, l),
        elim [
          | zero ↦ λ lt. rw here (sym (value_at-some ws ((cw + suc n) % num) t m f))
          | suc j ↦
              λ lt. let there : suc n - suc j ≡ n - j = omega arith in rw there (at j (omega arith))
        ],
      )

  pub collect_windows-done :
      (cw : ℕ) (x : Entry k) (ns : List ℕ)
      → windows_back cw x.num_windows x.num_windows x.stats_array ≡ some ns
      → collect_windows (some cw) x ≡ done (x, ns)
  unfolding collect_windows
  collect_windows-done cw x ns e = rw (collect_windows, e) refl

  -- get_windows on an entry with all its windows, and with a current window, returns a list of as many
  -- numbers. The number at place j is that of the window j places before the current one, around the
  -- array.
  pub entry_get_windows-value_at :
      (c : Clock) (e : Entry k) (cw : ℕ)
      → current_window c.current (clean_windows c.cleaned e) ≡ some cw
      → 0 < (clean_windows c.cleaned e).num_windows
      → length (clean_windows c.cleaned e).stats_array ≡ (clean_windows c.cleaned e).num_windows
      → (ns : List ℕ) × (entry_get_windows c e ≡ done (clean_windows c.cleaned e, ns))
        × (length ns ≡ (clean_windows c.cleaned e).num_windows)
        × ((j : ℕ)
            → j < (clean_windows c.cleaned e).num_windows
            → get_elem? ns j
              ≡ value_at (clean_windows c.cleaned e).stats_array (
                  (cw + ((clean_windows c.cleaned e).num_windows - j))
                  % (clean_windows c.cleaned e).num_windows))
  unfolding entry_get_windows
  entry_get_windows-value_at c e cw here pos all =
      let x : Entry k = clean_windows c.cleaned e in
      let (ns, f, l, at) =
        windows_back-value_at cw x.num_windows x.num_windows x.stats_array pos all in
      (ns, ap (λ (o : Option ℕ). collect_windows o x) here ∙ collect_windows-done cw x ns f, l, at)
