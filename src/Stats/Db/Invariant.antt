-- ===== src/Stats/Db/Invariant.antt =====
-- What a method of TWStatsDB (common/twmap.hh) has to keep, for its generic parts.
use weakforced.Prelude.{
  ℕ, Bool, true, false, Option, none, some, List, [], ◌∷◌, Str, lookup, insert, is_some, All,
  str_eq, str_eq_refl, lookup-insert, Bool-cases, arith, ◌≡◌, subst, Option-cases, inl, inr,
}
use weakforced.Stats.Member.{Sketches}
use weakforced.Stats.Entry.{Entry, Outcome, done, invalid_argument, undefined}
use weakforced.Stats.Db.{
  Fields, StatsDb, field_type, emplace, add_field, insert_key, new_field, str_lt, move_to_end,
  store, after_fn, find_key_field, create_key_field, find_create_key_field, state_of, write_field,
  with_unit,
}
use weakforced.Stats.Db.Queries.{read_field, or_zero}

-- What is returned, or left by an exception, has the property; `U` says whether the undefined may
-- happen.
unfoldable pub Holds {ℓ} : {A : Type ℓ} → Type 0 → (A → Type 0) → Outcome A → Type 0
Holds U P (done a) = P a
Holds U P (invalid_argument a) = P a
Holds U P undefined = U

-- An invariant of the database, with what it says of an entry.
pub record Invariant (k : Sketches) : Type 1 where
  pub Good : StatsDb k → Type 0
  pub GoodEntry : StatsDb k → Entry k → Type 0
  pub good_fields :
      (key : Str) (fields : Fields k) (s : StatsDb k)
      → lookup key s.stats_db ≡ some fields
      → Good s
      → All (λ p. GoodEntry s p.1) fields
  pub good_put :
      (key : Str) (fields fields' : Fields k) (s : StatsDb k)
      → lookup key s.stats_db ≡ some fields
      → All (λ p. GoodEntry s p.1) fields'
      → Good s
      → Good (record s { stats_db = insert key fields' s.stats_db })
  pub good_move :
      (key : Str) (s : StatsDb k)
      → is_some (lookup key s.stats_db) ≡ true
      → Good s
      → Good (move_to_end key s)
  pub good_new :
      (field type : Str) (s : StatsDb k)
      → field_type field s ≡ some type
      → Good s
      → GoodEntry s (new_field type s)
  pub good_add_key :
      (key field type : Str) (s : StatsDb k)
      → field_type field s ≡ some type
      → lookup key s.stats_db ≡ none
      → Good s
      → Good (insert_key key field type s)

module _ {V : Type 0} (P : V → Type 0) where
  pub All-insert :
      (key : Str) (v : V) (m : List (Str × V))
      → P v
      → All (λ p. P p.1) m
      → All (λ p. P p.1) (insert key v m)
  unfolding insert
  All-insert key v [] h a = (h, tt)
  All-insert key v ((j, w) ∷ m) h a = elim (Bool-cases (str_eq j key)) [
    | inl e ↦ rw e (h, a.1)
    | inr e ↦ rw e (a.0, All-insert key v m h a.1)
  ]

  pub All-emplace :
      (key : Str) (v : V) (m : List (Str × V))
      → P v
      → All (λ p. P p.1) m
      → All (λ p. P p.1) (emplace key v m)
  unfolding emplace
  All-emplace key v [] h a = (h, tt)
  All-emplace key v ((j, w) ∷ m) h a = elim (Bool-cases (str_eq j key)) [
    | inl e ↦ rw e a
    | inr e ↦ elim (Bool-cases (str_lt key j)) [
      | inl l ↦ rw (e, l) (h, a)
      | inr l ↦ rw (e, l) (a.0, All-emplace key v m h a.1)
    ]
  ]

  pub All-lookup :
      (key : Str) (v : V) (m : List (Str × V)) → lookup key m ≡ some v → All (λ p. P p.1) m → P v
  unfolding lookup
  All-lookup key v [] h a = absurd (ground (arith, h))
  All-lookup key v ((j, w) ∷ m) h a = elim (Bool-cases (str_eq j key)) [
    | inl e ↦ subst P (ground (arith, e, h)) a.0
    | inr e ↦ All-lookup key v m (ground (arith, e, h)) a.1
  ]

known-insert :
    {V : Type 0} (key : Str) (v : V) (m : List (Str × V))
    → is_some (lookup key (insert key v m)) ≡ true
known-insert key v m = ground (arith, lookup-insert key key v m, str_eq_refl key)

module _ {k : Sketches} (I : Invariant k) where
  good_store :
      (key field : Str) (fields : Fields k) (e : Entry k) (s : StatsDb k)
      → lookup key s.stats_db ≡ some fields
      → I.GoodEntry s e
      → I.Good s
      → I.Good (store key field e fields s)
  unfolding store
  good_store key field fields e s known h g =
      I.good_put key fields (insert field e fields) s known
        (All-insert (I.GoodEntry s) field e fields h (I.good_fields key fields s known g)) g

  good_create :
      (key field type : Str) (s : StatsDb k)
      → field_type field s ≡ some type
      → I.Good s
      → I.Good (create_key_field key field type s)
  unfolding add_field create_key_field
  good_create key field type s typed g = elim (Option-cases (lookup key s.stats_db)) [
    | inl missing ↦ rw (create_key_field, missing) (I.good_add_key key field type s typed missing g)
    | inr (fields, known) ↦
        rw (create_key_field, known)
          (elim (Option-cases (lookup field fields)) [
            | inl missing ↦ rw missing (
                I.good_put key fields (emplace field (new_field type s) fields) s known
                  (All-emplace (I.GoodEntry s) field (new_field type s) fields
                    (I.good_new field type s typed g) (I.good_fields key fields s known g))
                  g)
            | inr (e, there) ↦ rw there g
          ])
  ]

  -- The lambda keeps what the invariant says of an entry.
  abbrev pub KeepsEntry : {A : Type 0} → Type 0 → (Entry k → Outcome (Entry k × A)) → Type 0
  KeepsEntry U fn =
      (s : StatsDb k) (e : Entry k) → I.GoodEntry s e → Holds U (λ r. I.GoodEntry s r.0) (fn e)

  after_fn-Good :
      {A : Type 0} (U : Type 0) (writes : Bool) (key field : Str) (fields : Fields k)
      (r : Outcome (Entry k × A)) (s : StatsDb k)
      → lookup key s.stats_db ≡ some fields
      → Holds U (λ p. I.GoodEntry s p.0) r
      → I.Good s
      → Holds U (λ p. I.Good p.0) (after_fn writes key field fields r s)
  unfolding after_fn Holds store
  after_fn-Good U writes key field fields undefined s known h g = h
  after_fn-Good U writes key field fields (invalid_argument (e, a)) s known h g =
      good_store key field fields e s known h g
  after_fn-Good U false key field fields (done (e, a)) s known h g =
      good_store key field fields e s known h g
  after_fn-Good U true key field fields (done (e, a)) s known h g =
      I.good_move key (store key field e fields s)
        (known-insert key (insert field e fields) s.stats_db)
        (good_store key field fields e s known h g)

  pub find_key_field-Good :
      {A : Type 0} (U : Type 0) (writes : Bool) (key field : Str)
      (fn : Entry k → Outcome (Entry k × A)) (s : StatsDb k)
      → KeepsEntry U fn
      → I.Good s
      → Holds U (λ p. I.Good p.0) (find_key_field writes key field fn s)
  unfolding Holds find_key_field
  find_key_field-Good U writes key field fn s keeps g = elim (Option-cases (field_type field s)) [
    | inl e ↦ rw (find_key_field, e) g
    | inr (type, e) ↦ elim (Option-cases (lookup key s.stats_db)) [
      | inl missing ↦ rw (find_key_field, e, missing) g
      | inr (fields, known) ↦ elim (Option-cases (lookup field fields)) [
        | inl missing ↦ rw (find_key_field, e, known, missing) g
        | inr (entry, there) ↦
            rw (find_key_field, e, known, there)
              (after_fn-Good U writes key field fields (fn entry) s known
                (keeps s entry (
                  All-lookup (I.GoodEntry s) field entry fields there
                    (I.good_fields key fields s known g)))
                g)
      ]
    ]
  ]

  pub find_create_key_field-Good :
      {A : Type 0} (U : Type 0) (writes : Bool) (key field : Str)
      (fn : Entry k → Outcome (Entry k × A)) (s : StatsDb k)
      → KeepsEntry U fn
      → I.Good s
      → Holds U (λ p. I.Good p.0) (find_create_key_field writes key field fn s)
  unfolding Holds find_create_key_field
  find_create_key_field-Good U writes key field fn s keeps g =
      elim (Option-cases (field_type field s)) [
        | inl e ↦ rw (find_create_key_field, e) g
        | inr (type, e) ↦
            rw (find_create_key_field, e)
              (find_key_field-Good U writes key field fn (create_key_field key field type s) keeps
                (good_create key field type s e g))
      ]

  pub Holds-state_of :
      {A : Type 0} (U : Type 0) (r : Outcome (StatsDb k × A))
      → Holds U (λ p. I.Good p.0) r
      → Holds U I.Good (state_of r)
  unfolding Holds state_of
  Holds-state_of U (done (s, a)) h = h
  Holds-state_of U (invalid_argument (s, a)) h = h
  Holds-state_of U undefined h = h

  Holds-with_unit :
      (U : Type 0) (P : Entry k → Type 0) (r : Outcome (Entry k))
      → Holds U P r
      → Holds U (λ p. P p.0) (with_unit r)
  unfolding Holds with_unit
  Holds-with_unit U P (done e) h = h
  Holds-with_unit U P (invalid_argument e) h = h
  Holds-with_unit U P undefined h = h

  pub write_field-Good :
      (U : Type 0) (key field : Str) (f : Entry k → Outcome (Entry k)) (s : StatsDb k)
      → ((s : StatsDb k) (e : Entry k) → I.GoodEntry s e → Holds U (I.GoodEntry s) (f e))
      → I.Good s
      → Holds U I.Good (write_field key field f s)
  unfolding write_field
  write_field-Good U key field f s keeps g =
      Holds-state_of U (find_create_key_field true key field (λ e. with_unit (f e)) s) (
        find_create_key_field-Good U true key field (λ e. with_unit (f e)) s
          (λ t e h. Holds-with_unit U (I.GoodEntry t) (f e) (keeps t e h)) g)

  Holds-or_zero :
      (U : Type 0) (r : Outcome (StatsDb k × Option ℕ))
      → Holds U (λ p. I.Good p.0) r
      → Holds U I.Good (
          state_of (elim r as (λ _. Outcome (StatsDb k × ℕ)) [
            | done (s', n) ↦ done (s', or_zero n)
            | invalid_argument (s', n) ↦ invalid_argument (s', or_zero n)
            | undefined ↦ undefined
          ]))
  unfolding Holds state_of
  Holds-or_zero U (done (s, a)) h = h
  Holds-or_zero U (invalid_argument (s, a)) h = h
  Holds-or_zero U undefined h = h

  pub read_field-Good :
      (U : Type 0) (key field : Str) (f : Entry k → Outcome (Entry k × ℕ)) (s : StatsDb k)
      → KeepsEntry U f
      → I.Good s
      → Holds U I.Good (state_of (read_field key field f s))
  unfolding read_field
  read_field-Good U key field f s keeps g =
      Holds-or_zero U (find_key_field false key field f s)
        (find_key_field-Good U false key field f s keeps g)
