-- ===== src/Stats/Db/Methods.antt =====
-- The methods of TWStatsDB (common/twmap.hh) that go over the fields of a key, and an invariant.
use weakforced.Prelude.{
  Option, some, List, [], ◌∷◌, Str, lookup, insert, All, ◌≡◌, Option-cases, inl, inr,
}
use weakforced.Stats.Member.{Sketches}
use weakforced.Stats.Entry.{Entry, Outcome, done, invalid_argument, undefined}
use weakforced.Stats.Reads.{entry_reset}
use weakforced.Stats.Db.{Fields, StatsDb, state_of, store}
use weakforced.Stats.Db.Queries.{each_field, with_fields, reset_fields, db_reset, reset_field}
use weakforced.Stats.Db.Invariant.{Holds, Invariant, KeepsEntry, All-insert, All-lookup}

module _ {k : Sketches} (I : Invariant k) where
  abbrev AllGood : StatsDb k → Fields k → Type 0
  AllGood s fields = All (λ p. I.GoodEntry s p.1) fields

  with_rest :
      {A : Type 0} (U : Type 0) (s : StatsDb k) (field : Str) (e' : Entry k) (a : A)
      (rest : Outcome (Fields k × List (Str × A)))
      → I.GoodEntry s e'
      → Holds U (λ r. AllGood s r.0) rest
      → Holds U
          (λ r. AllGood s r.0)
          (elim rest as (λ _. Outcome (Fields k × List (Str × A))) [
            | undefined ↦ undefined
            | invalid_argument (fs, rs) ↦ invalid_argument ((field, e') ∷ fs, (field, a) ∷ rs)
            | done (fs, rs) ↦ done ((field, e') ∷ fs, (field, a) ∷ rs)
          ])
  unfolding Holds
  with_rest U s field e' a undefined h r = r
  with_rest U s field e' a (invalid_argument (fs, rs)) h r = (h, r)
  with_rest U s field e' a (done (fs, rs)) h r = (h, r)

  with_first :
      {A : Type 0} (U : Type 0) (s : StatsDb k) (field : Str) (fields : Fields k)
      (first : Outcome (Entry k × A)) (rest : Outcome (Fields k × List (Str × A)))
      → AllGood s fields
      → Holds U (λ r. I.GoodEntry s r.0) first
      → Holds U (λ r. AllGood s r.0) rest
      → Holds U
          (λ r. AllGood s r.0)
          (elim first as (λ _. Outcome (Fields k × List (Str × A))) [
            | undefined ↦ undefined
            | invalid_argument (e', a) ↦ invalid_argument ((field, e') ∷ fields, [])
            | done (e', a) ↦ elim rest as (λ _. Outcome (Fields k × List (Str × A))) [
              | undefined ↦ undefined
              | invalid_argument (fs, rs) ↦ invalid_argument ((field, e') ∷ fs, (field, a) ∷ rs)
              | done (fs, rs) ↦ done ((field, e') ∷ fs, (field, a) ∷ rs)
            ]
          ])
  unfolding Holds
  with_first U s field fields undefined rest all h r = h
  with_first U s field fields (invalid_argument (e', a)) rest all h r = (h, all)
  with_first U s field fields (done (e', a)) rest all h r = with_rest U s field e' a rest h r

  each_field-Good :
      {A : Type 0} (U : Type 0) (f : Str → Entry k → Outcome (Entry k × A)) (s : StatsDb k)
      (fields : Fields k)
      → ((field : Str) → KeepsEntry I U (f field))
      → AllGood s fields
      → Holds U (λ r. AllGood s r.0) (each_field f fields)
  unfolding Holds each_field
  each_field-Good U f s [] keeps all = tt
  each_field-Good U f s ((field, e) ∷ fields) keeps all =
      with_first U s field fields (f field e) (each_field f fields) all.1 (keeps field s e all.0)
        (each_field-Good U f s fields keeps all.1)

  after_fields :
      {A : Type 0} (U : Type 0) (key : Str) (fields : Fields k) (s : StatsDb k)
      (r : Outcome (Fields k × List (Str × A)))
      → lookup key s.stats_db ≡ some fields
      → Holds U (λ r. AllGood s r.0) r
      → I.Good s
      → Holds U I.Good (
          state_of (elim r as (λ _. Outcome (StatsDb k × Option (List (Str × A)))) [
            | undefined ↦ undefined
            | invalid_argument (fs, rs) ↦
                invalid_argument (record s { stats_db = insert key fs s.stats_db }, some rs)
            | done (fs, rs) ↦ done (record s { stats_db = insert key fs s.stats_db }, some rs)
          ]))
  unfolding Holds state_of
  after_fields U key fields s undefined known h g = h
  after_fields U key fields s (invalid_argument (fs, rs)) known h g =
      I.good_put key fields fs s known h g
  after_fields U key fields s (done (fs, rs)) known h g = I.good_put key fields fs s known h g

  pub with_fields-Good :
      {A : Type 0} (U : Type 0) (key : Str) (f : Str → Entry k → Outcome (Entry k × A))
      (s : StatsDb k)
      → ((field : Str) → KeepsEntry I U (f field))
      → I.Good s
      → Holds U I.Good (state_of (with_fields key f s))
  unfolding Holds with_fields state_of
  with_fields-Good U key f s keeps g = elim (Option-cases (lookup key s.stats_db)) [
    | inl missing ↦ rw (with_fields, missing) g
    | inr (fields, known) ↦
        rw (with_fields, known)
          (after_fields U key fields s (each_field f fields) known
            (each_field-Good U f s fields keeps (I.good_fields key fields s known g)) g)
  ]

  abbrev pub KeepsReset : Type 0
  KeepsReset = (s : StatsDb k) (e : Entry k) → I.GoodEntry s e → I.GoodEntry s (entry_reset e)

  reset_fields-Good :
      (s : StatsDb k) (fields : Fields k)
      → KeepsReset
      → AllGood s fields
      → AllGood s (reset_fields fields)
  unfolding reset_fields
  reset_fields-Good s [] keeps all = tt
  reset_fields-Good s ((field, e) ∷ fields) keeps all =
      (keeps s e all.0, reset_fields-Good s fields keeps all.1)

  pub db_reset-Good : (key : Str) (s : StatsDb k) → KeepsReset → I.Good s → I.Good (db_reset key s)
  unfolding db_reset
  db_reset-Good key s keeps g = elim (Option-cases (lookup key s.stats_db)) [
    | inl missing ↦ rw (db_reset, missing) g
    | inr (fields, known) ↦
        rw (db_reset, known)
          (I.good_put key fields (reset_fields fields) s known
            (reset_fields-Good s fields keeps (I.good_fields key fields s known g)) g)
  ]

  pub reset_field-Good :
      (key field : Str) (s : StatsDb k) → KeepsReset → I.Good s → I.Good (reset_field key field s)
  unfolding reset_field store
  reset_field-Good key field s keeps g = elim (Option-cases (lookup key s.stats_db)) [
    | inl missing ↦ rw (reset_field, missing) g
    | inr (fields, known) ↦ elim (Option-cases (lookup field fields)) [
      | inl missing ↦ rw (reset_field, known, missing) g
      | inr (e, there) ↦
          rw (reset_field, known, there)
            (I.good_put key fields (insert field (entry_reset e) fields) s known
              (All-insert (I.GoodEntry s) field (entry_reset e) fields
                (keeps s e (
                  All-lookup (I.GoodEntry s) field e fields there
                    (I.good_fields key fields s known g)))
                (I.good_fields key fields s known g))
              g)
    ]
  ]
