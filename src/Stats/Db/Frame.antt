-- ===== src/Stats/Db/Frame.antt =====
-- What a method of TWStatsDB (common/twmap.hh) that writes changes: its own key and field only.
use weakforced.Prelude.{
  true, not, ◌&&◌, Option, none, some, List, [], ◌∷◌, ◌++◌, Str, str_eq, str_eq_iff, str_eq_refl,
  keep, lookup, insert, lookup-insert, if◌then◌else◌, ◌≡◌, refl, ap, ◌∙◌, arith, Option-cases, inl,
  inr,
}
use weakforced.Stats.Member.{Sketches}
use weakforced.Stats.Entry.{Entry, Outcome, done, invalid_argument}
use weakforced.Stats.Db.{
  Fields, StatsDb, emplace, field_type, move_to_end, store, after_fn, find_key_field, new_field,
  add_field, insert_key, create_key_field, find_create_key_field, state_of, with_unit, write_field,
}

module _ {V : Type 0} where
  lookup-emplace :
      (k j : Str) (v : V) (m : List (Str × V))
      → lookup k m ≡ none
      → lookup j (emplace k v m) ≡ (if str_eq k j then some v else lookup j m)
  unfolding lookup emplace
  lookup-emplace k j v [] e = refl
  lookup-emplace k j v ((i, w) ∷ m) e =
      ground (arith, str_eq_iff k j, str_eq_iff i k, str_eq_iff i j, lookup-emplace k j v m, e)

keep-append_last :
    (key : Str) (xs : List Str)
    → keep (λ j. not (str_eq j key)) (xs ++ key ∷ []) ≡ keep (λ j. not (str_eq j key)) xs
keep-append_last key [] = ground (arith, str_eq_refl key)
keep-append_last key (x ∷ xs) = ground (arith, keep-append_last key xs)

module _ {k : Sketches} where
  abbrev lookup_in : Str → Option (Fields k) → Option (Entry k)
  lookup_in field none = none
  lookup_in field (some fields) = lookup field fields

  -- The entry of a key and a field.
  abbrev pub entry_at : Str → Str → StatsDb k → Option (Entry k)
  entry_at key field s = lookup_in field (lookup key s.stats_db)

  abbrev or_new : Entry k → Option (Entry k) → Entry k
  or_new new none = new
  or_new new (some e) = e

  -- The entry that a write meets: the one that is there, or else a new one.
  abbrev pub met : Str → Str → Str → StatsDb k → Entry k
  met key field type s = or_new (new_field type s) (entry_at key field s)

  -- The database is the map of its entries; `s'` has the entry at one place, and `s` elsewhere.
  abbrev pub IsUpdate : Str → Str → Entry k → StatsDb k → StatsDb k → Type 0
  IsUpdate key field e s s' =
      (j g : Str)
      → entry_at j g s' ≡ (if str_eq key j && str_eq field g then some e else entry_at j g s)

  store-IsUpdate :
      (key field : Str) (e : Entry k) (fields : Fields k) (s : StatsDb k)
      → lookup key s.stats_db ≡ some fields
      → IsUpdate key field e s (store key field e fields s)
  unfolding store
  store-IsUpdate key field e fields s known j g = ground (
    arith,
    lookup-insert key j (insert field e fields) s.stats_db,
    lookup-insert field g e fields,
    known,
    str_eq_iff key j,
  )

  IsUpdate-then :
      (key field : Str) (e e' : Entry k) (s s' s'' : StatsDb k)
      → IsUpdate key field e s s'
      → IsUpdate key field e' s' s''
      → IsUpdate key field e' s s''
  IsUpdate-then key field e e' s s' s'' u v j g = ground (arith, u j g, v j g)

  -- What is there once a key and a field are made sure of.
  record IsMade (key field type : Str) (s s' : StatsDb k) : Type 0 where
    pub made_fields : Fields k
    pub made_key : lookup key s'.stats_db ≡ some made_fields
    pub made_field : lookup field made_fields ≡ some (met key field type s)
    pub made_update : IsUpdate key field (met key field type s) s s'
    pub made_tracker :
        keep (λ j. not (str_eq j key)) s'.key_tracker ≡ keep (λ j. not (str_eq j key)) s.key_tracker
    pub made_map : s'.field_map ≡ s.field_map

  entry_at_self :
      (key field : Str) (e : Entry k) (s : StatsDb k)
      → entry_at key field s ≡ some e
      → IsUpdate key field e s s
  entry_at_self key field e s there j g =
      ground (arith, there, str_eq_iff key j, str_eq_iff field g)

  insert_key-IsMade :
      (key field type : Str) (s : StatsDb k)
      → lookup key s.stats_db ≡ none
      → IsMade key field type s (insert_key key field type s)
  unfolding insert_key lookup
  insert_key-IsMade key field type s missing = record {
    made_fields = (field, new_field type s) ∷ [];
    made_key =
        ground (
          arith,
          lookup-insert key key ((field, new_field type s) ∷ []) s.stats_db,
          str_eq_refl key,
        );
    made_field = rw missing (ground (arith, str_eq_refl field));
    made_update = λ j g. rw missing (
        ground (
          arith,
          missing,
          lookup-insert key j ((field, new_field type s) ∷ []) s.stats_db,
          str_eq_iff key j,
        ));
    made_tracker = keep-append_last key s.key_tracker;
    made_map = refl;
  }

  add_field-IsMade :
      (key field type : Str) (fields : Fields k) (s : StatsDb k)
      → lookup key s.stats_db ≡ some fields
      → lookup field fields ≡ none
      → IsMade key field type s (add_field key field type fields s)
  unfolding add_field
  add_field-IsMade key field type fields s known missing = record {
    made_fields = emplace field (new_field type s) fields;
    made_key = ground (
      arith,
      lookup-insert key key (emplace field (new_field type s) fields) s.stats_db,
      str_eq_refl key,
    );
    made_field =
        rw (known, missing)
          (ground (
            arith,
            lookup-emplace field field (new_field type s) fields missing,
            str_eq_refl field,
          ));
    made_update = λ j g.
        rw (known, missing)
          (ground (
            arith,
            known,
            missing,
            lookup-insert key j (emplace field (new_field type s) fields) s.stats_db,
            lookup-emplace field g (new_field type s) fields missing,
            str_eq_iff key j,
          ));
    made_tracker = refl;
    made_map = refl;
  }

  create_key_field-IsMade :
      (key field type : Str) (s : StatsDb k)
      → IsMade key field type s (create_key_field key field type s)
  unfolding create_key_field
  create_key_field-IsMade key field type s = elim (Option-cases (lookup key s.stats_db)) [
    | inl missing ↦ rw (create_key_field, missing) (insert_key-IsMade key field type s missing)
    | inr (fields, known) ↦ elim (Option-cases (lookup field fields)) [
      | inl missing ↦
          rw (create_key_field, known, missing)
            (add_field-IsMade key field type fields s known missing)
      | inr (e, there) ↦
          rw (create_key_field, known, there)
            (record {
              made_fields = fields;
              made_key = known;
              made_field = rw (known, there) refl;
              made_update =
                  rw (known, there) (entry_at_self key field e s (rw (known, there) refl));
              made_tracker = refl;
              made_map = refl;
            })
    ]
  ]

  field_type-field_map :
      (field type : Str) (s s' : StatsDb k)
      → s'.field_map ≡ s.field_map
      → field_type field s ≡ some type
      → field_type field s' ≡ some type
  unfolding field_type
  field_type-field_map field type s s' e typed = rw e typed

  find_key_field-done :
      (key field type : Str) (f : Entry k → Outcome (Entry k)) (fields : Fields k) (e e' : Entry k)
      (s : StatsDb k)
      → field_type field s ≡ some type
      → lookup key s.stats_db ≡ some fields
      → lookup field fields ≡ some e
      → f e ≡ done e'
      → state_of (find_key_field true key field (λ e. with_unit (f e)) s)
        ≡ done (move_to_end key (store key field e' fields s))
  unfolding find_key_field after_fn with_unit state_of
  find_key_field-done key field type f fields e e' s typed known there ran =
      rw (find_key_field, typed, known, there, ran) refl

  find_key_field-throw :
      (key field type : Str) (f : Entry k → Outcome (Entry k)) (fields : Fields k) (e e' : Entry k)
      (s : StatsDb k)
      → field_type field s ≡ some type
      → lookup key s.stats_db ≡ some fields
      → lookup field fields ≡ some e
      → f e ≡ invalid_argument e'
      → state_of (find_key_field true key field (λ e. with_unit (f e)) s)
        ≡ invalid_argument (store key field e' fields s)
  unfolding find_key_field after_fn with_unit state_of
  find_key_field-throw key field type f fields e e' s typed known there ran =
      rw (find_key_field, typed, known, there, ran) refl

  write_field-made :
      (key field type : Str) (f : Entry k → Outcome (Entry k)) (s : StatsDb k)
      → field_type field s ≡ some type
      → write_field key field f s
        ≡ state_of (
            find_key_field true key field
              (λ e. with_unit (f e))
              (create_key_field key field type s))
  unfolding write_field find_create_key_field
  write_field-made key field type f s typed = rw (find_create_key_field, typed) refl

  -- A method that writes a field whose type is known, and that does not throw on the entry it meets,
  -- which is a new one where there was none, changes that entry as the method of the entry does, and no
  -- other entry. The key is then the last of the tracker, and the others keep their order.
  pub write_field-IsUpdate :
      (key field type : Str) (f : Entry k → Outcome (Entry k)) (e : Entry k) (s : StatsDb k)
      → field_type field s ≡ some type
      → f (met key field type s) ≡ done e
      → (s' : StatsDb k) × (write_field key field f s ≡ done s')
        × IsUpdate key field e s s'
        × (s'.key_tracker ≡ keep (λ j. not (str_eq j key)) s.key_tracker ++ key ∷ [])
  unfolding move_to_end store
  write_field-IsUpdate key field type f e s typed ran =
      let m = create_key_field-IsMade key field type s in
      let made : StatsDb k = create_key_field key field type s in
      let there : StatsDb k = store key field e m.made_fields made in
      (
        move_to_end key there,
        write_field-made key field type f s typed
            ∙ find_key_field-done key field type f m.made_fields (met key field type s) e made
                (field_type-field_map field type s made m.made_map typed) m.made_key m.made_field
                ran,
        IsUpdate-then key field (met key field type s) e s made there m.made_update
            (store-IsUpdate key field e m.made_fields made m.made_key),
        ap (λ (js : List Str). js ++ key ∷ []) m.made_tracker,
      )

  -- When the method throws on the entry it meets, the exception leaves the key and the field made, with
  -- the entry as the method left it, and no other entry changed. The other keys keep their order.
  pub write_field-throw :
      (key field type : Str) (f : Entry k → Outcome (Entry k)) (e : Entry k) (s : StatsDb k)
      → field_type field s ≡ some type
      → f (met key field type s) ≡ invalid_argument e
      → (s' : StatsDb k) × (write_field key field f s ≡ invalid_argument s')
        × IsUpdate key field e s s'
        × (keep (λ j. not (str_eq j key)) s'.key_tracker
            ≡ keep (λ j. not (str_eq j key)) s.key_tracker)
  unfolding store
  write_field-throw key field type f e s typed ran =
      let m = create_key_field-IsMade key field type s in
      let made : StatsDb k = create_key_field key field type s in
      (
        store key field e m.made_fields made,
        write_field-made key field type f s typed
            ∙ find_key_field-throw key field type f m.made_fields (met key field type s) e made
                (field_type-field_map field type s made m.made_map typed) m.made_key m.made_field
                ran,
        IsUpdate-then key field (met key field type s) e s made
            (store key field e m.made_fields made) m.made_update
            (store-IsUpdate key field e m.made_fields made m.made_key),
        m.made_tracker,
      )
