-- ===== src/Blwl/Expiry.antt =====
-- `_purgeEntries` of wforce/blackwhitelist.cc stops at the first entry of the time index that has
-- not expired. Here that is shown to drop exactly the entries that have expired.
use weakforced.Prelude.{
  Bool, true, false, not, ◌&&◌, ◌||◌, List, [], ◌∷◌, keep, All, if◌then◌else◌, Str, str_eq,
  str_eq_iff, str_eq_refl, ℤ, leb_ℤ, ◌≤ℤ◌, ◌≡◌, refl, arith, ◌∙◌, sym, ap, Bool-cases, inl, inr,
}
use weakforced.Blwl.Table.{BlackWhiteListEntry, Table, erase_key, place, time_index}
use weakforced.Blwl.Keys.{count_key, HasDistinctKeys}

-- The expirations do not decrease.
abbrev pub IsByTime : Table → Type 0
IsByTime [] = Unit
IsByTime (e ∷ t) = All (λ f. e.expiration ≤ℤ f.expiration) t × IsByTime t

All-trans :
    (a b : BlackWhiteListEntry) (t : Table)
    → a.expiration ≤ℤ b.expiration
    → All (λ f. b.expiration ≤ℤ f.expiration) t
    → All (λ f. a.expiration ≤ℤ f.expiration) t
All-trans a b [] le h = tt
All-trans a b (f ∷ t) le h = (omega arith, All-trans a b t le h.1)

All-place :
    (a e : BlackWhiteListEntry) (t : Table)
    → a.expiration ≤ℤ e.expiration
    → All (λ f. a.expiration ≤ℤ f.expiration) t
    → All (λ f. a.expiration ≤ℤ f.expiration) (place e t)
unfolding place
All-place a e [] le h = (le, tt)
All-place a e (f ∷ t) le h = ground (arith, All-place a e t)

place-IsByTime : (e : BlackWhiteListEntry) (t : Table) → IsByTime t → IsByTime (place e t)
unfolding place
place-IsByTime e [] h = (tt, tt)
place-IsByTime e (f ∷ t) h = ground (arith, All-trans e f t, All-place f e t, place-IsByTime e t)

-- The time index is sorted.
pub time_index-IsByTime : (t : Table) → IsByTime (time_index t)
unfolding time_index
time_index-IsByTime [] = tt
time_index-IsByTime (e ∷ t) = place-IsByTime e (time_index t) (time_index-IsByTime t)

-- Has an entry with the key expired?
expired_key : ℤ → Str → Table → Bool
expired_key now k [] = false
expired_key now k (e ∷ t) = (leb_ℤ e.expiration now && str_eq e.key k) || expired_key now k t

expired_key-place :
    (now : ℤ) (k : Str) (e : BlackWhiteListEntry) (t : Table)
    → expired_key now k (place e t)
      ≡ ((leb_ℤ e.expiration now && str_eq e.key k) || expired_key now k t)
unfolding place expired_key
expired_key-place now k e [] = refl
expired_key-place now k e (f ∷ t) = ground (arith, expired_key-place now k e t)

expired_key-time_index :
    (now : ℤ) (k : Str) (t : Table) → expired_key now k (time_index t) ≡ expired_key now k t
unfolding time_index expired_key
expired_key-time_index now k [] = refl
expired_key-time_index now k (e ∷ t) =
    rw (expired_key-place now k e (time_index t), expired_key-time_index now k t) refl

expired_key_of_later :
    (now : ℤ) (k : Str) (e : BlackWhiteListEntry) (t : Table)
    → leb_ℤ e.expiration now ≡ false
    → All (λ f. e.expiration ≤ℤ f.expiration) t
    → expired_key now k t ≡ false
unfolding expired_key
expired_key_of_later now k e [] h a = refl
expired_key_of_later now k e (f ∷ t) h a = ground (arith, expired_key_of_later now k e t)

-- What the loop does to the list.
unfoldable pub purge_table : ℤ → Table → Table → Table
purge_table now [] t = t
purge_table now (e ∷ view) t =
    let rest = purge_table now view (erase_key e.key t) in
    if leb_ℤ e.expiration now then rest else t

keep-true {ℓ} : {A : Type ℓ} (p : A → Bool) (t : List A) → ((a : A) → p a ≡ true) → keep p t ≡ t
keep-true p [] h = refl
keep-true p (a ∷ t) h = ground (arith, h a, keep-true p t h)

keep-keep {ℓ} :
    {A : Type ℓ} (p q r : A → Bool) (t : List A)
    → ((a : A) → r a ≡ (q a && p a))
    → keep p (keep q t) ≡ keep r t
keep-keep p q r [] h = refl
keep-keep p q r (a ∷ t) h = ground (arith, h a, keep-keep p q r t h)

keep-congr {ℓ} :
    {A : Type ℓ} (p q : A → Bool) (t : List A) → All (λ a. p a ≡ q a) t → keep p t ≡ keep q t
keep-congr p q [] h = refl
keep-congr p q (a ∷ t) h = ground (arith, keep-congr p q t)

purge_table-expired :
    (now : ℤ) (e : BlackWhiteListEntry) (view t : Table)
    → leb_ℤ e.expiration now ≡ true
    → purge_table now (e ∷ view) t ≡ purge_table now view (erase_key e.key t)
unfolding purge_table
purge_table-expired now e view t h = ground arith

purge_table-live :
    (now : ℤ) (e : BlackWhiteListEntry) (view t : Table)
    → leb_ℤ e.expiration now ≡ false
    → purge_table now (e ∷ view) t ≡ t
unfolding purge_table
purge_table-live now e view t h = ground arith

purge_table-keep :
    (now : ℤ) (view t : Table)
    → IsByTime view
    → purge_table now view t ≡ keep (λ e. not (expired_key now e.key view)) t
unfolding expired_key erase_key
purge_table-keep now [] t h = unfold purge_table in sym (keep-true _ t (λ a. refl))
purge_table-keep now (e ∷ view) t h = elim (Bool-cases (leb_ℤ e.expiration now)) [
  | inl x ↦
      purge_table-expired now e view t x
      ∙ purge_table-keep now view (erase_key e.key t) h.1
      ∙ keep-keep (λ f. not (expired_key now f.key view)) (λ f. not (str_eq f.key e.key))
          (λ f. not (expired_key now f.key (e ∷ view))) t
          (λ f. ground (arith, str_eq_iff f.key e.key, str_eq_iff e.key f.key))
  | inr x ↦
      purge_table-live now e view t x
      ∙ sym (
          keep-true (λ f. not (expired_key now f.key (e ∷ view))) t
            (λ f. ground (arith, expired_key_of_later now f.key e view)))
]

expired_key_absent :
    (now : ℤ) (k : Str) (t : Table) → count_key k t ≡ 0 → expired_key now k t ≡ false
unfolding expired_key count_key
expired_key_absent now k [] h = refl
expired_key_absent now k (e ∷ t) h = ground (arith, expired_key_absent now k t)

others_differ : (k : Str) (t : Table) → count_key k t ≡ 0 → All (λ f. str_eq k f.key ≡ false) t
unfolding count_key
others_differ k [] h = tt
others_differ k (e ∷ t) h =
    ground (arith, str_eq_iff k e.key, str_eq_iff e.key k, others_differ k t)

All-behind :
    (now : ℤ) (e : BlackWhiteListEntry) (t u : Table)
    → All (λ f. str_eq e.key f.key ≡ false) u
    → All (λ f. expired_key now f.key t ≡ leb_ℤ f.expiration now) u
    → All (λ f. expired_key now f.key (e ∷ t) ≡ leb_ℤ f.expiration now) u
unfolding expired_key
All-behind now e t [] h k = tt
All-behind now e t (f ∷ u) h k = (rw h.0 (ground arith), All-behind now e t u h.1 k.1)

-- With distinct keys an entry's key has expired exactly when the entry has.
expired_key-own :
    (now : ℤ) (t : Table)
    → HasDistinctKeys t
    → All (λ f. expired_key now f.key t ≡ leb_ℤ f.expiration now) t
unfolding expired_key count_key
expired_key-own now [] h = tt
expired_key-own now (e ∷ t) h = (
  ground (arith, h e.key, str_eq_refl e.key, expired_key_absent now e.key t),
  All-behind now e t t (others_differ e.key t (ground (arith, h e.key, str_eq_refl e.key)))
      (expired_key-own now t (λ k. omega (arith, h k))),
)

All-map {ℓ} :
    {A : Type ℓ} (P Q : A → Type 0) (t : List A) → ((a : A) → P a → Q a) → All P t → All Q t
All-map P Q [] f h = tt
All-map P Q (a ∷ t) f h = (f a h.0, All-map P Q t f h.1)

-- In a list with distinct keys the loop over the time index drops the entries that have expired,
-- and keeps all others in their order.
pub purge_table-time_index :
    (now : ℤ) (t : Table)
    → HasDistinctKeys t
    → purge_table now (time_index t) t ≡ keep (λ e. not (leb_ℤ e.expiration now)) t
purge_table-time_index now t h =
    purge_table-keep now (time_index t) t (time_index-IsByTime t)
    ∙ keep-congr (λ e. not (expired_key now e.key (time_index t)))
        (λ e. not (leb_ℤ e.expiration now)) t
        (All-map (λ f. expired_key now f.key t ≡ leb_ℤ f.expiration now)
          (λ e. not (expired_key now e.key (time_index t)) ≡ not (leb_ℤ e.expiration now)) t
          (λ e same. ap not (expired_key-time_index now e.key t ∙ same)) (expired_key-own now t h))
