-- ===== src/Replication/Peers.antt =====
-- The siblings keep distinct addresses, the queue of a sibling, and the texts of protocols
-- (wforce/wforce-sibling.cc, wforce/wforce-sibling.hh).
use weakforced.Prelude.{
  Bool, true, false, Option, none, some, List, [], ◌∷◌, ◌++◌, Str, if◌then◌else◌, All, ◌≡◌, refl,
  sym, subst, arith, Bool-cases, Option-cases, inl, inr,
}
use weakforced.Net.Address.{ComboAddress, address_eq}
use weakforced.Replication.Sibling.{
  Protocol, udp, tcp, none_protocol, Sibling, new_sibling, check_ignore_self,
}
use weakforced.Replication.Siblings.{
  Names, Limits, parse_sibling_string, sibling_address_port_exists, remove_first, remove_sibling,
  add_made, make_sibling, add_sibling_with_key, read_rows, make_rows, set_siblings_with_key,
}

-- No sibling in the list is at the address and port.
abbrev pub IsAbsent : ComboAddress → List Sibling → Type 0
IsAbsent ca siblings = All (λ s. address_eq s.rem ca ≡ false) siblings

-- No two siblings have one address and port.
abbrev pub HasDistinct : List Sibling → Type 0
HasDistinct [] = Unit
HasDistinct (s ∷ siblings) =
    All (λ t. address_eq s.rem t.rem ≡ false) siblings × HasDistinct siblings

exists-IsAbsent :
    (ca : ComboAddress) (siblings : List Sibling)
    → sibling_address_port_exists ca siblings ≡ false
    → IsAbsent ca siblings
unfolding sibling_address_port_exists
exists-IsAbsent ca [] h = tt
exists-IsAbsent ca (s ∷ siblings) h =
    (ground (arith, h), exists-IsAbsent ca siblings (ground (arith, h)))

All-append_one :
    (P : Sibling → Type 0) (siblings : List Sibling) (s : Sibling)
    → All P siblings
    → P s
    → All P (siblings ++ s ∷ [])
All-append_one P [] s a h = (h, tt)
All-append_one P (t ∷ siblings) s a h = (a.0, All-append_one P siblings s a.1 h)

append_one-HasDistinct :
    (siblings : List Sibling) (s : Sibling)
    → IsAbsent s.rem siblings
    → HasDistinct siblings
    → HasDistinct (siblings ++ s ∷ [])
append_one-HasDistinct [] s a h = (tt, tt)
append_one-HasDistinct (t ∷ siblings) s a h =
    (All-append_one _ siblings s h.0 a.0, append_one-HasDistinct siblings s a.1 h.1)

add_made-HasDistinct :
    (s : Sibling) (siblings : List Sibling)
    → HasDistinct siblings
    → HasDistinct (add_made s siblings).0
unfolding add_made
add_made-HasDistinct s siblings h = elim (Bool-cases (sibling_address_port_exists s.rem siblings)) [
  | inl there ↦ rw (add_made, there) h
  | inr new ↦
      rw (add_made, new) (append_one-HasDistinct siblings s (exists-IsAbsent s.rem siblings new) h)
]

remove_first-All :
    (P : Sibling → Type 0) (ca : ComboAddress) (siblings : List Sibling)
    → All P siblings
    → All P (remove_first ca siblings).0
unfolding remove_first
remove_first-All P ca [] a = tt
remove_first-All P ca (s ∷ siblings) a = elim (Bool-cases (address_eq s.rem ca)) [
  | inl same ↦ rw same a.1
  | inr other ↦ rw other (a.0, remove_first-All P ca siblings a.1)
]

remove_first-HasDistinct :
    (ca : ComboAddress) (siblings : List Sibling)
    → HasDistinct siblings
    → HasDistinct (remove_first ca siblings).0
unfolding remove_first
remove_first-HasDistinct ca [] h = tt
remove_first-HasDistinct ca (s ∷ siblings) h = elim (Bool-cases (address_eq s.rem ca)) [
  | inl same ↦ rw same h.1
  | inr other ↦
      rw other (remove_first-All _ ca siblings h.0, remove_first-HasDistinct ca siblings h.1)
]

rem-check_ignore_self :
    (local : Option ComboAddress) (s : Sibling) → (check_ignore_self local s).rem ≡ s.rem
unfolding check_ignore_self
rem-check_ignore_self none s = refl
rem-check_ignore_self (some a) s =
    elim s.proto
      as (λ p.
        (elim p as (λ _. Sibling) [
          | none_protocol ↦ s
          | _ ↦ if address_eq a s.rem then record s { d_ignoreself = true } else s
        ]).rem
        ≡ s.rem) [
          | none_protocol ↦ refl
          | udp ↦ rem-if (address_eq a s.rem) s
          | tcp ↦ rem-if (address_eq a s.rem) s
        ]
  where
    rem-if :
        (b : Bool) (s : Sibling) → (if b then record s { d_ignoreself = true } else s).rem ≡ s.rem
    rem-if true s = refl
    rem-if false s = refl

rem-make_sibling :
    (r : Names) (limits : Limits) (ca : ComboAddress) (p : Protocol) (key : Str) (a b : Bool)
    → (make_sibling r limits ca p key a b).rem ≡ ca
unfolding make_sibling new_sibling
rem-make_sibling r limits ca p key a b = rem-check_ignore_self (r.local_address ca) _

module _ (r : Names) (limits : Limits) where
  make_rows-HasDistinct :
      (rows : List (ComboAddress × Protocol × Str × Bool × Bool)) (v : List Sibling)
      → HasDistinct v
      → HasDistinct (make_rows r limits rows v)
  unfolding make_rows
  make_rows-HasDistinct [] v h = h
  make_rows-HasDistinct ((ca, p, key, a, b) ∷ rows) v h =
      elim (Bool-cases (sibling_address_port_exists ca v)) [
        | inl there ↦ rw there (make_rows-HasDistinct rows v h)
        | inr new ↦ rw new (
            make_rows-HasDistinct rows (v ++ make_sibling r limits ca p key a b ∷ []) (
              append_one-HasDistinct v (make_sibling r limits ca p key a b)
                (subst (λ x. IsAbsent x v) (sym (rem-make_sibling r limits ca p key a b))
                  (exists-IsAbsent ca v new))
                h))
      ]

  -- The lists of siblings that the calls make, whatever they return.
  pub data ReachableSiblings : List Sibling → Type 0 where
    no_siblings : ReachableSiblings []
    added :
        (address key : Str) (send_sdb send_wlbl : Bool) (siblings : List Sibling)
        → ReachableSiblings siblings
        → ReachableSiblings
            (add_sibling_with_key r limits address key send_sdb send_wlbl siblings).0
    removed :
        (address : Str) (siblings : List Sibling)
        → ReachableSiblings siblings
        → ReachableSiblings (remove_sibling r address siblings).0
    replaced :
        (parts : List (List Str)) (siblings : List Sibling)
        → ReachableSiblings siblings
        → ReachableSiblings (set_siblings_with_key r limits parts siblings).0

  -- However siblings are added, removed and replaced as a whole, no two have one address and port.
  pub ReachableSiblings-HasDistinct :
      (siblings : List Sibling) → ReachableSiblings siblings → HasDistinct siblings
  unfolding add_sibling_with_key remove_sibling set_siblings_with_key
  ReachableSiblings-HasDistinct _ no_siblings = tt
  ReachableSiblings-HasDistinct _ (added address key a b siblings h) =
      elim (Option-cases (r.b64_decode key)) [
        | inl bad ↦ rw (add_sibling_with_key, bad) (ReachableSiblings-HasDistinct siblings h)
        | inr (raw, good) ↦ elim (Option-cases (parse_sibling_string r address)) [
          | inl bad ↦
              rw (add_sibling_with_key, good, bad) (ReachableSiblings-HasDistinct siblings h)
          | inr ((ca, p), parsed) ↦
              rw (add_sibling_with_key, good, parsed)
                (add_made-HasDistinct (make_sibling r limits ca p raw a b) siblings
                  (ReachableSiblings-HasDistinct siblings h))
        ]
      ]
  ReachableSiblings-HasDistinct _ (removed address siblings h) =
      elim (Option-cases (parse_sibling_string r address)) [
        | inl bad ↦ rw (remove_sibling, bad) (ReachableSiblings-HasDistinct siblings h)
        | inr ((ca, p), parsed) ↦
            rw (remove_sibling, parsed)
              (remove_first-HasDistinct ca siblings (ReachableSiblings-HasDistinct siblings h))
      ]
  ReachableSiblings-HasDistinct _ (replaced parts siblings h) =
      elim (Option-cases (read_rows r parts)) [
        | inl bad ↦ rw (set_siblings_with_key, bad) (ReachableSiblings-HasDistinct siblings h)
        | inr (rows, good) ↦ rw (set_siblings_with_key, good) (make_rows-HasDistinct rows [] tt)
      ]
