-- ===== src/Stats/Wrapper/Queries.antt =====
-- The methods of TWStringStatsDBWrapper (wforce/twmap-wrapper.cc) that read.
use weakforced.Prelude.{ℕ, Option, none, some, List, Str, get_elem?, set, ◌⊎◌, inl, inr}
use weakforced.Misc.{address_to_string}
use weakforced.Net.Address.{ComboAddress}
use weakforced.Stats.Member.{Sketches}
use weakforced.Stats.Entry.{Clock, Outcome, done, invalid_argument, undefined}
use weakforced.Stats.Db.{StatsDb}
use weakforced.Stats.Db.Queries.{
  db_get, db_get_str, db_get_current, db_get_current_str, db_get_windows, db_get_windows_str,
  get_all_fields,
}
use weakforced.Stats.Wrapper.{Host, Variant, Wrapper, get_string_key, get_shard_index}

-- The parameter of a read: none, a text, or an address.
unfoldable pub param_text : Host → Option (Str ⊎ ComboAddress) → Option Str
param_text h none = none
param_text h (some (inl s)) = some s
param_text h (some (inr ca)) = some (address_to_string h.resolver ca)

module _ {k : Sketches} where
  after_read :
      {A : Type 0} → ℕ → Outcome (StatsDb k × A) → Wrapper k → Outcome (Wrapper k × Option A)
  after_read i (done (s, a)) w = done (record w { sdbvp = set w.sdbvp i s }, some a)
  after_read i (invalid_argument (s, a)) w =
      invalid_argument (record w { sdbvp = set w.sdbvp i s }, some a)
  after_read i undefined w = undefined

  -- A method that reads the shard of a key. The option is empty when an exception of `at` is thrown.
  unfoldable pub read_shard :
      {A : Type 0}
      → Host
      → Variant
      → (Str → StatsDb k → Outcome (StatsDb k × A))
      → Wrapper k
      → Outcome (Wrapper k × Option A)
  unfolding after_read
  read_shard h vkey f w = elim (get_string_key h vkey w) [
    | none ↦ invalid_argument (w, none)
    | some key ↦ elim (get_shard_index h key w) [
      | none ↦ undefined
      | some i ↦ elim (get_elem? w.sdbvp i) [
        | none ↦ invalid_argument (w, none)
        | some s ↦ after_read i (f key s) w
      ]
    ]
  ]

  unfoldable pub wrapper_get :
      Host
      → Clock
      → Variant
      → Str
      → Option (Str ⊎ ComboAddress)
      → Wrapper k
      → Outcome (Wrapper k × Option ℕ)
  wrapper_get h c vkey field param1 = read_shard h vkey (λ key. elim (param_text h param1) [
    | none ↦ db_get c key field
    | some v ↦ db_get_str c key field v
  ])

  unfoldable pub wrapper_get_current :
      Host
      → Clock
      → Variant
      → Str
      → Option (Str ⊎ ComboAddress)
      → Wrapper k
      → Outcome (Wrapper k × Option ℕ)
  wrapper_get_current h c vkey field param1 = read_shard h vkey (λ key. elim (param_text h param1) [
    | none ↦ db_get_current c key field
    | some v ↦ db_get_current_str c key field v
  ])

  -- The list is empty where the inner option is.
  unfoldable pub wrapper_get_windows :
      Host
      → Clock
      → Variant
      → Str
      → Option (Str ⊎ ComboAddress)
      → Wrapper k
      → Outcome (Wrapper k × Option (Option (List ℕ)))
  wrapper_get_windows h c vkey field param1 = read_shard h vkey (λ key. elim (param_text h param1) [
    | none ↦ db_get_windows c key field
    | some v ↦ db_get_windows_str c key field v
  ])

  unfoldable pub wrapper_get_all_fields :
      Host
      → (Str → Clock)
      → Variant
      → Wrapper k
      → Outcome (Wrapper k × Option (Option (List (Str × ℕ))))
  wrapper_get_all_fields h clocks vkey = read_shard h vkey (λ key. get_all_fields clocks key)
