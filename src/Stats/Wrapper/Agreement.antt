-- ===== src/Stats/Wrapper/Agreement.antt =====
-- A sibling that applies what a method of the wrapper replicates makes the same change
-- (wforce/twmap-wrapper.cc, wforce/replication_sdb.cc).
use weakforced.Prelude.{
  ℕ, zero, suc, Bool, true, Option, none, some, List, [], ◌∷◌, Str, ◌⊎◌, inl, inr, if◌then◌else◌,
  get_elem?, set, ◌≡◌, refl, sym, ap, ◌∙◌, subst, arith, Option-cases,
}
use weakforced.Stats.Member.{Sketches}
use weakforced.Stats.Entry.{Clock, Outcome, done, invalid_argument, undefined}
use weakforced.Stats.Db.{StatsDb}
use weakforced.Stats.Wrapper.{
  Host, Variant, a_string, an_int, an_address, sdb_op_add, sdb_op_sub, sdb_op_reset,
  sdb_op_reset_field, SdbOperation, Wrapper, Ran, op_key, op_field, op_params, get_string_key,
  get_shard_index, after_shard, on_shard, if_replicated, add_key_internal, with_key, add_internal,
  sub_key_internal, sub_internal, reset_internal, reset_field_internal,
}
use weakforced.Stats.Wrapper.Operation.{apply_to}

-- A method of the wrapper that is replicated.
pub data Change : Type 0 where
  change_add : Variant → Str → Variant → Option ℕ → Change
  change_sub : Variant → Str → (Str ⊎ ℕ) → Change
  change_reset : Variant → Change
  change_reset_field : Variant → Str → Change

set-get_elem? :
    {A : Type 0} (xs : List A) (i : ℕ) (x : A) → get_elem? xs i ≡ some x → set xs i x ≡ xs
set-get_elem? [] i x e = refl
set-get_elem? (y ∷ ys) zero x e = ground (arith, e)
set-get_elem? (y ∷ ys) (suc i) x e = ap (λ (zs : List _). y ∷ zs) (set-get_elem? ys i x e)

module _ {k : Sketches} where
  unfoldable pub change : Host → Clock → Change → Wrapper k → Ran k
  change h c (change_add vkey field param1 param2) = add_internal h c vkey field param1 param2 true
  change h c (change_sub vkey field v) = sub_internal h c vkey field v true
  change h c (change_reset vkey) = reset_internal h vkey true
  change h c (change_reset_field vkey field) = reset_field_internal h vkey field true

  -- What a sibling does with the operations that it receives, in order.
  unfoldable pub apply_all : Host → Clock → List SdbOperation → Wrapper k → Ran k
  apply_all h c [] w = done (w, [])
  apply_all h c (op ∷ ops) w = elim (apply_to h c op.op_type op w) [
    | done (w', _) ↦ apply_all h c ops w'
    | invalid_argument r ↦ invalid_argument r
    | undefined ↦ undefined
  ]

  after_shard-ops :
      (i : ℕ) (r : Outcome (StatsDb k)) (ops ops' ops'' : List SdbOperation) (w w' : Wrapper k)
      → after_shard i r ops w ≡ done (w', ops'')
      → (ops'' ≡ ops) × (after_shard i r ops' w ≡ done (w', ops'))
  unfolding after_shard
  after_shard-ops i (done s) ops ops' ops'' w w' e = (ground (arith, e), ground (arith, e))
  after_shard-ops i (invalid_argument s) ops ops' ops'' w w' e = absurd (ground (arith, e))
  after_shard-ops i undefined ops ops' ops'' w w' e = absurd (ground (arith, e))

  on_shard-ops :
      (h : Host) (key : Str) (f : StatsDb k → Outcome (StatsDb k))
      (ops ops' ops'' : List SdbOperation) (w w' : Wrapper k)
      → on_shard h key f ops w ≡ done (w', ops'')
      → (ops'' ≡ ops) × (on_shard h key f ops' w ≡ done (w', ops'))
  unfolding on_shard
  on_shard-ops h key f ops ops' ops'' w w' e = elim (Option-cases (get_shard_index h key w)) [
    | inl n ↦ absurd (ground (arith, e, n))
    | inr (i, n) ↦ elim (Option-cases (get_elem? w.sdbvp i)) [
      | inl m ↦ absurd (ground (arith, e, n, m))
      | inr (s, m) ↦
          let (a, b) = after_shard-ops i (f s) ops ops' ops'' w w' (ground (arith, e, n, m)) in
          (a, rw (on_shard, n, m) b)
    ]
  ]

  -- The method that does nothing to its shard leaves the wrapper.
  on_shard-same :
      (h : Host) (key : Str) (ops : List SdbOperation) (w w' : Wrapper k)
      → on_shard h key (λ s. done s) [] w ≡ done (w', ops)
      → (ops ≡ []) × (w ≡ w')
  unfolding on_shard after_shard
  on_shard-same h key ops w w' e = elim (Option-cases (get_shard_index h key w)) [
    | inl n ↦ absurd (ground (arith, e, n))
    | inr (i, n) ↦ elim (Option-cases (get_elem? w.sdbvp i)) [
      | inl m ↦ absurd (ground (arith, e, n, m))
      | inr (s, m) ↦ (
        ground (arith, e, n, m),
        sym (ap (λ (l : List (StatsDb k)). record w { sdbvp = l }) (set-get_elem? w.sdbvp i s m))
            ∙ ground (arith, e, n, m),
      )
    ]
  ]

  apply_all-one :
      (h : Host) (c : Clock) (op : SdbOperation) (w w' : Wrapper k) (ops : List SdbOperation)
      → apply_to h c op.op_type op w ≡ done (w', ops)
      → apply_all h c (op ∷ []) w ≡ done (w', [])
  unfolding apply_all
  apply_all-one h c op w w' ops e = rw (apply_all, e) refl

  -- One operation, of which the sibling makes the same call on the shard.
  agree :
      (h : Host) (c : Clock) (key : Str) (f : StatsDb k → Outcome (StatsDb k)) (op : SdbOperation)
      (ops : List SdbOperation) (w w' : Wrapper k)
      → w.replicated ≡ true
      → on_shard h key f (if_replicated true op w) w ≡ done (w', ops)
      → apply_to h c op.op_type op w ≡ on_shard h key f [] w
      → apply_all h c ops w ≡ done (w', [])
  unfolding if_replicated
  agree h c key f op ops w w' on e same =
      let (sent, again) = on_shard-ops h key f (if_replicated true op w) [] ops w w' e in
      subst (λ l. apply_all h c l w ≡ done (w', []))
        (sym (sent ∙ ap (λ (b : Bool). if b then op ∷ [] else []) on))
        (apply_all-one h c op w w' [] (same ∙ again))

  agree_add :
      (h : Host) (c : Clock) (key field : Str) (param1 : Variant) (param2 : Option ℕ)
      (ops : List SdbOperation) (w w' : Wrapper k)
      → w.replicated ≡ true
      → add_key_internal h c key field param1 param2 true w ≡ done (w', ops)
      → apply_all h c ops w ≡ done (w', [])
  unfolding apply_all add_key_internal apply_to op_params add_internal with_key get_string_key
      if_replicated
  agree_add h c key field (an_int i) (some a) ops w w' on e =
      let (sent, same) = on_shard-same h key ops w w' e in
      subst (λ l. apply_all h c l w ≡ done (w', [])) (sym sent)
        (ap (λ (v : Wrapper k). done (v, [])) same)
  agree_add h c key field (an_int i) none ops w w' on e =
      agree h c key _ (op_params w.db_name sdb_op_add key field none (some i)) ops w w' on e refl
  agree_add h c key field (a_string v) none ops w w' on e =
      agree h c key _ (op_params w.db_name sdb_op_add key field (some v) none) ops w w' on e refl
  agree_add h c key field (a_string v) (some a) ops w w' on e =
      agree h c key _ (op_params w.db_name sdb_op_add key field (some v) (some a)) ops w w' on e
        refl
  agree_add h c key field (an_address ca) none ops w w' on e =
      agree h c key _ (op_params w.db_name sdb_op_add key field _ none) ops w w' on e refl
  agree_add h c key field (an_address ca) (some a) ops w w' on e =
      agree h c key _ (op_params w.db_name sdb_op_add key field _ (some a)) ops w w' on e refl

  agree_sub :
      (h : Host) (c : Clock) (key field : Str) (v : Str ⊎ ℕ) (ops : List SdbOperation)
      (w w' : Wrapper k)
      → w.replicated ≡ true
      → sub_key_internal h c key field v true w ≡ done (w', ops)
      → apply_all h c ops w ≡ done (w', [])
  unfolding sub_key_internal apply_to op_params sub_internal with_key get_string_key if_replicated
  agree_sub h c key field (inl s) ops w w' on e =
      agree h c key _ (op_params w.db_name sdb_op_sub key field (some s) none) ops w w' on e refl
  agree_sub h c key field (inr i) ops w w' on e =
      agree h c key _ (op_params w.db_name sdb_op_sub key field none (some i)) ops w w' on e refl

  with_key-done :
      (key : Option Str) (f : Str → Ran k) (w w' : Wrapper k) (ops : List SdbOperation)
      → with_key key f w ≡ done (w', ops)
      → (key' : Str) × (f key' ≡ done (w', ops))
  unfolding with_key
  with_key-done none f w w' ops e = absurd (ground (arith, e))
  with_key-done (some key) f w w' ops e = (key, e)

  -- When a wrapper that replicates makes a change and returns, a sibling whose wrapper was in the same
  -- state, and that reads the same clock, is in the same state again once it has applied what was sent.
  pub apply_all-change :
      (h : Host) (c : Clock) (ch : Change) (ops : List SdbOperation) (w w' : Wrapper k)
      → w.replicated ≡ true
      → change h c ch w ≡ done (w', ops)
      → apply_all h c ops w ≡ done (w', [])
  unfolding change add_internal sub_internal reset_internal reset_field_internal apply_to op_key
      op_field with_key get_string_key if_replicated
  apply_all-change h c (change_add vkey field param1 param2) ops w w' on e =
      let (key, f) =
        with_key-done (get_string_key h vkey w)
          (λ key. add_key_internal h c key field param1 param2 true w) w w' ops e in
      agree_add h c key field param1 param2 ops w w' on f
  apply_all-change h c (change_sub vkey field v) ops w w' on e =
      let (key, f) =
        with_key-done (get_string_key h vkey w) (λ key. sub_key_internal h c key field v true w) w
          w' ops e in
      agree_sub h c key field v ops w w' on f
  apply_all-change h c (change_reset vkey) ops w w' on e =
      let (key, f) = with_key-done (get_string_key h vkey w) _ w w' ops e in
      agree h c key _ (op_key w.db_name sdb_op_reset key) ops w w' on f refl
  apply_all-change h c (change_reset_field vkey field) ops w w' on e =
      let (key, f) = with_key-done (get_string_key h vkey w) _ w w' ops e in
      agree h c key _ (op_field w.db_name sdb_op_reset_field key field) ops w w' on f refl
