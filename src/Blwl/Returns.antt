-- ===== src/Blwl/Returns.antt =====
-- The loop of `_purgeEntries` (wforce/blackwhitelist.cc) on a list that no netmask group goes with.
use weakforced.Prelude.{
  Bool, true, false, Option, none, some, List, [], ◌∷◌, if◌then◌else◌, Str, leb_ℤ, ◌≡◌, ◌≢◌, refl,
  ℕ,
}
use weakforced.Blwl.Table.{Table, BlackWhiteListEntry}
use weakforced.Blwl.Act.{
  BlwlType, ip_blwl, Db, Env, Event, Outcome, done, thrown, Act, ◌>>=◌, ◌>>◌, pure, emit, run_hook,
  Json, get_db, modify, then_do,
}
use weakforced.Blwl.Redis.{delete_entry_log}
use weakforced.Blwl.Lists.{unmask, expire_entry, expire_fields, hook_all, run_hooks, purge_loop}

-- The method throws from no state.
pub record NeverThrows {A : Type 0} (m : Act A) : Type 0 where
  pub at : (s : Db) → (a : A) × ((m s).2 ≡ done a)

NeverThrows-then :
    {A B : Type 0} (f : A → Act B) (s' : Db) (es : List Event) (r : Outcome A)
    → ((a : A) → NeverThrows (f a))
    → (a : A) × (r ≡ done a)
    → (b : B) × ((then_do r s' es f).2 ≡ done b)
NeverThrows-then f s' es (done a) k h = (k a).at s'
NeverThrows-then f s' es (thrown x) k (a, h) = absurd (cc)

NeverThrows-bind :
    {A B : Type 0} (m : Act A) (f : A → Act B)
    → NeverThrows m
    → ((a : A) → NeverThrows (f a))
    → NeverThrows (m >>= f)
NeverThrows-bind m f h k = record {
  at = λ s. NeverThrows-then f (m s).0 (m s).1 (m s).2 k (h.at s);
}

NeverThrows-modify : (f : Db → Db) → NeverThrows (modify f)
NeverThrows-modify f = record { at = λ s. (tt, refl) }

NeverThrows-emit : (e : Event) → NeverThrows (emit e)
NeverThrows-emit e = record { at = λ s. (tt, refl) }

NeverThrows-get_db : NeverThrows get_db
NeverThrows-get_db = record { at = λ s. (s, refl) }

hook_all-NeverThrows :
    (event : Str) (hooks : List (Option ℕ)) (fields : List (Str × Json))
    → NeverThrows (hook_all event hooks fields)
unfolding hook_all
hook_all-NeverThrows event [] fields = record { at = λ s. (tt, refl) }
hook_all-NeverThrows event (none ∷ hooks) fields = hook_all-NeverThrows event hooks fields
hook_all-NeverThrows event (some h ∷ hooks) fields =
    NeverThrows-bind (emit (run_hook event h fields)) (λ _. hook_all event hooks fields)
      (NeverThrows-emit (run_hook event h fields)) (λ _. hook_all-NeverThrows event hooks fields)

ruleset never_rules = (NeverThrows-bind, NeverThrows-modify, NeverThrows-emit, NeverThrows-get_db)

run_hooks-NeverThrows :
    (env : Env) (verb : Str) (fields : List (Str × Json)) → NeverThrows (run_hooks env verb fields)
unfolding run_hooks
run_hooks-NeverThrows env verb fields = search (never_rules, hook_all-NeverThrows)

delete_entry_log-NeverThrows :
    (type : BlwlType) (key : Str) → NeverThrows (delete_entry_log type key)
unfolding delete_entry_log
delete_entry_log-NeverThrows type key = search never_rules

unmask-NeverThrows :
    (env : Env) (key : Str) (type : BlwlType) → type ≢ ip_blwl → NeverThrows (unmask env key type)
unfolding unmask
unmask-NeverThrows env key ip_blwl h = absurd (h refl)
unmask-NeverThrows env key _ h = record { at = λ s. (tt, refl) }

expire_entry-NeverThrows :
    (env : Env) (type : BlwlType) (e : BlackWhiteListEntry)
    → type ≢ ip_blwl
    → NeverThrows (expire_entry env type e)
unfolding expire_entry
expire_entry-NeverThrows env type e h = NeverThrows-bind get_db _ NeverThrows-get_db λ db.
    NeverThrows-bind (run_hooks env _ (expire_fields db e.key type)) _
      (run_hooks-NeverThrows env _ (expire_fields db e.key type))
      λ _.
        NeverThrows-bind (delete_entry_log type e.key) _ (delete_entry_log-NeverThrows type e.key)
          λ _.
            NeverThrows-bind (unmask env e.key type) _ (unmask-NeverThrows env e.key type h)
              λ _. NeverThrows-modify _

loop-NeverThrows :
    (b : Bool) (first rest : Act (Unit {0}))
    → NeverThrows first
    → NeverThrows rest
    → NeverThrows (if b then (first >> rest) else pure tt)
loop-NeverThrows true first rest h k = NeverThrows-bind first (λ _. rest) h (λ _. k)
loop-NeverThrows false first rest h k = record { at = λ s. (tt, refl) }

pub purge_loop-NeverThrows :
    (env : Env) (type : BlwlType) (view : Table)
    → type ≢ ip_blwl
    → NeverThrows (purge_loop env type view)
unfolding purge_loop
purge_loop-NeverThrows env type [] h = record { at = λ s. (tt, refl) }
purge_loop-NeverThrows env type (e ∷ view) h =
    loop-NeverThrows (leb_ℤ e.expiration env.now) (expire_entry env type e)
      (purge_loop env type view) (expire_entry-NeverThrows env type e h)
      (purge_loop-NeverThrows env type view h)

pub unit_done : (r : Outcome (Unit {0})) → (a : Unit {0}) × (r ≡ done a) → r ≡ done tt
unit_done r (tt, h) = h
