-- ===== src/Blwl/Purge.antt =====
-- A round of `_purgeEntries` of wforce/blackwhitelist.cc, with its hooks, logs and the netmask group.
use weakforced.Prelude.{
  Bool, true, false, not, List, [], ◌∷◌, keep, if◌then◌else◌, Str, leb_ℤ, ◌≡◌, ◌≢◌, refl, ◌∙◌, sym,
  ap,
}
use weakforced.Net.Group.{Result, ok, fail, outside_address, delete_mask, NetmaskGroup}
use weakforced.Blwl.Table.{Table, BlackWhiteListEntry, erase_key, time_index}
use weakforced.Blwl.Keys.{HasDistinctKeys}
use weakforced.Blwl.Expiry.{purge_table, purge_table-time_index}
use weakforced.Blwl.Act.{
  BlwlType, ip_blwl, none_blwl, Db, Env, Event, Outcome, done, thrown, Act, ◌>>=◌, ◌>>◌, pure,
  get_db, modify, then_do,
}
use weakforced.Blwl.Redis.{delete_entry_log}
use weakforced.Blwl.Lists.{
  table_of, with_table, set_group, unmask, expire_entry, expire_fields, run_hooks, purge_loop,
  purge_entries,
}
use weakforced.Blwl.Contents.{
  KeepsLists, run_hooks-KeepsLists, delete_entry_log-KeepsLists, KeepsLists-get_db,
}
use weakforced.Blwl.Returns.{unit_done, purge_loop-NeverThrows}
use weakforced.Blwl.Changes.{table_of-lists_of}

-- The method changes no list.
pub record KeepsTables {A : Type 0} (m : Act A) : Type 0 where
  pub at : (s : Db) (type : BlwlType) → table_of type (m s).0 ≡ table_of type s

KeepsTables-of : {A : Type 0} (m : Act A) → KeepsLists m → KeepsTables m
KeepsTables-of m k = record {
  at = λ s type.
      sym (table_of-lists_of type (m s).0) ∙ ap (table_of type) (k.at s) ∙ table_of-lists_of type s;
}

pub set_group-KeepsTables : (r : Result NetmaskGroup) → KeepsTables (set_group r)
unfolding set_group table_of
set_group-KeepsTables (ok g) = record { at = λ s. elim [ ip_blwl ↦ refl | _ ↦ refl ] }
set_group-KeepsTables (fail e) = record { at = λ s type. refl }
set_group-KeepsTables outside_address = record { at = λ s type. refl }

pub unmask-KeepsTables :
    (env : Env) (key : Str) (type : BlwlType) → KeepsTables (unmask env key type)
unfolding unmask
unmask-KeepsTables env key ip_blwl = record {
  at = λ s. (set_group-KeepsTables (delete_mask env.resolver key s.iplist_netmask)).at s;
}
unmask-KeepsTables env key _ = record { at = λ s type. refl }

-- The method, if it returns, has erased the key from the list and changed nothing else there.
record Erases (key : Str) (type : BlwlType) (m : Act (Unit {0})) : Type 0 where
  at : (s : Db) → (m s).2 ≡ done tt → table_of type (m s).0 ≡ erase_key key (table_of type s)

Erases-then :
    {A : Type 0} (key : Str) (type : BlwlType) (f : A → Act (Unit {0})) (t : Table) (s' : Db)
    (es : List Event) (r : Outcome A)
    → ((a : A) → Erases key type (f a))
    → table_of type s' ≡ t
    → (then_do r s' es f).2 ≡ done tt
    → table_of type (then_do r s' es f).0 ≡ erase_key key t
Erases-then key type f t s' es (done a) k h e = (k a).at s' e ∙ ap (erase_key key) h
Erases-then key type f t s' es (thrown x) k h e = absurd (cc)

Erases-bind :
    {A : Type 0} (key : Str) (type : BlwlType) (m : Act A) (f : A → Act (Unit {0}))
    → KeepsTables m
    → ((a : A) → Erases key type (f a))
    → Erases key type (m >>= f)
Erases-bind key type m f h k = record {
  at = λ s e. Erases-then key type f (table_of type s) (m s).0 (m s).1 (m s).2 k (h.at s type) e;
}

erase-Erases :
    (key : Str) (type : BlwlType)
    → Erases key type (modify (λ db. with_table type (erase_key key (table_of type db)) db))
unfolding with_table table_of
erase-Erases key none_blwl = record { at = λ s e. unfold erase_key in refl }
erase-Erases key ip_blwl = record { at = λ s e. refl }
erase-Erases key _ = record { at = λ s e. refl }

expire_entry-Erases :
    (env : Env) (type : BlwlType) (e : BlackWhiteListEntry)
    → Erases e.key type (expire_entry env type e)
unfolding expire_entry
expire_entry-Erases env type e =
    Erases-bind e.key type get_db _ (KeepsTables-of get_db KeepsLists-get_db) λ db.
      Erases-bind e.key type (run_hooks env _ (expire_fields db e.key type)) _
        (KeepsTables-of _ (run_hooks-KeepsLists env _ (expire_fields db e.key type)))
        λ _.
          Erases-bind e.key type (delete_entry_log type e.key) _
            (KeepsTables-of _ (delete_entry_log-KeepsLists type e.key))
            λ _.
              Erases-bind e.key type (unmask env e.key type) _ (unmask-KeepsTables env e.key type)
                λ _. erase-Erases e.key type

-- The rest of a sequence, after a first part that may have thrown.
rest_after :
    (type : BlwlType) (rest : Act (Unit {0})) (f : Table → Table) (t : Table) (s' : Db)
    (es : List Event) (r : Outcome (Unit {0}))
    → ((d : Db) → (rest d).2 ≡ done tt → table_of type (rest d).0 ≡ f (table_of type d))
    → (r ≡ done tt → table_of type s' ≡ t)
    → (then_do r s' es (λ _. rest)).2 ≡ done tt
    → table_of type (then_do r s' es (λ _. rest)).0 ≡ f t
rest_after type rest f t s' es (done tt) ih h e = ih s' e ∙ ap f (h refl)
rest_after type rest f t s' es (thrown x) ih h e = absurd (cc)

loop_step :
    (b : Bool) (type : BlwlType) (first rest : Act (Unit {0})) (f : Table → Table) (key : Str)
    (s : Db)
    → Erases key type first
    → ((d : Db) → (rest d).2 ≡ done tt → table_of type (rest d).0 ≡ f (table_of type d))
    → ((if b then (first >> rest) else pure tt) s).2 ≡ done tt
    → table_of type ((if b then (first >> rest) else pure tt) s).0
      ≡ (if b then f (erase_key key (table_of type s)) else table_of type s)
loop_step true type first rest f key s h ih e =
    rest_after type rest f (erase_key key (table_of type s)) (first s).0 (first s).1 (first s).2 ih
      (h.at s) e
loop_step false type first rest f key s h ih e = refl

-- The loop on a list, if it returns, does to that list what `purge_table` does.
purge_loop-purge_table :
    (env : Env) (type : BlwlType) (view : Table) (s : Db)
    → (purge_loop env type view s).2 ≡ done tt
    → table_of type (purge_loop env type view s).0 ≡ purge_table env.now view (table_of type s)
unfolding purge_loop purge_table
purge_loop-purge_table env type [] s h = refl
purge_loop-purge_table env type (e ∷ view) s h =
    loop_step (leb_ℤ e.expiration env.now) type (expire_entry env type e) (purge_loop env type view)
      (purge_table env.now view) e.key s (expire_entry-Erases env type e)
      (purge_loop-purge_table env type view) h

-- A purge that returns leaves in its list exactly the entries that expire after now, in their order.
pub table_of-purge_entries :
    (env : Env) (type : BlwlType) (s : Db)
    → HasDistinctKeys (table_of type s)
    → (purge_entries env type s).2 ≡ done tt
    → table_of type (purge_entries env type s).0
      ≡ keep (λ e. not (leb_ℤ e.expiration env.now)) (table_of type s)
unfolding purge_entries
table_of-purge_entries env type s d h =
    purge_loop-purge_table env type (time_index (table_of type s)) s h
    ∙ purge_table-time_index env.now (table_of type s) d

-- A purge of a list other than that of addresses always returns, and leaves in its list exactly the
-- entries that expire after now, in their order. The keys of the list are distinct.
pub purge_entries-keep :
    (env : Env) (type : BlwlType) (s : Db)
    → type ≢ ip_blwl
    → HasDistinctKeys (table_of type s)
    → ((purge_entries env type s).2 ≡ done tt)
      × (table_of type (purge_entries env type s).0
          ≡ keep (λ e. not (leb_ℤ e.expiration env.now)) (table_of type s))
unfolding purge_entries
purge_entries-keep env type s h d =
    let finished =
      unit_done (purge_loop env type (time_index (table_of type s)) s).2
        ((purge_loop-NeverThrows env type (time_index (table_of type s)) h).at s) in
    (finished, table_of-purge_entries env type s d finished)
