-- ===== src/Blwl/Distinct.antt =====
-- What additions, deletions and purges of wforce/blackwhitelist.cc do to the keys of the lists.
use weakforced.Prelude.{
  Bool, true, false, List, [], ◌∷◌, if◌then◌else◌, is_some, Str, ℤ, ◌≡◌, ◌∙◌, sym, ap, Bool-cases,
  inl, inr, leb_ℤ,
}
use weakforced.Blwl.Table.{
  Table, BlackWhiteListEntry, find_key, erase_key, time_index, add_entry, delete_entry,
}
use weakforced.Blwl.Keys.{HasDistinctKeys, add_entry-HasDistinctKeys, erase_key-HasDistinctKeys}
use weakforced.Blwl.Act.{
  BlwlType, ip_blwl, login_blwl, ip_login_blwl, ja3_blwl, ip_ja3_blwl, Db, Env, Event, Outcome,
  done, thrown, Act, ◌>>=◌, ◌>>◌, pure, get_db, then_do,
}
use weakforced.Blwl.Redis.{delete_entry_log}
use weakforced.Blwl.Lists.{
  table_of, with_table, unmask, expire_entry, expire_fields, run_hooks, purge_loop, purge_entries,
}
use weakforced.Blwl.Contents.{
  lists_of, KeepsLists, run_hooks-KeepsLists, delete_entry_log-KeepsLists,
}
use weakforced.Blwl.Changes.{table_of-lists_of, added}
use weakforced.Blwl.Deletes.{deleted}
use weakforced.Blwl.Purge.{KeepsTables, unmask-KeepsTables}

-- No list has two entries with a key.
abbrev pub HasKeys : Db → Type 0
HasKeys s = (type : BlwlType) → HasDistinctKeys (table_of type s)

-- The method, whether it returns or throws, leaves the keys of every list distinct.
pub record KeepsKeys {A : Type 0} (m : Act A) : Type 0 where
  pub at : (s : Db) → HasKeys s → HasKeys (m s).0

pub HasKeys-same :
    (s s' : Db) → ((type : BlwlType) → table_of type s' ≡ table_of type s) → HasKeys s → HasKeys s'
HasKeys-same s s' e h type = rw (e type) (h type)

pub HasKeys-lists_of : (s s' : Db) → lists_of s' ≡ lists_of s → HasKeys s → HasKeys s'
HasKeys-lists_of s s' e =
    HasKeys-same s s'
      λ type. sym (table_of-lists_of type s') ∙ ap (table_of type) e ∙ table_of-lists_of type s

pub KeepsKeys-of_lists : {A : Type 0} (m : Act A) → KeepsLists m → KeepsKeys m
KeepsKeys-of_lists m k = record { at = λ s. HasKeys-lists_of s (m s).0 (k.at s) }

pub KeepsKeys-of_tables : {A : Type 0} (m : Act A) → KeepsTables m → KeepsKeys m
KeepsKeys-of_tables m k = record { at = λ s. HasKeys-same s (m s).0 (k.at s) }

KeepsKeys-then :
    {A B : Type 0} (f : A → Act B) (s' : Db) (es : List Event) (r : Outcome A)
    → ((a : A) → KeepsKeys (f a))
    → HasKeys s'
    → HasKeys (then_do r s' es f).0
KeepsKeys-then f s' es (done a) k h = (k a).at s' h
KeepsKeys-then f s' es (thrown x) k h = h

pub KeepsKeys-bind :
    {A B : Type 0} (m : Act A) (f : A → Act B)
    → KeepsKeys m
    → ((a : A) → KeepsKeys (f a))
    → KeepsKeys (m >>= f)
KeepsKeys-bind m f h k = record {
  at = λ s d. KeepsKeys-then f (m s).0 (m s).1 (m s).2 k (h.at s d);
}

pub KeepsKeys-get_db : KeepsKeys get_db
KeepsKeys-get_db = record { at = λ s h. h }

pub KeepsKeys-pure : {A : Type 0} (a : A) → KeepsKeys (pure a)
KeepsKeys-pure a = record { at = λ s h. h }

pub with_table-HasKeys :
    (type : BlwlType) (t : Table) (s : Db)
    → HasDistinctKeys t
    → HasKeys s
    → HasKeys (with_table type t s)
unfolding with_table table_of
with_table-HasKeys ip_blwl t s d h ip_blwl = d
with_table-HasKeys login_blwl t s d h login_blwl = d
with_table-HasKeys ip_login_blwl t s d h ip_login_blwl = d
with_table-HasKeys ja3_blwl t s d h ja3_blwl = d
with_table-HasKeys ip_ja3_blwl t s d h ip_ja3_blwl = d
with_table-HasKeys type t s d h other = h other

expire_entry-KeepsKeys :
    (env : Env) (type : BlwlType) (e : BlackWhiteListEntry) → KeepsKeys (expire_entry env type e)
unfolding expire_entry
expire_entry-KeepsKeys env type e = KeepsKeys-bind get_db _ KeepsKeys-get_db λ db.
    KeepsKeys-bind (run_hooks env _ (expire_fields db e.key type)) _
      (KeepsKeys-of_lists _ (run_hooks-KeepsLists env _ (expire_fields db e.key type)))
      λ _.
        KeepsKeys-bind (delete_entry_log type e.key) _
          (KeepsKeys-of_lists _ (delete_entry_log-KeepsLists type e.key))
          λ _.
            KeepsKeys-bind (unmask env e.key type) _
              (KeepsKeys-of_tables _ (unmask-KeepsTables env e.key type))
              λ _. record {
                at = λ s h.
                    with_table-HasKeys type (erase_key e.key (table_of type s)) s
                      (erase_key-HasDistinctKeys e.key (table_of type s) (h type)) h;
              }

if-KeepsKeys :
    (b : Bool) (m n : Act (Unit {0})) → KeepsKeys m → KeepsKeys n → KeepsKeys (if b then m else n)
if-KeepsKeys true m n h k = h
if-KeepsKeys false m n h k = k

purge_loop-KeepsKeys :
    (env : Env) (type : BlwlType) (view : Table) → KeepsKeys (purge_loop env type view)
unfolding purge_loop
purge_loop-KeepsKeys env type [] = KeepsKeys-pure tt
purge_loop-KeepsKeys env type (e ∷ view) =
    if-KeepsKeys (leb_ℤ e.expiration env.now) (expire_entry env type e >> purge_loop env type view)
      (pure tt)
      (KeepsKeys-bind (expire_entry env type e) _ (expire_entry-KeepsKeys env type e)
        (λ _. purge_loop-KeepsKeys env type view))
      (KeepsKeys-pure tt)

pub purge_entries-KeepsKeys : (env : Env) (type : BlwlType) → KeepsKeys (purge_entries env type)
unfolding purge_entries
purge_entries-KeepsKeys env type =
    KeepsKeys-bind get_db _ KeepsKeys-get_db
      (λ db. purge_loop-KeepsKeys env type (time_index (table_of type db)))

delete_entry-HasDistinctKeys :
    (key : Str) (t : Table) → HasDistinctKeys t → HasDistinctKeys (delete_entry key t).0
unfolding delete_entry
delete_entry-HasDistinctKeys key t h = elim (Bool-cases (is_some (find_key key t))) [
  | inl found ↦ rw found (erase_key-HasDistinctKeys key t h)
  | inr missing ↦ rw missing h
]

pub added-HasKeys :
    (env : Env) (key : Str) (seconds : ℤ) (type : BlwlType) (reason : Str) (s : Db)
    → HasKeys s
    → HasKeys (added env key seconds type reason s)
unfolding added with_table table_of
added-HasKeys env key seconds ip_blwl reason s h ip_blwl =
    add_entry-HasDistinctKeys env.now key seconds reason s.ip_list (h ip_blwl)
added-HasKeys env key seconds ip_blwl reason s h other = h other
added-HasKeys env key seconds type reason s h other =
    with_table-HasKeys type (add_entry env.now key seconds reason (table_of type s)) s
      (add_entry-HasDistinctKeys env.now key seconds reason (table_of type s) (h type)) h other

pub deleted-HasKeys :
    (env : Env) (key : Str) (type : BlwlType) (s : Db)
    → HasKeys s
    → HasKeys (deleted env key type s)
unfolding deleted with_table table_of
deleted-HasKeys env key ip_blwl s h ip_blwl = delete_entry-HasDistinctKeys key s.ip_list (h ip_blwl)
deleted-HasKeys env key ip_blwl s h other = h other
deleted-HasKeys env key type s h other =
    with_table-HasKeys type (delete_entry key (table_of type s)).0 s
      (delete_entry-HasDistinctKeys key (table_of type s) (h type)) h other
