-- ===== src/Blwl/Contents.antt =====
-- What the methods of wforce/blackwhitelist.cc do to the lists, whatever Redis answers.
use weakforced.Prelude.{
  ℕ, Bool, true, false, Option, none, some, List, [], ◌∷◌, if◌then◌else◌, Str, ℤ, ◌≡◌, refl, ◌∙◌,
}
use weakforced.Blwl.Redis
use weakforced.Blwl.Act.{
  BlwlType, Db, Env, Event, run_hook, Json, RedisReply, error_reply, Context, no_context, connected,
  dangling, Failure, Outcome, done, thrown, Act, ◌>>=◌, pure, throw, emit, get_db, modify, when,
  then_do, null_reply,
}
use weakforced.Blwl.Redis.{
  add_entry_log, delete_entry_log, check_setup_context, add_persist_entry, delete_persist_entry,
  set_options, count_failure, connected_to, connect_to, connect_unless, check_auth, authenticate,
  authenticate_if, store_entry, after_reply,
}
use weakforced.Blwl.Lists.{persist_if, hook_all, run_hooks, record_add, record_delete}

-- All of the state but the Redis connection.
abbrev pub lists_of : Db → Db
lists_of s = record s { redis_context = no_context }

-- The method changes nothing but the Redis connection.
pub record KeepsLists {A : Type 0} (m : Act A) : Type 0 where
  pub at : (s : Db) → lists_of (m s).0 ≡ lists_of s

pub KeepsLists-then :
    {A B : Type 0} (f : A → Act B) (s s' : Db) (es : List Event) (r : Outcome A)
    → ((a : A) → KeepsLists (f a))
    → lists_of s' ≡ lists_of s
    → lists_of (then_do r s' es f).0 ≡ lists_of s
KeepsLists-then f s s' es (done a) k h = (k a).at s' ∙ h
KeepsLists-then f s s' es (thrown e) k h = h

pub KeepsLists-bind :
    {A B : Type 0} (m : Act A) (f : A → Act B)
    → KeepsLists m
    → ((a : A) → KeepsLists (f a))
    → KeepsLists (m >>= f)
KeepsLists-bind m f h k = record {
  at = λ s. KeepsLists-then f s (m s).0 (m s).1 (m s).2 k (h.at s);
}

pub KeepsLists-pure : {A : Type 0} (a : A) → KeepsLists (pure a)
KeepsLists-pure a = record { at = λ s. refl }

KeepsLists-throw : {A : Type 0} (e : Failure) → KeepsLists (throw {A = A} e)
KeepsLists-throw e = record { at = λ s. refl }

KeepsLists-emit : (e : Event) → KeepsLists (emit e)
KeepsLists-emit e = record { at = λ s. refl }

pub KeepsLists-get_db : KeepsLists get_db
KeepsLists-get_db = record { at = λ s. refl }

KeepsLists-context :
    (f : Db → Context) → KeepsLists (modify (λ db. record db { redis_context = f db }))
KeepsLists-context f = record { at = λ s. refl }

pub KeepsLists-when : (b : Bool) (m : Act (Unit {0})) → KeepsLists m → KeepsLists (when b m)
KeepsLists-when true m h = h
KeepsLists-when false m h = KeepsLists-pure tt

KeepsLists-if :
    {A : Type 0} (b : Bool) (m n : Act A)
    → KeepsLists m
    → KeepsLists n
    → KeepsLists (if b then m else n)
KeepsLists-if true m n h k = h
KeepsLists-if false m n h k = k

ruleset keeps_rules = (
  KeepsLists-bind, KeepsLists-pure, KeepsLists-throw, KeepsLists-emit, KeepsLists-get_db,
  KeepsLists-context, KeepsLists-when, KeepsLists-if,
)

pub add_entry_log-KeepsLists :
    (env : Env) (type : BlwlType) (key : Str) (seconds : ℤ) (reason : Str)
    → KeepsLists (add_entry_log env type key seconds reason)
unfolding add_entry_log
add_entry_log-KeepsLists env type key seconds reason = record { at = λ s. refl }

pub delete_entry_log-KeepsLists :
    (type : BlwlType) (key : Str) → KeepsLists (delete_entry_log type key)
unfolding delete_entry_log
delete_entry_log-KeepsLists type key = record { at = λ s. refl }

set_options-KeepsLists : (env : Env) → KeepsLists (set_options env)
unfolding set_options
set_options-KeepsLists env = search keeps_rules

count_failure-KeepsLists : KeepsLists count_failure
unfolding count_failure
count_failure-KeepsLists = search keeps_rules

connected_to-KeepsLists : (env : Env) (c : Context) → KeepsLists (connected_to env c)
unfolding connected_to
connected_to-KeepsLists env connected = search (keeps_rules, set_options-KeepsLists)
connected_to-KeepsLists env _ = search (keeps_rules, count_failure-KeepsLists)

connect_to-KeepsLists : (env : Env) (o : Option (List Str)) → KeepsLists (connect_to env o)
unfolding connect_to
connect_to-KeepsLists env none = search (keeps_rules, count_failure-KeepsLists)
connect_to-KeepsLists env (some l) = search (keeps_rules, connected_to-KeepsLists)

ensure-KeepsLists : (env : Env) (c : Context) → KeepsLists (connect_unless env c)
unfolding connect_unless
ensure-KeepsLists env connected = search keeps_rules
ensure-KeepsLists env dangling = search keeps_rules
ensure-KeepsLists env _ = search (keeps_rules, connect_to-KeepsLists)

pub after_reply-KeepsLists : (r : RedisReply) → KeepsLists (after_reply r)
unfolding after_reply
after_reply-KeepsLists null_reply = search keeps_rules
after_reply-KeepsLists _ = search keeps_rules

check_auth-KeepsLists : (r : RedisReply) → KeepsLists (check_auth r)
unfolding check_auth
check_auth-KeepsLists error_reply = search keeps_rules
check_auth-KeepsLists _ = search keeps_rules

authenticate-KeepsLists : (env : Env) (u p : Str) → KeepsLists (authenticate env u p)
unfolding authenticate
authenticate-KeepsLists env u [] = search keeps_rules
authenticate-KeepsLists env u (c ∷ p) =
    search (keeps_rules, after_reply-KeepsLists, check_auth-KeepsLists)

authenticate_if-KeepsLists : (env : Env) (b : Bool) → KeepsLists (authenticate_if env b)
unfolding authenticate_if
authenticate_if-KeepsLists env true = search (keeps_rules, authenticate-KeepsLists)
authenticate_if-KeepsLists env false = search keeps_rules

pub check_setup_context-KeepsLists : (env : Env) → KeepsLists (check_setup_context env)
unfolding check_setup_context
check_setup_context-KeepsLists env =
    search (keeps_rules, ensure-KeepsLists, authenticate_if-KeepsLists)

store_entry-KeepsLists :
    (env : Env) (key : Str) (seconds : ℤ) (type : BlwlType) (reason : Str) (b : Bool)
    → KeepsLists (store_entry env key seconds type reason b)
unfolding store_entry
store_entry-KeepsLists env key seconds type reason true =
    search (keeps_rules, after_reply-KeepsLists)
store_entry-KeepsLists env key seconds type reason false = search keeps_rules

add_persist_entry-KeepsLists :
    (env : Env) (key : Str) (seconds : ℤ) (type : BlwlType) (reason : Str)
    → KeepsLists (add_persist_entry env key seconds type reason)
unfolding add_persist_entry
add_persist_entry-KeepsLists env key seconds type reason =
    search (keeps_rules, check_setup_context-KeepsLists, store_entry-KeepsLists) depth 9

remove_entry-KeepsLists :
    (env : Env) (key : Str) (type : BlwlType) (b : Bool)
    → KeepsLists (Redis.remove_entry env key type b)
unfolding Redis.remove_entry
remove_entry-KeepsLists env key type true = search (keeps_rules, after_reply-KeepsLists)
remove_entry-KeepsLists env key type false = search keeps_rules

delete_persist_entry-KeepsLists :
    (env : Env) (key : Str) (type : BlwlType) → KeepsLists (delete_persist_entry env key type)
unfolding delete_persist_entry
delete_persist_entry-KeepsLists env key type =
    search (keeps_rules, check_setup_context-KeepsLists, remove_entry-KeepsLists)

persist_if-KeepsLists : (b : Bool) (m : Act Bool) → KeepsLists m → KeepsLists (persist_if b m)
unfolding persist_if
persist_if-KeepsLists true m h = search keeps_rules
persist_if-KeepsLists false m h = search keeps_rules

hook_all-KeepsLists :
    (event : Str) (hooks : List (Option ℕ)) (fields : List (Str × Json))
    → KeepsLists (hook_all event hooks fields)
unfolding hook_all
hook_all-KeepsLists event [] fields = KeepsLists-pure tt
hook_all-KeepsLists event (none ∷ hooks) fields = hook_all-KeepsLists event hooks fields
hook_all-KeepsLists event (some h ∷ hooks) fields =
    KeepsLists-bind (emit (run_hook event h fields)) (λ _. hook_all event hooks fields)
      (KeepsLists-emit (run_hook event h fields)) (λ _. hook_all-KeepsLists event hooks fields)

pub run_hooks-KeepsLists :
    (env : Env) (verb : Str) (fields : List (Str × Json)) → KeepsLists (run_hooks env verb fields)
unfolding run_hooks
run_hooks-KeepsLists env verb fields = search (keeps_rules, hook_all-KeepsLists)

-- Logging, Redis and replication leave the lists of an addition alone, also where they throw.
pub record_add-KeepsLists :
    (env : Env) (key : Str) (seconds : ℤ) (type : BlwlType) (reason : Str) (replicated : Bool)
    → KeepsLists (record_add env key seconds type reason replicated)
unfolding record_add
record_add-KeepsLists env key seconds type reason replicated =
    search
      (keeps_rules, add_entry_log-KeepsLists, persist_if-KeepsLists, add_persist_entry-KeepsLists)
      depth 9

pub record_delete-KeepsLists :
    (env : Env) (key : Str) (type : BlwlType) (replicated : Bool)
    → KeepsLists (record_delete env key type replicated)
unfolding record_delete
record_delete-KeepsLists env key type replicated =
    search
      (
        keeps_rules, delete_entry_log-KeepsLists, persist_if-KeepsLists,
        delete_persist_entry-KeepsLists,
      )
      depth 9
