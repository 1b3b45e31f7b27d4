-- ===== src/Blwl/Quiet.antt =====
-- The messages to siblings and hooks: no part of the Redis store of wforce/blackwhitelist.cc sends any.
use weakforced.Prelude.{
  ℕ, Bool, true, false, Option, none, some, List, [], ◌∷◌, ◌++◌, All, Str, ℤ, ◌≡◌, refl,
  if◌then◌else◌,
}
use weakforced.Blwl.Act.{
  BlwlType, Event, notice, redis, replicate, run_hook, prometheus, Db, Env, Context, connected,
  dangling, RedisReply, error_reply, Failure, Outcome, done, thrown, Act, ◌>>=◌, pure, throw, emit,
  get_db, modify, then_do, null_reply,
}
use weakforced.Blwl.Redis
use weakforced.Blwl.Redis.{
  add_entry_log, delete_entry_log, check_setup_context, add_persist_entry, delete_persist_entry,
  set_options, count_failure, connected_to, connect_to, connect_unless, check_auth, authenticate,
  authenticate_if, store_entry, after_reply,
}

-- A message to the siblings, or a call of a hook.
abbrev pub is_outbound : Event → Bool
is_outbound (replicate t op) = true
is_outbound (run_hook e h fields) = true
is_outbound _ = false

-- The method sends nothing out, whether it returns or throws.
pub record IsQuiet {A : Type 0} (m : Act A) : Type 0 where
  pub at : (s : Db) → All (λ e. is_outbound e ≡ false) (m s).1

All-append {ℓ} :
    {A : Type ℓ} (P : A → Type 0) (xs ys : List A) → All P xs → All P ys → All P (xs ++ ys)
All-append P [] ys h k = k
All-append P (x ∷ xs) ys h k = (h.0, All-append P xs ys h.1 k)

pub IsQuiet-then :
    {A B : Type 0} (f : A → Act B) (s' : Db) (es : List Event) (r : Outcome A)
    → ((a : A) → IsQuiet (f a))
    → All (λ e. is_outbound e ≡ false) es
    → All (λ e. is_outbound e ≡ false) (then_do r s' es f).1
IsQuiet-then f s' es (done a) k h =
    All-append (λ e. is_outbound e ≡ false) es (f a s').1 h ((k a).at s')
IsQuiet-then f s' es (thrown e) k h = h

pub IsQuiet-bind :
    {A B : Type 0} (m : Act A) (f : A → Act B)
    → IsQuiet m
    → ((a : A) → IsQuiet (f a))
    → IsQuiet (m >>= f)
IsQuiet-bind m f h k = record { at = λ s. IsQuiet-then f (m s).0 (m s).1 (m s).2 k (h.at s) }

pub IsQuiet-pure : {A : Type 0} (a : A) → IsQuiet (pure a)
IsQuiet-pure a = record { at = λ s. tt }

pub IsQuiet-throw : {A : Type 0} (e : Failure) → IsQuiet (throw {A = A} e)
IsQuiet-throw e = record { at = λ s. tt }

pub IsQuiet-get_db : IsQuiet get_db
IsQuiet-get_db = record { at = λ s. tt }

pub IsQuiet-modify : (f : Db → Db) → IsQuiet (modify f)
IsQuiet-modify f = record { at = λ s. tt }

pub IsQuiet-notice : (t : Str) → IsQuiet (emit (notice t))
IsQuiet-notice t = record { at = λ s. (refl, tt) }

pub IsQuiet-redis : (t : List Str) → IsQuiet (emit (redis t))
IsQuiet-redis t = record { at = λ s. (refl, tt) }

pub IsQuiet-prometheus : (t : Str) (n : ℕ) → IsQuiet (emit (prometheus t n))
IsQuiet-prometheus t n = record { at = λ s. (refl, tt) }

pub IsQuiet-if :
    {A : Type 0} (b : Bool) (m n : Act A) → IsQuiet m → IsQuiet n → IsQuiet (if b then m else n)
IsQuiet-if true m n h k = h
IsQuiet-if false m n h k = k

pub ruleset quiet_rules = (
  IsQuiet-bind, IsQuiet-pure, IsQuiet-throw, IsQuiet-get_db, IsQuiet-modify, IsQuiet-notice,
  IsQuiet-redis, IsQuiet-prometheus, IsQuiet-if,
)

set_options-IsQuiet : (env : Env) → IsQuiet (set_options env)
unfolding set_options
set_options-IsQuiet env = search quiet_rules

count_failure-IsQuiet : IsQuiet count_failure
unfolding count_failure
count_failure-IsQuiet = search quiet_rules

connected_to-IsQuiet : (env : Env) (c : Context) → IsQuiet (connected_to env c)
unfolding connected_to
connected_to-IsQuiet env connected = search (quiet_rules, set_options-IsQuiet)
connected_to-IsQuiet env _ = search (quiet_rules, count_failure-IsQuiet)

connect_to-IsQuiet : (env : Env) (o : Option (List Str)) → IsQuiet (connect_to env o)
unfolding connect_to
connect_to-IsQuiet env none = search (quiet_rules, count_failure-IsQuiet)
connect_to-IsQuiet env (some l) = search (quiet_rules, connected_to-IsQuiet)

connect_unless-IsQuiet : (env : Env) (c : Context) → IsQuiet (connect_unless env c)
unfolding connect_unless
connect_unless-IsQuiet env connected = search quiet_rules
connect_unless-IsQuiet env dangling = search quiet_rules
connect_unless-IsQuiet env _ = search (quiet_rules, connect_to-IsQuiet)

after_reply-IsQuiet : (r : RedisReply) → IsQuiet (after_reply r)
unfolding after_reply
after_reply-IsQuiet null_reply = search quiet_rules
after_reply-IsQuiet _ = search quiet_rules

check_auth-IsQuiet : (r : RedisReply) → IsQuiet (check_auth r)
unfolding check_auth
check_auth-IsQuiet error_reply = search quiet_rules
check_auth-IsQuiet _ = search quiet_rules

authenticate-IsQuiet : (env : Env) (u p : Str) → IsQuiet (authenticate env u p)
unfolding authenticate
authenticate-IsQuiet env u [] = search quiet_rules
authenticate-IsQuiet env u (c ∷ p) = search (quiet_rules, after_reply-IsQuiet, check_auth-IsQuiet)

authenticate_if-IsQuiet : (env : Env) (b : Bool) → IsQuiet (authenticate_if env b)
unfolding authenticate_if
authenticate_if-IsQuiet env true = search (quiet_rules, authenticate-IsQuiet)
authenticate_if-IsQuiet env false = search quiet_rules

check_setup_context-IsQuiet : (env : Env) → IsQuiet (check_setup_context env)
unfolding check_setup_context
check_setup_context-IsQuiet env =
    search (quiet_rules, connect_unless-IsQuiet, authenticate_if-IsQuiet)

store_entry-IsQuiet :
    (env : Env) (key : Str) (seconds : ℤ) (type : BlwlType) (reason : Str) (b : Bool)
    → IsQuiet (store_entry env key seconds type reason b)
unfolding store_entry
store_entry-IsQuiet env key seconds type reason true = search (quiet_rules, after_reply-IsQuiet)
store_entry-IsQuiet env key seconds type reason false = search quiet_rules

pub add_persist_entry-IsQuiet :
    (env : Env) (key : Str) (seconds : ℤ) (type : BlwlType) (reason : Str)
    → IsQuiet (add_persist_entry env key seconds type reason)
unfolding add_persist_entry
add_persist_entry-IsQuiet env key seconds type reason =
    search (quiet_rules, check_setup_context-IsQuiet, store_entry-IsQuiet) depth 9

remove_entry-IsQuiet :
    (env : Env) (key : Str) (type : BlwlType) (b : Bool)
    → IsQuiet (Redis.remove_entry env key type b)
unfolding Redis.remove_entry
remove_entry-IsQuiet env key type true = search (quiet_rules, after_reply-IsQuiet)
remove_entry-IsQuiet env key type false = search quiet_rules

pub delete_persist_entry-IsQuiet :
    (env : Env) (key : Str) (type : BlwlType) → IsQuiet (delete_persist_entry env key type)
unfolding delete_persist_entry
delete_persist_entry-IsQuiet env key type =
    search (quiet_rules, check_setup_context-IsQuiet, remove_entry-IsQuiet)
