-- ===== src/Blwl/Act.antt =====
-- The state of BlackWhiteListDB (wforce/blackwhitelist.hh), what it sends out, and the monad of its
-- methods: a method changes the state, emits events in order, and returns or throws. The locks are
-- not modelled: each method holds the write lock while it changes the state.
use weakforced.Prelude.{
  ℕ, ◌-◌, ◌%◌, ◌^◌, Bool, true, false, Option, List, [], ◌∷◌, ◌++◌, Str, ℤ, pos, negsuc, ltb,
  if◌then◌else◌,
}
use weakforced.Misc.{Resolver}
use weakforced.Net.Group.{NetmaskGroup, empty_group, MaskError}
use weakforced.Blwl.Table.{Table}

pub data BlwlType : Type 0 where
  ip_blwl login_blwl ip_login_blwl ja3_blwl ip_ja3_blwl none_blwl : BlwlType

pub data BlwlDbType : Type 0 where
  blacklist whitelist : BlwlDbType

pub data OpType : Type 0 where
  op_none op_add op_delete : OpType

-- The fields of a BLReplicationOperation or WLReplicationOperation; `ttl` is a uint32.
pub record ReplicationOp : Type 0 where
  pub op : OpType
  pub list_type : BlwlType
  pub key : Str
  pub ttl : ℕ
  pub reason : Str

-- The conversions of a time_t to uint32_t and to int, on its last 32 bits.
unfoldable pub uint32_of : ℤ → ℕ
uint32_of (pos n) = n % 2 ^ 32
uint32_of (negsuc n) = 2 ^ 32 - 1 - n % 2 ^ 32

unfoldable pub int_of : ℤ → ℤ
unfolding uint32_of
int_of z = let u = uint32_of z in if ltb u (2 ^ 31) then pos u else negsuc (2 ^ 32 - 1 - u)

pub data Json : Type 0 where
  text : Str → Json
  number : ℤ → Json

pub data Event : Type 0 where
  notice : Str → Event
  redis : List Str → Event
  replicate : BlwlDbType → ReplicationOp → Event
  run_hook : Str → ℕ → List (Str × Json) → Event
  prometheus : Str → ℕ → Event

-- The redis_context pointer: null, in error, connected, or pointing to memory that was freed.
pub data Context : Type 0 where
  no_context broken connected dangling : Context

pub record Db : Type 0 where
  pub ip_list : Table
  pub login_list : Table
  pub ip_login_list : Table
  pub ja3_list : Table
  pub ip_ja3_list : Table
  pub iplist_netmask : NetmaskGroup
  pub db_type : BlwlDbType
  pub persist : Bool
  pub persist_replicated : Bool
  pub redis_server : Str
  pub redis_port : ℕ
  pub redis_username : Str
  pub redis_password : Str
  pub redis_context : Context

-- The constructor.
unfoldable pub new_db : BlwlDbType → Db
new_db type = record {
  ip_list = [];
  login_list = [];
  ip_login_list = [];
  ja3_list = [];
  ip_ja3_list = [];
  iplist_netmask = empty_group;
  db_type = type;
  persist = false;
  persist_replicated = false;
  redis_server = [];
  redis_port = 6379;
  redis_username = [];
  redis_password = [];
  redis_context = no_context;
}

pub data RedisReply : Type 0 where
  null_reply error_reply other_reply : RedisReply
  string_reply : Str → RedisReply

-- What one call of a method meets outside: the clock, the registered hooks for an event (`none` for
-- a hook that is gone), libc, and the Redis server as hiredis presents it.
pub record Env : Type 0 where
  pub now : ℤ
  pub hooks : Str → List (Option ℕ)
  pub resolver : Resolver
  pub stoi : Str → Option ℤ
  pub show : ℤ → Str
  pub getaddrinfo : Option (List Str)
  pub connect : Str → Context
  pub set_timeout_ok : Bool
  pub keep_alive_ok : Bool
  pub auth_reply : RedisReply
  pub command_reply : RedisReply

-- An exception; or undefined behaviour, where the model stops: the context is used after it was freed,
-- or a bit outside an address is read.
pub data Failure : Type 0 where
  wforce_exception bad_number use_after_free outside_bits : Failure
  netmask_exception : MaskError → Failure

pub data Outcome {ℓ} (A : Type ℓ) : Type ℓ where
  done : A → Outcome A
  thrown : Failure → Outcome A

abbrev pub Act : Type 0 → Type 0
Act A = Db → Db × List Event × Outcome A

abbrev pub then_do :
    {A B : Type 0} → Outcome A → Db → List Event → (A → Act B) → Db × List Event × Outcome B
then_do (done a) s es f = let (s', es', r) = f a s in (s', es ++ es', r)
then_do (thrown e) s es f = (s, es, thrown e)

infixl 5 ◌>>=◌ ◌>>◌
abbrev pub ◌>>=◌ : {A B : Type 0} → Act A → (A → Act B) → Act B
◌>>=◌ m f s = let (s', es, r) = m s in then_do r s' es f

abbrev pub ◌>>◌ : {B : Type 0} → Act (Unit {0}) → Act B → Act B
m >> k = m >>= λ _. k

abbrev pub pure : {A : Type 0} → A → Act A
pure a s = (s, [], done a)

abbrev pub throw : {A : Type 0} → Failure → Act A
throw e s = (s, [], thrown e)

abbrev pub emit : Event → Act (Unit {0})
emit e s = (s, e ∷ [], done tt)

abbrev pub get_db : Act Db
get_db s = (s, [], done s)

abbrev pub modify : (Db → Db) → Act (Unit {0})
modify f s = (f s, [], done tt)

abbrev pub when : Bool → Act (Unit {0}) → Act (Unit {0})
when true m = m
when false m = pure tt
