-- ===== src/Blwl/Redis.antt =====
-- The Redis store behind the lists: checkSetupContext, addPersistEntry and deletePersistEntry of
-- wforce/blackwhitelist.cc, with the names of the lists and the texts that are logged.
use weakforced.Prelude.{
  ℕ, ◌+◌, ◌==◌, get_elem?, Bool, true, false, not, Option, none, some, List, [], ◌∷◌, ◌++◌, Str,
  str, str_eq, ℤ, ◌+ℤ◌, if◌then◌else◌,
}
use weakforced.Blwl.Act.{
  BlwlType, ip_blwl, login_blwl, ip_login_blwl, ja3_blwl, ip_ja3_blwl, none_blwl, BlwlDbType,
  blacklist, whitelist, notice, redis, prometheus, Context, no_context, broken, connected, dangling,
  Db, int_of, Env, RedisReply, null_reply, error_reply, other_reply, string_reply, wforce_exception,
  use_after_free, Act, ◌>>=◌, ◌>>◌, pure, throw, emit, get_db, modify,
}

-- `key_names`, in the order of the numbers of the types.
abbrev pub key_names : List Str
key_names = str "ip" ∷ str "login" ∷ str "ip_login" ∷ str "ja3" ∷ str "ip_ja3" ∷ []

-- The number of a type, and the conversion of a number to a type.
unfoldable pub type_number : BlwlType → ℕ
type_number ip_blwl = 0
type_number login_blwl = 1
type_number ip_login_blwl = 2
type_number ja3_blwl = 3
type_number ip_ja3_blwl = 4
type_number none_blwl = 999

unfoldable pub type_of_number : ℕ → BlwlType
type_of_number i =
    if i == 0
    then ip_blwl
    else if i == 1
    then login_blwl
    else if i == 2
    then ip_login_blwl
    else if i == 3
    then ja3_blwl
    else if i == 4
    then ip_ja3_blwl
    else none_blwl

-- The loop over the names, from number `i`.
unfoldable pub name_to_type_in : ℕ → Str → List Str → BlwlType
unfolding type_of_number
name_to_type_in i name [] = none_blwl
name_to_type_in i name (key_name ∷ rest) =
    let others = name_to_type_in (i + 1) name rest in
    if str_eq name key_name then type_of_number i else others

unfoldable pub blwl_name_to_type : Str → BlwlType
blwl_name_to_type name = name_to_type_in 0 name key_names

-- The name at a number, and the empty text behind the last.
unfoldable pub name_at : ℕ → List Str → Str
name_at i names = elim (get_elem? names i) [ none ↦ [] | some name ↦ name ]

unfoldable pub blwl_type_to_name : BlwlType → Str
unfolding name_at type_number
blwl_type_to_name type = name_at (type_number type) key_names

-- `list_names`, which no caller reads at NONE_BLWL.
abbrev pub list_names : BlwlDbType → List Str
list_names blacklist =
    str "ip_bl" ∷ str "login_bl" ∷ str "ip_login_bl" ∷ str "ja3_bl" ∷ str "ip_ja3_bl" ∷ []
list_names whitelist =
    str "ip_wl" ∷ str "login_wl" ∷ str "ip_login_wl" ∷ str "ja3_wl" ∷ str "ip_ja3_wl" ∷ []

unfoldable pub list_name : BlwlDbType → BlwlType → Str
unfolding name_at type_number
list_name db_type type = name_at (type_number type) (list_names db_type)

-- The bytes before the first NUL, which are what a `%s` of a command takes from a text.
unfoldable pub c_str : Str → Str
c_str [] = []
c_str (b ∷ s) = let rest = c_str s in if b == 0 then [] else b ∷ rest

unfoldable pub redis_prefix : BlwlDbType → Str
redis_prefix blacklist = str "wfbl"
redis_prefix whitelist = str "wfwl"

unfoldable pub by_type : BlwlDbType → Str → Str → Str
by_type blacklist bl wl = bl
by_type whitelist bl wl = wl

-- addEntryLog
unfoldable pub add_entry_log : Env → BlwlType → Str → ℤ → Str → Act (Unit {0})
add_entry_log env type key seconds reason = do
  db ← get_db
  emit (
      notice (
        by_type db.db_type (str "addBLEntry") (str "addWLEntry")
        ++ str " "
        ++ list_name db.db_type type
        ++ str ": "
        ++ blwl_type_to_name type
        ++ str "="
        ++ key
        ++ str " expire_secs="
        ++ env.show seconds
        ++ str " reason=\""
        ++ reason
        ++ str "\""))

-- deleteEntryLog, and expireEntryLog, which logs the same text.
unfoldable pub delete_entry_log : BlwlType → Str → Act (Unit {0})
delete_entry_log type key = do
  db ← get_db
  emit (
      notice (
        by_type db.db_type (str "deleteBLEntry") (str "deleteWLEntry")
        ++ str " "
        ++ list_name db.db_type type
        ++ str ": "
        ++ blwl_type_to_name type
        ++ str "="
        ++ key))

-- The loop over the addresses: the context of the first that connects, or no context.
unfoldable pub try_addresses : (Str → Context) → List Str → Context
try_addresses connect [] = no_context
try_addresses connect (a ∷ rest) = elim (connect a) [
  | connected ↦ connected
  | _ ↦ try_addresses connect rest
]

unfoldable pub count_failure : Act (Unit {0})
count_failure = do
  db ← get_db
  emit (prometheus (by_type db.db_type (str "redis_bl_conn_failed") (str "redis_wl_conn_failed")) 1)

-- The options that are set on a new connection.
unfoldable pub set_options : Env → Act (Unit {0})
set_options env =
    if not env.set_timeout_ok
    then throw wforce_exception
    else if not env.keep_alive_ok
    then throw wforce_exception
    else pure tt

-- The pointer after redisFree, which is called unless it is null; it is not reset.
unfoldable pub freed : Context → Context
freed no_context = no_context
freed _ = dangling

-- What follows the attempts to connect.
unfoldable pub connected_to : Env → Context → Act Bool
connected_to env connected = do set_options env; pure true
connected_to env _ = do count_failure; pure false

-- The attempt to connect to the addresses of the server, if there are any.
unfoldable pub connect_to : Env → Option (List Str) → Act Bool
connect_to env none = do
  modify (λ db. record db { redis_context = freed db.redis_context })
  count_failure
  pure false
connect_to env (some addresses) = do
  modify (λ db. record db { redis_context = try_addresses env.connect addresses })
  connected_to env (try_addresses env.connect addresses)

-- The first part of checkSetupContext: a connection in good order is kept.
unfoldable pub connect_unless : Env → Context → Act Bool
connect_unless env connected = pure true
connect_unless env dangling = throw use_after_free
connect_unless env _ = connect_to env env.getaddrinfo

-- A command without a reply leaves the context in error.
unfoldable pub after_reply : RedisReply → Act (Unit {0})
after_reply null_reply = modify (λ db. record db { redis_context = broken })
after_reply _ = pure tt

unfoldable pub auth_command : Str → Str → List Str
unfolding c_str
auth_command [] password = str "AUTH" ∷ c_str password ∷ []
auth_command (c ∷ username) password = str "AUTH" ∷ c_str (c ∷ username) ∷ c_str password ∷ []

unfoldable pub check_auth : RedisReply → Act Bool
check_auth error_reply = throw wforce_exception
check_auth _ = pure true

-- The second part, for a password.
unfoldable pub authenticate : Env → Str → Str → Act Bool
authenticate env username [] = pure true
authenticate env username (c ∷ password) = do
  emit (redis (auth_command username (c ∷ password)))
  after_reply env.auth_reply
  check_auth env.auth_reply

unfoldable pub authenticate_if : Env → Bool → Act Bool
authenticate_if env false = pure false
authenticate_if env true = do db ← get_db; authenticate env db.redis_username db.redis_password

unfoldable pub check_setup_context : Env → Act Bool
check_setup_context env = do
  db ← get_db
  ready ← connect_unless env db.redis_context
  authenticate_if env ready

unfoldable pub reply_ok : RedisReply → Bool
reply_ok null_reply = false
reply_ok error_reply = false
reply_ok other_reply = true
reply_ok (string_reply _) = true

unfoldable pub redis_key : BlwlDbType → BlwlType → Str → Str
redis_key db_type type key = redis_prefix db_type ++ (b':' ∷ blwl_type_to_name type ++ (b':' ∷ key))

unfoldable pub redis_value : Env → ℤ → Str → Str
redis_value env expiration reason = env.show expiration ++ (b':' ∷ reason)

unfoldable pub store_entry : Env → Str → ℤ → BlwlType → Str → Bool → Act Bool
store_entry env key seconds type reason false = pure false
store_entry env key seconds type reason true = do
  db ← get_db
  emit (
      redis (
        str "SET"
        ∷ c_str (redis_key db.db_type type key)
        ∷ redis_value env (env.now +ℤ seconds) reason
        ∷ str "EX"
        ∷ env.show (int_of seconds)
        ∷ []))
  after_reply env.command_reply
  pure (reply_ok env.command_reply)

unfoldable pub add_persist_entry : Env → Str → ℤ → BlwlType → Str → Act Bool
add_persist_entry env key seconds type reason = do
  ready ← check_setup_context env
  stored ← store_entry env key seconds type reason ready
  db ← get_db
  emit (prometheus (by_type db.db_type (str "redis_bl_updates") (str "redis_wl_updates")) 1)
  pure stored

unfoldable pub remove_entry : Env → Str → BlwlType → Bool → Act Bool
remove_entry env key type false = pure false
remove_entry env key type true = do
  db ← get_db
  emit (redis (str "DEL" ∷ c_str (redis_key db.db_type type key) ∷ []))
  after_reply env.command_reply
  pure (reply_ok env.command_reply)

unfoldable pub delete_persist_entry : Env → Str → BlwlType → Act Bool
delete_persist_entry env key type = do
  ready ← check_setup_context env
  remove_entry env key type ready

-- makePersistent and persistReplicated
unfoldable pub make_persistent : Str → ℕ → Db → Db
make_persistent host port db = record db { persist = true; redis_server = host; redis_port = port }

unfoldable pub enable_persist_replicated : Db → Db
enable_persist_replicated db = record db { persist_replicated = true }
