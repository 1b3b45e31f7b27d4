-- ===== src/Blwl/Reload.antt =====
-- Reading an entry back from Redis (wforce/blackwhitelist.cc): the texts that addPersistEntry writes
-- are taken apart by loadPersistEntries.
use weakforced.Prelude.{
  ℕ, suc, ◌+◌, Bool, true, false, not, ◌&&◌, some, [], ◌∷◌, ◌++◌, take, drop, length, ◌==◌, Str,
  str_eq, ℤ, ◌≡◌, ◌⊎◌, refl, arith, ◌∙◌, ap,
}
use weakforced.Misc.{find, split_field}
use weakforced.Blwl.Act.{
  BlwlType, ip_blwl, login_blwl, ip_login_blwl, ja3_blwl, ip_ja3_blwl, BlwlDbType, blacklist,
  whitelist, Db, Env, done, Act,
}
use weakforced.Blwl.Redis.{
  blwl_name_to_type, name_to_type_in, blwl_type_to_name, redis_prefix, redis_key, redis_value,
  c_str, name_at, type_number, type_of_number,
}
use weakforced.Blwl.Load.{load_pair, load_number, restore_typed}

-- The character does not occur.
abbrev pub lacks : ℕ → Str → Bool
lacks c [] = true
lacks c (a ∷ s) = not (a == c) && lacks c s

find-lacks : (c : ℕ) (s rest : Str) → lacks c s ≡ true → find c (s ++ (c ∷ rest)) ≡ some (length s)
unfolding find
find-lacks c [] rest h = ground arith
find-lacks c (a ∷ s) rest h = ground (arith, find-lacks c s rest)

take-length : (s t : Str) → take (length s) (s ++ t) ≡ s
take-length [] t = refl
take-length (a ∷ s) t = ap (◌∷◌ a) (take-length s t)

drop-length : (c : ℕ) (s t : Str) → drop (length s + 1) (s ++ (c ∷ t)) ≡ t
drop-length c [] t = refl
drop-length c (a ∷ s) t =
    let more : suc (length s) + 1 ≡ suc (length s + 1) = omega arith in rw more (drop-length c s t)

-- A text without the separator, the separator and a rest are taken apart into the two.
pub split_field-append :
    (c : ℕ) (s rest : Str) → lacks c s ≡ true → split_field (s ++ (c ∷ rest)) c ≡ (s, rest)
unfolding split_field
split_field-append c s rest h =
    rw (find-lacks c s rest h, split_field)
      (ground (arith, take-length s (c ∷ rest), drop-length c s rest))

-- Every type of a list has a name that is read back as the type.
blwl_name_to_type-blwl_type_to_name :
    (type : BlwlType) → blwl_name_to_type (blwl_type_to_name type) ≡ type
unfolding blwl_name_to_type blwl_type_to_name name_to_type_in str_eq name_at type_number
    type_of_number
blwl_name_to_type-blwl_type_to_name ip_blwl = refl
blwl_name_to_type-blwl_type_to_name _ = refl

name-lacks : (type : BlwlType) → lacks b':' (blwl_type_to_name type) ≡ true
unfolding blwl_type_to_name name_at type_number
name-lacks ip_blwl = refl
name-lacks _ = refl

-- The bytes of a text before its first NUL, behind a text that has none.
c_str-append : (s t : Str) → lacks 0 s ≡ true → c_str (s ++ t) ≡ s ++ c_str t
unfolding c_str
c_str-append [] t h = refl
c_str-append (b ∷ s) t h = ground (arith, c_str-append s t)

name-has_no_nul : (type : BlwlType) → lacks 0 (blwl_type_to_name type) ≡ true
unfolding blwl_type_to_name name_at type_number
name-has_no_nul ip_blwl = refl
name-has_no_nul _ = refl

prefix-has_no_nul : (t : BlwlDbType) → lacks 0 (redis_prefix t) ≡ true
unfolding redis_prefix
prefix-has_no_nul blacklist = refl
prefix-has_no_nul whitelist = refl

-- The key that Redis gets has the key of the entry up to its first NUL.
c_str-redis_key :
    (t : BlwlDbType) (type : BlwlType) (key : Str)
    → c_str (redis_key t type key) ≡ redis_key t type (c_str key)
unfolding redis_key c_str
c_str-redis_key t type key =
    c_str-append (redis_prefix t) (b':' ∷ blwl_type_to_name type ++ (b':' ∷ key))
      (prefix-has_no_nul t)
    ∙ ap (λ (s : Str). redis_prefix t ++ (b':' ∷ s))
        (c_str-append (blwl_type_to_name type) (b':' ∷ key) (name-has_no_nul type))

prefix-lacks : (t : BlwlDbType) → lacks b':' (redis_prefix t) ≡ true
unfolding redis_prefix
prefix-lacks blacklist = refl
prefix-lacks whitelist = refl

load_pair-parts :
    (env : Env) (t : BlwlDbType) (type : BlwlType) (key : Str) (expiration : ℤ) (reason : Str)
    → lacks b':' (env.show expiration) ≡ true
    → env.stoi (env.show expiration) ≡ some expiration
    → load_pair env (redis_key t type key) (redis_value env expiration reason)
      ≡ restore_typed env type key expiration reason
unfolding load_pair redis_key redis_value load_number
load_pair-parts env t type key expiration reason h r =
    rw
      (
        split_field-append b':' (env.show expiration) reason h,
        split_field-append b':' (redis_prefix t) (blwl_type_to_name type ++ (b':' ∷ key))
            (prefix-lacks t),
        split_field-append b':' (blwl_type_to_name type) key (name-lacks type),
        r,
        blwl_name_to_type-blwl_type_to_name type,
      )
      refl

-- A pair as addPersistEntry sends it is read back as the type, the key up to its first NUL, the
-- expiration and the reason, where the number is printed without a colon and read back by stoi.
pub load_pair-redis_key :
    (env : Env) (t : BlwlDbType) (type : BlwlType) (key : Str) (expiration : ℤ) (reason : Str)
    → lacks b':' (env.show expiration) ≡ true
    → env.stoi (env.show expiration) ≡ some expiration
    → load_pair env (c_str (redis_key t type key)) (redis_value env expiration reason)
      ≡ restore_typed env type (c_str key) expiration reason
load_pair-redis_key env t type key expiration reason h r =
    ap (λ (k : Str). load_pair env k (redis_value env expiration reason))
      (c_str-redis_key t type key)
    ∙ load_pair-parts env t type (c_str key) expiration reason h r

-- The lists of JA3 hashes are written to Redis and refused when they are read back: the load of
-- such a pair gives false, and leaves the lists as they are.
pub load_pair-ja3 :
    (env : Env) (t : BlwlDbType) (type : BlwlType) (key : Str) (expiration : ℤ) (reason : Str)
    (s : Db)
    → (type ≡ ja3_blwl) ⊎ (type ≡ ip_ja3_blwl)
    → lacks b':' (env.show expiration) ≡ true
    → env.stoi (env.show expiration) ≡ some expiration
    → load_pair env (c_str (redis_key t type key)) (redis_value env expiration reason) s
      ≡ (s, [], done false)
unfolding restore_typed
load_pair-ja3 env t type key expiration reason s w h r =
    ap (λ (m : Act Bool). m s) (load_pair-redis_key env t type key expiration reason h r)
    ∙ refused type w
  where
    refused :
        (type : BlwlType)
        → (type ≡ ja3_blwl) ⊎ (type ≡ ip_ja3_blwl)
        → restore_typed env type (c_str key) expiration reason s ≡ (s, [], done false)
    refused ip_blwl w = absurd (ground arith)
    refused login_blwl w = absurd (ground arith)
    refused ip_login_blwl w = absurd (ground arith)
    refused _ w = refl
