-- ===== src/Replication/Crypto.antt =====
-- The nonce and the symmetric encryption of common/sodcrypto.hh and common/sodcrypto.cc, in the
-- variant for OpenSSL, and encryptMsg and decryptMsg of wforce/wforce-replication.cc.
use weakforced.Prelude.{
  ℕ, ◌+◌, ◌*◌, ◌/◌, ◌%◌, ◌^◌, ◌==◌, ltb, Option, none, some, [], ◌∷◌, ◌++◌, Str, if◌then◌else◌,
  length, take, drop,
}

-- ChaCha20-Poly1305, with the tag before the text: `none` where it refuses to decrypt.
pub record Cipher : Type 0 where
  pub seal : Str → Str → Str → Str
  pub unseal : Str → Str → Str → Option Str

abbrev pub nonce_size : ℕ
nonce_size = 12

abbrev pub key_size : ℕ
key_size = 32

abbrev pub tag_size : ℕ
tag_size = 16

-- SodiumNonce: its bytes.
abbrev pub Nonce : Type 0
Nonce = Str

-- The first four bytes, as a number in network order.
unfoldable pub nonce_count : Nonce → ℕ
nonce_count (a ∷ b ∷ c ∷ d ∷ rest) = ((a * 256 + b) * 256 + c) * 256 + d
nonce_count _ = 0

-- The count of 32 bits goes up by one, and wraps around.
unfoldable pub increment : Nonce → Nonce
unfolding nonce_count
increment (a ∷ b ∷ c ∷ d ∷ rest) =
    let n = (nonce_count (a ∷ b ∷ c ∷ d ∷ rest) + 1) % 2 ^ 32 in
    n / 2 ^ 24 % 256 ∷ n / 2 ^ 16 % 256 ∷ n / 2 ^ 8 % 256 ∷ n % 256 ∷ rest
increment nonce = nonce

-- `none` is std::runtime_error. A failure of OpenSSL itself is not modelled.
unfoldable pub sod_encrypt_sym : Cipher → Str → Str → Nonce → Option (Str × Nonce)
sod_encrypt_sym e msg key nonce =
    if length key == key_size then some (e.seal key nonce msg, increment nonce) else none

-- A text, std::runtime_error, or std::length_error.
pub data Decrypted : Type 0 where
  plain : Str → Decrypted
  runtime_error : Decrypted
  length_error : Decrypted

opened : Option Str → Decrypted
opened none = runtime_error
opened (some s) = plain s

-- The length less the tag is unsigned: for a message shorter than a tag the text is resized to
-- nearly 2 ^ 64 bytes.
unfoldable pub sod_decrypt_sym : Cipher → Str → Str → Nonce → Decrypted
unfolding opened
sod_decrypt_sym e msg key nonce =
    if length key == key_size
    then if ltb (length msg) tag_size
      then length_error
      else if length msg == tag_size
      then plain []
      else opened (e.unseal key nonce msg)
    else runtime_error

with_nonce : Nonce → Option (Str × Nonce) → Option (Str × Nonce)
with_nonce nonce none = none
with_nonce nonce (some (s, nonce')) = some (nonce ++ s, nonce')

-- encryptMsg and encryptMsgWithKey: the packet and the next nonce.
unfoldable pub encrypt_msg : Cipher → Str → Str → Nonce → Option (Str × Nonce)
unfolding with_nonce
encrypt_msg e msg key nonce = with_nonce nonce (sod_encrypt_sym e msg key nonce)

-- What decryptMsg does: it gives a message, returns false, or passes an exception on.
pub data Received : Type 0 where
  received : Str → Received
  refused : Received
  escaped : Received

caught : Decrypted → Received
caught (plain s) = received s
caught runtime_error = refused
caught length_error = escaped

unfoldable pub decrypt_msg : Cipher → Str → Str → Received
unfolding caught
decrypt_msg e key buf =
    if ltb (length buf) nonce_size
    then refused
    else caught (sod_decrypt_sym e (drop nonce_size buf) key (take nonce_size buf))
