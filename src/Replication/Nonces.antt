-- ===== src/Replication/Nonces.antt =====
-- The nonces of the packets that a sender encrypts (common/sodcrypto.hh, common/sodcrypto.cc, and
-- encryptMsg of wforce/wforce-replication.cc).
use weakforced.Prelude.{ℕ, zero, suc}
use weakforced.Replication.Crypto.{Nonce, increment}

-- The nonce after a number of messages.
unfoldable nonce_after : ℕ → Nonce → Nonce
nonce_after zero nonce = nonce
nonce_after (suc n) nonce = increment (nonce_after n nonce)
