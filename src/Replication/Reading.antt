-- ===== src/Replication/Reading.antt =====
-- Reading back what a sibling serialized (wforce/replication.cc).
use weakforced.Prelude.{
  Bool-cases, inl, inr, [], ◌++◌, str_eq, Bool, true, false, none, some, Str, ◌≡◌, refl,
}
use weakforced.Replication.Message.{
  RepType, sdb_type, blacklist_type, whitelist_type, none_type, AnyReplicationOperation,
  sdb_operation, bl_operation, wl_operation, ReplicationMsg, ReplicationOperation, Protobuf,
  any_bytes, serialize, unserialize, unserialize_typed, forward, forward_packet,
}
use weakforced.Net.Address.{ComboAddress}
use weakforced.Replication.Crypto.{Cipher, Nonce}
use weakforced.Replication.Sibling.{Sibling}
use weakforced.Replication.Transport.{Receiver, parse_tcp_replication, frame}
use weakforced.Replication.Bounds.{parse_tcp_replication-frame_empty}

-- The operation has the type that it is sent with, and protobuf reads its bytes back, as it does when
-- the numbers fit the types of the message.
abbrev pub IsReadBack : Protobuf → RepType → AnyReplicationOperation → Type 0
IsReadBack b sdb_type (sdb_operation o) = b.parse_sdb (b.sdb_bytes o) ≡ some o
IsReadBack b blacklist_type (bl_operation o) = b.parse_bl (b.bl_bytes o) ≡ some o
IsReadBack b whitelist_type (wl_operation o) = b.parse_bl (b.bl_bytes o) ≡ some o
IsReadBack b _ _ = ⊥

module _ (b : Protobuf) where
  unserialize_typed-some :
      (type : RepType) (o : AnyReplicationOperation) (forwarded : Bool) (r : ReplicationOperation)
      → IsReadBack b type o
      → unserialize_typed b type
          (record { rep_type = type; rep_op = any_bytes b o; forwarded = forwarded })
          r
        ≡ (record { forwarded = forwarded; rep_op = some o; obj_type = type }, true)
  unfolding unserialize_typed any_bytes
  unserialize_typed-some sdb_type (sdb_operation o) f r h = rw h refl
  unserialize_typed-some blacklist_type (bl_operation o) f r h = rw h refl
  unserialize_typed-some whitelist_type (wl_operation o) f r h = rw h refl
  unserialize_typed-some sdb_type (bl_operation o) f r h = absurd h
  unserialize_typed-some sdb_type (wl_operation o) f r h = absurd h
  unserialize_typed-some blacklist_type (sdb_operation o) f r h = absurd h
  unserialize_typed-some blacklist_type (wl_operation o) f r h = absurd h
  unserialize_typed-some whitelist_type (sdb_operation o) f r h = absurd h
  unserialize_typed-some whitelist_type (bl_operation o) f r h = absurd h
  unserialize_typed-some none_type o f r h = absurd h

  -- An operation that is sent with its own type is read back, whatever the receiver held before, when
  -- protobuf reads back the bytes of the operation and of its message.
  pub unserialize-serialize :
      (type : RepType) (o : AnyReplicationOperation) (forwarded : Bool) (r : ReplicationOperation)
      → IsReadBack b type o
      → ((m : ReplicationMsg) → b.parse_msg (b.msg_bytes m) ≡ some m)
      → unserialize b
          (serialize b (record { forwarded = forwarded; rep_op = some o; obj_type = type }))
          r
        ≡ (record { forwarded = forwarded; rep_op = some o; obj_type = type }, true)
  unfolding serialize unserialize
  unserialize-serialize type o f r h whole =
      rw (unserialize, whole (record { rep_type = type; rep_op = any_bytes b o; forwarded = f }))
        (unserialize_typed-some type o f r h)

-- A text that protobuf cannot parse counts as read: replfwd then sends on an operation without
-- contents, whose text is empty.
pub forward-unparsed :
    (b : Protobuf) (s : Str)
    → b.parse_msg s ≡ none
    → (r : ReplicationOperation) × (forward b s ≡ some (r, b.partial_forwarded s))
      × (serialize b r ≡ [])
unfolding forward serialize unserialize
forward-unparsed b s bad = elim (Bool-cases (b.partial_forwarded s)) [
  | inl on ↦ (
    record { forwarded = false; rep_op = none; obj_type = none_type },
    rw (forward, unserialize, bad, on) refl,
    refl,
  )
  | inr off ↦ (
    record { forwarded = true; rep_op = none; obj_type = none_type },
    rw (forward, unserialize, bad, off) refl,
    refl,
  )
]

-- For a forwarder that has a key of its own, which is the key of the replication, the packet is empty:
-- a receiver that reads it from a connection ends there, and takes nothing that follows.
pub forward_packet-same_key :
    (e : Cipher) (d_key : Str) (d_sodnonce d_nonce : Nonce) (text : Str) (s : Sibling)
    → s.d_has_key ≡ true
    → str_eq s.d_key d_key ≡ true
    → (p : Str) × (forward_packet e d_key d_sodnonce d_nonce text s ≡ some p)
      × ((remote : ComboAddress) (rest : Str) (r : Receiver)
          → parse_tcp_replication e remote (frame p ++ rest) r ≡ r)
unfolding forward_packet
forward_packet-same_key e d_key d_sodnonce d_nonce text s has same = (
  [],
  rw (forward_packet, has, same) refl,
  λ remote rest r. parse_tcp_replication-frame_empty e remote [] rest r refl,
)
