-- ===== src/Replication/Message.antt =====
-- ReplicationOperation of wforce/replication.hh and wforce/replication.cc, with the bytes of protobuf
-- as a parameter, and what replfwd makes of an operation (wforce/replfwd-replication.cc).
use weakforced.Prelude.{
  ◌&&◌, Bool, true, false, not, Option, none, some, [], Str, str_eq, if◌then◌else◌,
}
use weakforced.Blwl.Act.{ReplicationOp, op_none, ip_blwl}
use weakforced.Stats.Wrapper.{SdbOperation, op_key, sdb_op_none}
use weakforced.Replication.Crypto.{Cipher, Nonce, encrypt_msg}
use weakforced.Replication.Sibling.{Sibling}

-- WforceReplicationMsg_RepType
pub data RepType : Type 0 where
  sdb_type blacklist_type whitelist_type none_type : RepType

pub data AnyReplicationOperation : Type 0 where
  sdb_operation : SdbOperation → AnyReplicationOperation
  bl_operation : ReplicationOp → AnyReplicationOperation
  wl_operation : ReplicationOp → AnyReplicationOperation

-- The message WforceReplicationMsg of replication.proto.
pub record ReplicationMsg : Type 0 where
  pub rep_type : RepType
  pub rep_op : Str
  pub forwarded : Bool

pub record ReplicationOperation : Type 0 where
  pub forwarded : Bool
  pub rep_op : Option AnyReplicationOperation
  pub obj_type : RepType

-- SerializeToString and ParseFromString of the three messages, and the flag of a message that was not
-- parsed to its end.
pub record Protobuf : Type 0 where
  pub sdb_bytes : SdbOperation → Str
  pub parse_sdb : Str → Option SdbOperation
  pub bl_bytes : ReplicationOp → Str
  pub parse_bl : Str → Option ReplicationOp
  pub msg_bytes : ReplicationMsg → Str
  pub parse_msg : Str → Option ReplicationMsg
  pub partial_forwarded : Str → Bool

unfoldable pub new_replication_operation : ReplicationOperation
new_replication_operation = record { forwarded = false; rep_op = none; obj_type = none_type }

-- The operations that their default constructors make, which do nothing.
unfoldable pub empty_sdb : SdbOperation
unfolding op_key
empty_sdb = op_key [] sdb_op_none []

unfoldable pub empty_bl : ReplicationOp
empty_bl = record { op = op_none; list_type = ip_blwl; key = []; ttl = 0; reason = [] }

unfoldable pub any_bytes : Protobuf → AnyReplicationOperation → Str
any_bytes b (sdb_operation o) = b.sdb_bytes o
any_bytes b (bl_operation o) = b.bl_bytes o
any_bytes b (wl_operation o) = b.bl_bytes o

unfoldable pub serialize : Protobuf → ReplicationOperation → Str
unfolding any_bytes
serialize b r = elim r.rep_op [
  | none ↦ []
  | some o ↦
      b.msg_bytes
        (record { rep_type = r.obj_type; rep_op = any_bytes b o; forwarded = r.forwarded })
]

read_sdb : Option SdbOperation → AnyReplicationOperation × Bool
read_sdb none = (sdb_operation empty_sdb, false)
read_sdb (some o) = (sdb_operation o, true)

read_bl :
    (ReplicationOp → AnyReplicationOperation)
    → Option ReplicationOp
    → AnyReplicationOperation × Bool
read_bl make none = (make empty_bl, false)
read_bl make (some o) = (make o, true)

with_op : RepType → Bool → AnyReplicationOperation × Bool → ReplicationOperation × Bool
with_op type forwarded (o, ok) =
    (record { forwarded = forwarded; rep_op = some o; obj_type = type }, ok)

unfoldable pub unserialize_typed :
    Protobuf → RepType → ReplicationMsg → ReplicationOperation → ReplicationOperation × Bool
unfolding read_sdb read_bl with_op
unserialize_typed b sdb_type m r = with_op sdb_type m.forwarded (read_sdb (b.parse_sdb m.rep_op))
unserialize_typed b blacklist_type m r =
    with_op blacklist_type m.forwarded (read_bl bl_operation (b.parse_bl m.rep_op))
unserialize_typed b whitelist_type m r =
    with_op whitelist_type m.forwarded (read_bl wl_operation (b.parse_bl m.rep_op))
unserialize_typed b none_type m r =
    (record r { forwarded = m.forwarded; obj_type = none_type }, false)

-- A message that cannot be parsed is logged, and the result stays true.
unfoldable pub unserialize : Protobuf → Str → ReplicationOperation → ReplicationOperation × Bool
unfolding unserialize_typed
unserialize b s r = elim (b.parse_msg s) [
  | none ↦ (record r { forwarded = b.partial_forwarded s }, true)
  | some m ↦ unserialize_typed b m.rep_type m r
]

-- What a worker of replfwd does: `none` where it counts a failure, and otherwise the operation that it
-- sends on, and whether that goes to the siblings, or to the forwarders.
unfoldable pub forward : Protobuf → Str → Option (ReplicationOperation × Bool)
unfolding unserialize new_replication_operation
forward b msg =
    let r = unserialize b msg new_replication_operation in
    if r.1
    then some (
        if r.0.forwarded
        then (record r.0 { forwarded = false }, true)
        else (record r.0 { forwarded = true }, false))
    else none

-- Whether a forwarder wants the type.
unfoldable pub is_wanted : RepType → Sibling → Bool
is_wanted sdb_type s = s.sdb_send
is_wanted blacklist_type s = s.wlbl_send
is_wanted whitelist_type s = s.wlbl_send
is_wanted none_type s = false

packet_text : Option (Str × Nonce) → Option Str
packet_text none = none
packet_text (some (p, nonce)) = some p

-- The packet for a forwarder: the text is encrypted with the key of the forwarder if it has one that
-- is not `d_key`, and with `d_key` if it has none. `none` where encryption throws.
unfoldable pub forward_packet : Cipher → Str → Nonce → Nonce → Str → Sibling → Option Str
unfolding packet_text
forward_packet e d_key d_sodnonce d_nonce text s =
    if s.d_has_key
    then if str_eq s.d_key d_key then some [] else packet_text (encrypt_msg e text s.d_key d_nonce)
    else packet_text (encrypt_msg e text d_key d_sodnonce)

-- The packet of WforceReplication::replicateOperation for a sibling.
unfoldable pub sibling_packet : Cipher → Str → Nonce → Nonce → Str → Sibling → Option Str
unfolding packet_text
sibling_packet e d_key d_sodnonce d_nonce text s =
    if s.d_has_key && not (str_eq s.d_key d_key)
    then packet_text (encrypt_msg e text s.d_key d_nonce)
    else packet_text (encrypt_msg e text d_key d_sodnonce)
