-- ===== src/Tests/Siblings.antt =====
-- Runs of the replication and of the list of siblings.
use weakforced.Prelude.{
  ℕ, Bool, true, false, Option, none, some, List, [], ◌∷◌, ◌++◌, Str, str, str_eq, replicate, drop,
  if◌then◌else◌, ◌==◌, ◌≡◌, refl, arith,
}
use weakforced.Net.Address.{ComboAddress, default_address}
use weakforced.Stats.Wrapper.{op_key, sdb_op_reset}
use weakforced.Replication.Crypto.{Cipher}
use weakforced.Replication.Transport.{Receiver, parse_tcp_replication, frame, frames, receive_udp}
use weakforced.Replication.Delivery.{CipherLaws, packets_of, queued, parse_tcp_replication-queued}
use weakforced.Replication.Bounds.{IsBounded, parse_tcp_replication-IsBounded, receive_udp-none}
use weakforced.Replication.Sibling.{Sibling, tcp, queue_msg, protocol_to_string}
use weakforced.Replication.Siblings.{Names, Limits, add_sibling_with_key, split_protocol}
use weakforced.Replication.Peers.{HasDistinct, no_siblings, added, ReachableSiblings-HasDistinct}
use weakforced.Replication.Queue.{next_msgs, next_msgs-queue_msg, split_protocol-append}
use weakforced.Replication.Message.{
  RepType, sdb_type, blacklist_type, whitelist_type, none_type, sdb_operation, ReplicationMsg,
  Protobuf, serialize, unserialize, new_replication_operation, forward_packet,
}
use weakforced.Replication.Reading.{unserialize-serialize, forward_packet-same_key}

-- A cipher whose tag is 16 zeros.
abbrev plain_cipher : Cipher
plain_cipher = record {
  seal = λ key nonce s. replicate 16 0 ++ s;
  unseal = λ key nonce s. some (drop 16 s);
}

plain_cipher-CipherLaws : CipherLaws plain_cipher
plain_cipher-CipherLaws = record {
  length_seal = λ key nonce s. omega arith;
  unseal_seal = λ key nonce s. refl;
}

abbrev key32 : Str
key32 = replicate 32 7

abbrev nonce12 : Str
nonce12 = 255 ∷ 255 ∷ 255 ∷ 255 ∷ replicate 8 1

abbrev receiver : Receiver
receiver = record {
  d_key = key32;
  d_sibling_queue = (str "old", default_address) ∷ [];
  d_max_sibling_queue_size = 3;
  rcvd_fail = 0;
  num_rcvd = 1;
  queue_errors = 0;
}

parse_tcp_replication-queued_example :
    (ps : List Str) × (packets_of plain_cipher key32 nonce12 (str "one" ∷ [] ∷ []) ≡ some ps)
    × (parse_tcp_replication plain_cipher default_address (frames ps) receiver
        ≡ queued plain_cipher plain_cipher-CipherLaws
            (str "one" ∷ [] ∷ [])
            default_address
            receiver)
parse_tcp_replication-queued_example =
    parse_tcp_replication-queued plain_cipher plain_cipher-CipherLaws (str "one" ∷ [] ∷ []) key32
      nonce12 default_address receiver refl refl refl (omega arith) (omega arith, (omega arith, tt))

parse_tcp_replication-IsBounded_example :
    IsBounded (parse_tcp_replication plain_cipher default_address (0 ∷ 5 ∷ 1 ∷ []) receiver)
parse_tcp_replication-IsBounded_example =
    parse_tcp_replication-IsBounded plain_cipher default_address (0 ∷ 5 ∷ 1 ∷ []) receiver
      (omega arith)

-- A datagram of 20 bytes.
receive_udp-none_example : receive_udp plain_cipher default_address (replicate 20 0) receiver ≡ none
receive_udp-none_example =
    receive_udp-none plain_cipher default_address (replicate 20 0) receiver refl (omega arith)
      (omega arith)

abbrev two_packets : List Str
two_packets =
    (nonce12 ++ replicate 16 0 ++ str "one")
    ∷ ((0 ∷ 0 ∷ 0 ∷ 0 ∷ replicate 8 1) ++ replicate 16 0 ++ str "two")
    ∷ []

-- Every address is 10.0.0.1, with the port 4001.
abbrev names : Names
names = record {
  resolver = record {
    pton4 = λ s. none;
    pton6 = λ s. none;
    numeric6 = λ s. none;
    host = λ a. none;
    atoi = λ s. none;
    stoul = λ s. none;
    to_string = λ n. [];
  };
  aton = λ s. some (10 ∷ 0 ∷ 0 ∷ 1 ∷ []);
  strtol = λ s. none;
  sibling_host_to_address = λ s. some s;
  local_address = λ a. none;
  b64_decode = λ s. some s;
  to_bool = λ s. true;
}

abbrev limits : Limits
limits = record { sibling_connect_timeout = 5000; sibling_queue_size = 5000 }

-- The second is refused.
abbrev twice : List Sibling
twice =
    (add_sibling_with_key names limits (str "b:tcp") [] true true
      (add_sibling_with_key names limits (str "a") [] true true []).0).0

ReachableSiblings-HasDistinct_example : HasDistinct twice
ReachableSiblings-HasDistinct_example = ReachableSiblings-HasDistinct names limits twice (
    added (str "b:tcp") [] true true (add_sibling_with_key names limits (str "a") [] true true []).0
      (added (str "a") [] true true [] no_siblings))

abbrev sibling : Sibling
sibling = record {
  rem = default_address;
  proto = tcp;
  connect_timeout = 5000;
  max_queue_size = 2;
  queue = str "first" ∷ [];
  queue_thread_run = true;
  sdb_send = true;
  wlbl_send = true;
  d_ignoreself = false;
  d_has_key = true;
  d_key = key32;
  success = 0;
  failures = 0;
}

next_msgs-queue_msg_example :
    next_msgs 2 (queue_msg (str "second") sibling)
    ≡ (str "first" ∷ str "second" ∷ [], record sibling { queue = [] })
next_msgs-queue_msg_example = next_msgs-queue_msg (str "second") sibling refl (omega arith)

abbrev type_code : RepType → ℕ
type_code sdb_type = 0
type_code blacklist_type = 1
type_code whitelist_type = 2
type_code none_type = 3

abbrev flag_code : Bool → ℕ
flag_code false = 0
flag_code true = 1

abbrev code_type : ℕ → RepType
code_type n =
    if n == 0
    then sdb_type
    else if n == 1
    then blacklist_type
    else if n == 2
    then whitelist_type
    else none_type

abbrev code_flag : ℕ → Bool
code_flag n = if n == 0 then false else true

abbrev read_codes : Str → Option ReplicationMsg
read_codes (t ∷ f ∷ s) =
    some (record { rep_type = code_type t; rep_op = s; forwarded = code_flag f })
read_codes _ = none

reads :
    (t : RepType) (f : Bool) (s : Str)
    → read_codes (type_code t ∷ flag_code f ∷ s)
      ≡ some (record { rep_type = t; rep_op = s; forwarded = f })
reads sdb_type false s = refl
reads sdb_type true s = refl
reads blacklist_type false s = refl
reads blacklist_type true s = refl
reads whitelist_type false s = refl
reads whitelist_type true s = refl
reads none_type false s = refl
reads none_type true s = refl

-- An encoding of resets in the database "db".
abbrev encoding : Protobuf
encoding = record {
  sdb_bytes = λ o. o.key;
  parse_sdb = λ s. some (op_key (str "db") sdb_op_reset s);
  bl_bytes = λ o. [];
  parse_bl = λ s. none;
  msg_bytes = λ m. type_code m.rep_type ∷ flag_code m.forwarded ∷ m.rep_op;
  parse_msg = read_codes;
  partial_forwarded = λ s. false;
}

encoding-reads : (m : ReplicationMsg) → encoding.parse_msg (encoding.msg_bytes m) ≡ some m
encoding-reads m = reads m.rep_type m.forwarded m.rep_op

unserialize-serialize_example :
    unserialize encoding
      (serialize encoding (record {
        forwarded = true;
        rep_op = some (sdb_operation (op_key (str "db") sdb_op_reset (str "alice")));
        obj_type = sdb_type;
      }))
      new_replication_operation
    ≡ (
      record {
        forwarded = true;
        rep_op = some (sdb_operation (op_key (str "db") sdb_op_reset (str "alice")));
        obj_type = sdb_type;
      },
      true,
    )
unfolding op_key
unserialize-serialize_example =
    unserialize-serialize encoding sdb_type
      (sdb_operation (op_key (str "db") sdb_op_reset (str "alice"))) true new_replication_operation
      refl encoding-reads

forward_packet-same_key_example :
    (p : Str) × (forward_packet plain_cipher key32 nonce12 nonce12 (str "text") sibling ≡ some p)
    × ((remote : ComboAddress) (rest : Str) (r : Receiver)
        → parse_tcp_replication plain_cipher remote (frame p ++ rest) r ≡ r)
unfolding str_eq
forward_packet-same_key_example =
    forward_packet-same_key plain_cipher key32 nonce12 nonce12 (str "text") sibling refl refl

split_protocol-append_example :
    split_protocol (str "10.0.0.1:4001" ++ b':' ∷ protocol_to_string tcp)
    ≡ (tcp, str "10.0.0.1:4001")
split_protocol-append_example = split_protocol-append (str "10.0.0.1:4001") tcp
