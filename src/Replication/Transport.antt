-- ===== src/Replication/Transport.antt =====
-- The receiver of wforce/wforce-replication.cc, and the frames that Sibling::send
-- (wforce/wforce-sibling.cc) writes.
use weakforced.Prelude.{
  ℕ, zero, suc, ◌+◌, ◌*◌, ◌/◌, ◌%◌, ◌^◌, ◌==◌, ltb, leb, Bool, true, false, Option, none, some,
  List, [], ◌∷◌, ◌++◌, Str, if◌then◌else◌, length, take, drop,
}
use weakforced.Net.Address.{ComboAddress}
use weakforced.Replication.Crypto.{Cipher, received, refused, escaped, decrypt_msg}

-- What parseTCPReplication and the queue of the workers keep. The counters are of 32 bits in the
-- source, and only grow.
pub record Receiver : Type 0 where
  pub d_key : Str
  pub d_sibling_queue : List (Str × ComboAddress)
  pub d_max_sibling_queue_size : ℕ
  pub rcvd_fail : ℕ
  pub num_rcvd : ℕ
  pub queue_errors : ℕ

-- parseReceivedReplicationMsg
unfoldable pub parse_received_replication_msg : Str → ComboAddress → Receiver → Receiver
parse_received_replication_msg msg remote r =
    if leb r.d_max_sibling_queue_size (length r.d_sibling_queue)
    then record r { queue_errors = r.queue_errors + 1 }
    else record r { d_sibling_queue = r.d_sibling_queue ++ (msg, remote) ∷ [] }

-- A worker takes the front of the queue.
unfoldable pub next_item : Receiver → Option (Str × ComboAddress) × Receiver
next_item r = elim r.d_sibling_queue [
  | [] ↦ (none, r)
  | item ∷ items ↦ (some item, record r { d_sibling_queue = items })
]

-- setMaxSiblingRecvQueueSize
unfoldable pub set_max_queue_size : ℕ → Receiver → Receiver
set_max_queue_size size r = record r { d_max_sibling_queue_size = size }

-- What the loop does with a packet, and whether it goes on: an exception ends the thread's work.
unfoldable pub take_packet : Cipher → ComboAddress → Str → Receiver → Receiver × Bool
take_packet e remote packet r = elim (decrypt_msg e r.d_key packet) [
  | received msg ↦
      (record (parse_received_replication_msg msg remote r) { num_rcvd = r.num_rcvd + 1 }, true)
  | refused ↦ (record r { rcvd_fail = r.rcvd_fail + 1 }, true)
  | escaped ↦ (r, false)
]

-- ntohs of the two bytes of the size.
unfoldable pub frame_size : Str → ℕ
frame_size (a ∷ b ∷ _) = a * 256 + b
frame_size _ = 0

-- The loop of parseTCPReplication over the bytes that arrive until the connection ends. A read that
-- gets fewer bytes than it asks for ends the loop. A size fits the buffer of 65535 bytes.
unfoldable pub parse_tcp : ℕ → Cipher → ComboAddress → Str → Receiver → Receiver
parse_tcp zero e remote stream r = r
parse_tcp (suc fuel) e remote stream r =
    let size = frame_size stream in
    let rest = drop 2 stream in
    let got = take_packet e remote (take size rest) r in
    let next = parse_tcp fuel e remote (drop size rest) got.0 in
    if ltb (length stream) 2
    then r
    else if size == 0
    then r
    else if ltb (length rest) size
    then r
    else if got.1
    then next
    else got.0

-- Each round takes bytes, so their number is fuel enough.
unfoldable pub parse_tcp_replication : Cipher → ComboAddress → Str → Receiver → Receiver
parse_tcp_replication e remote stream r = parse_tcp (length stream) e remote stream r

-- A datagram: one that fills the buffer of 1500 bytes is dropped. `none`: an exception leaves the
-- thread, which ends the process.
unfoldable pub receive_udp : Cipher → ComboAddress → Str → Receiver → Option Receiver
receive_udp e remote datagram r =
    if length datagram == 0
    then some r
    else if leb 1500 (length datagram)
    then some r
    else elim (decrypt_msg e r.d_key datagram) [
      | received msg ↦ some (parse_received_replication_msg msg remote r)
      | refused ↦ some (record r { rcvd_fail = r.rcvd_fail + 1 })
      | escaped ↦ none
    ]

-- The size as send writes it, by a conversion to 16 bits.
unfoldable pub frame_header : Str → Str
frame_header msg = length msg % 2 ^ 16 / 256 ∷ length msg % 256 ∷ []

-- The bytes that send writes for a message.
unfoldable pub frame : Str → Str
unfolding frame_header
frame msg = frame_header msg ++ msg

unfoldable pub frames : List Str → Str
unfolding frame
frames [] = []
frames (msg ∷ msgs) = frame msg ++ frames msgs
