-- ===== src/Replication/Sibling.antt =====
-- Sibling of wforce/wforce-sibling.hh and wforce/wforce-sibling.cc: one replication destination.
use weakforced.Prelude.{
  ℕ, zero, suc, ◌+◌, leb, Bool, true, false, not, Option, none, some, List, [], ◌∷◌, ◌++◌, Str, str,
  str_eq, if◌then◌else◌, length,
}
use weakforced.Net.Address.{ComboAddress, address_eq}
use weakforced.Replication.Transport.{frame_header}

-- Protocol
pub data Protocol : Type 0 where
  udp tcp none_protocol : Protocol

-- `none` is the exception of stringToProtocol.
unfoldable pub string_to_protocol : Str → Option Protocol
string_to_protocol s =
    if str_eq s (str "tcp")
    then some tcp
    else if str_eq s (str "udp")
    then some udp
    else if str_eq s (str "none")
    then some none_protocol
    else if str_eq s []
    then some udp
    else none

unfoldable pub protocol_to_string : Protocol → Str
protocol_to_string tcp = str "tcp"
protocol_to_string udp = str "udp"
protocol_to_string none_protocol = str "none"

pub record Sibling : Type 0 where
  pub rem : ComboAddress
  pub proto : Protocol
  pub connect_timeout : ℕ
  pub max_queue_size : ℕ
  pub queue : List Str
  pub queue_thread_run : Bool
  pub sdb_send : Bool
  pub wlbl_send : Bool
  pub d_ignoreself : Bool
  pub d_has_key : Bool
  pub d_key : Str
  pub success : ℕ
  pub failures : ℕ

-- The constructor, but for its socket and its thread.
unfoldable pub new_sibling : ComboAddress → Protocol → Str → ℕ → ℕ → Bool → Bool → Sibling
new_sibling ca p key timeout queue_size send_sdb send_wlbl = record {
  rem = ca;
  proto = p;
  connect_timeout = timeout;
  max_queue_size = queue_size;
  queue = [];
  queue_thread_run = true;
  sdb_send = send_sdb;
  wlbl_send = send_wlbl;
  d_ignoreself = false;
  d_has_key = not (str_eq key []);
  d_key = key;
  success = 0;
  failures = 0;
}

-- queueMsg
unfoldable pub queue_msg : Str → Sibling → Sibling
queue_msg msg s =
    if leb s.max_queue_size (length s.queue) then s else record s { queue = s.queue ++ msg ∷ [] }

-- The thread's next message: `none` when it waits or has ended.
unfoldable pub next_msg : Sibling → Option Str × Sibling
next_msg s =
    if s.queue_thread_run
    then elim s.queue [ [] ↦ (none, s) | msg ∷ msgs ↦ (some msg, record s { queue = msgs }) ]
    else (none, s)

-- checkIgnoreSelf, where getsockname gives the local address with the listening port, or fails.
unfoldable pub check_ignore_self : Option ComboAddress → Sibling → Sibling
check_ignore_self none s = s
check_ignore_self (some actual_local) s = elim s.proto [
  | none_protocol ↦ s
  | _ ↦ if address_eq actual_local s.rem then record s { d_ignoreself = true } else s
]

-- The sockets: a call gives the network's next state, and false when it throws NetworkError.
pub record Network : Type 1 where
  pub Wire : Type 0
  pub new_socket : Wire → Wire × Bool
  pub connect : ComboAddress → Wire → Wire × Bool
  pub connect_with_timeout : ComboAddress → ℕ → Wire → Wire × Bool
  pub writen : Str → Wire → Wire × Bool
  pub send_datagram : Str → Wire → Wire × Bool

module _ (n : Network) where
  -- connectSibling: for TCP it catches what the connection throws, but not what the socket does.
  unfoldable pub connect_sibling : Sibling → n.Wire → n.Wire × Bool
  connect_sibling s w =
      let made = n.new_socket w in
      if made.1
      then elim s.proto [
        | udp ↦ n.connect s.rem made.0
        | tcp ↦
            if s.d_ignoreself
            then (made.0, true)
            else ((n.connect_with_timeout s.rem s.connect_timeout made.0).0, true)
        | none_protocol ↦ (made.0, true)
      ]
      else (made.0, false)

  -- The two writes of a frame; the second is not tried when the first throws.
  unfoldable pub write_frame : Str → n.Wire → n.Wire × Bool
  write_frame msg w =
      let size = n.writen (frame_header msg) w in
      if size.1 then n.writen msg size.0 else (size.0, false)

  -- What send leaves, and whether it returned.
  pub record Sent : Type 0 where
    pub sender : Sibling
    pub wire : n.Wire
    pub returned : Bool

  -- The loop of send for TCP, with the attempts that are left. Only the first failure is counted, and
  -- is followed by a new connection, which may throw.
  unfoldable pub send_tcp : ℕ → Str → Sibling → n.Wire → Sent
  send_tcp zero msg s w = record { sender = s; wire = w; returned = true }
  send_tcp (suc zero) msg s w =
      let wrote = write_frame msg w in
      if wrote.1
      then record { sender = record s { success = s.success + 1 }; wire = wrote.0; returned = true }
      else record { sender = s; wire = wrote.0; returned = true }
  send_tcp (suc (suc i)) msg s w =
      let wrote = write_frame msg w in
      let failed : Sibling = record s { failures = s.failures + 1 } in
      let again = connect_sibling failed wrote.0 in
      let rest = send_tcp (suc i) msg failed again.0 in
      if wrote.1
      then record { sender = record s { success = s.success + 1 }; wire = wrote.0; returned = true }
      else if again.1
      then rest
      else record { sender = failed; wire = again.0; returned = false }

  unfoldable pub send : Str → Sibling → n.Wire → Sent
  send msg s w =
      if s.d_ignoreself then record { sender = s; wire = w; returned = true } else elim s.proto [
        | udp ↦
            let sent = n.send_datagram msg w in
            if sent.1
            then record {
              sender = record s { success = s.success + 1 };
              wire = sent.0;
              returned = true;
            }
            else record {
              sender = record s { failures = s.failures + 1 };
              wire = sent.0;
              returned = true;
            }
        | tcp ↦ send_tcp 2 msg s w
        | none_protocol ↦ record { sender = s; wire = w; returned = true }
      ]
