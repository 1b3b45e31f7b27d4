-- ===== src/Replication/Bounds.antt =====
-- The bound of the receive queue, and the packets that stop a receiver
-- (wforce/wforce-replication.cc).
use weakforced.Prelude.{
  ℕ, zero, suc, ◌+◌, ◌*◌, ◌/◌, ◌%◌, ◌^◌, ◌<◌, ◌≤◌, ◌==◌, ltb, leb, Bool, true, false, none, ◌++◌,
  Str, if◌then◌else◌, length, take, drop, ◌≡◌, refl, ap, arith, Bool-cases, inl, inr,
}
use weakforced.Net.Address.{ComboAddress}
use weakforced.Replication.Crypto.{
  Cipher, nonce_size, key_size, tag_size, sod_decrypt_sym, Received, received, refused, escaped,
  decrypt_msg,
}
use weakforced.Replication.Transport.{
  Receiver, parse_received_replication_msg, take_packet, parse_tcp, parse_tcp_replication, frame,
  frame_header, frame_size, receive_udp,
}
use weakforced.Replication.Framing.{length-drop}
use weakforced.Replication.Delivery.{length-append_one}

-- The queue is not longer than its maximum.
abbrev pub IsBounded : Receiver → Type 0
IsBounded r = length r.d_sibling_queue ≤ r.d_max_sibling_queue_size

parse_received_replication_msg-IsBounded :
    (msg : Str) (remote : ComboAddress) (r : Receiver)
    → IsBounded r
    → IsBounded (parse_received_replication_msg msg remote r)
unfolding parse_received_replication_msg
parse_received_replication_msg-IsBounded msg remote r h =
    elim (Bool-cases (leb r.d_max_sibling_queue_size (length r.d_sibling_queue))) [
      | inl full ↦ rw (parse_received_replication_msg, full) h
      | inr room ↦
          rw (parse_received_replication_msg, room)
            (ground (arith, room, length-append_one r.d_sibling_queue (msg, remote)))
    ]

Received-IsBounded :
    (d : Received) (remote : ComboAddress) (r : Receiver)
    → IsBounded r
    → IsBounded (
        (elim d as (λ _. Receiver × Bool) [
          | received msg ↦ (
            record (parse_received_replication_msg msg remote r) { num_rcvd = r.num_rcvd + 1 },
            true,
          )
          | refused ↦ (record r { rcvd_fail = r.rcvd_fail + 1 }, true)
          | escaped ↦ (r, false)
        ]).0)
Received-IsBounded (received msg) remote r h =
    parse_received_replication_msg-IsBounded msg remote r h
Received-IsBounded refused remote r h = h
Received-IsBounded escaped remote r h = h

take_packet-IsBounded :
    (e : Cipher) (remote : ComboAddress) (p : Str) (r : Receiver)
    → IsBounded r
    → IsBounded (take_packet e remote p r).0
unfolding take_packet
take_packet-IsBounded e remote p r h = Received-IsBounded (decrypt_msg e r.d_key p) remote r h

if-IsBounded :
    (b : Bool) (r r' : Receiver) → IsBounded r → IsBounded r' → IsBounded (if b then r else r')
if-IsBounded true r r' h h' = h
if-IsBounded false r r' h h' = h'

parse_tcp-IsBounded :
    (n : ℕ) (e : Cipher) (remote : ComboAddress) (s : Str) (r : Receiver)
    → IsBounded r
    → IsBounded (parse_tcp n e remote s r)
unfolding parse_tcp
parse_tcp-IsBounded zero e remote s r h = h
parse_tcp-IsBounded (suc n) e remote s r h =
    let size = frame_size s in
    let rest = drop 2 s in
    let got = take_packet e remote (take size rest) r in
    let h' = take_packet-IsBounded e remote (take size rest) r h in
    if-IsBounded (ltb (length s) 2) _ _ h (
      if-IsBounded (size == 0) _ _ h (
        if-IsBounded (ltb (length rest) size) _ _ h
          (if-IsBounded got.1 _ _ (parse_tcp-IsBounded n e remote (drop size rest) got.0 h') h')))

-- Whatever bytes arrive over a connection, the queue is not longer than its maximum when it was not
-- before.
pub parse_tcp_replication-IsBounded :
    (e : Cipher) (remote : ComboAddress) (s : Str) (r : Receiver)
    → IsBounded r
    → IsBounded (parse_tcp_replication e remote s r)
unfolding parse_tcp_replication
parse_tcp_replication-IsBounded e remote s r h = parse_tcp-IsBounded (length s) e remote s r h

-- A message whose length is a multiple of 2 ^ 16, such as the empty one, is written with the size 0:
-- the receiver then ends the connection, and takes nothing that follows.
pub parse_tcp_replication-frame_empty :
    (e : Cipher) (remote : ComboAddress) (msg rest : Str) (r : Receiver)
    → length msg % 2 ^ 16 ≡ 0
    → parse_tcp_replication e remote (frame msg ++ rest) r ≡ r
unfolding parse_tcp_replication parse_tcp frame frame_header frame_size
parse_tcp_replication-frame_empty e remote msg rest r h =
    let size : (length msg % 2 ^ 16 / 256 * 256 + length msg % 256 == 0) ≡ true =
      ground (arith, h, ap (λ (n : ℕ). n) h) in
    elim (Bool-cases (ltb (length (frame msg ++ rest)) 2)) [
      | inl short ↦ rw short refl
      | inr long ↦ rw (long, size) refl
    ]

-- A datagram from a sibling that holds a nonce and less than a tag makes decryption throw an
-- exception that leaves the thread. The key has 32 bytes.
pub receive_udp-none :
    (e : Cipher) (remote : ComboAddress) (datagram : Str) (r : Receiver)
    → length r.d_key ≡ key_size
    → nonce_size ≤ length datagram
    → length datagram < nonce_size + tag_size
    → receive_udp e remote datagram r ≡ none
unfolding receive_udp decrypt_msg sod_decrypt_sym
receive_udp-none e remote datagram r k long short =
    let right : (length r.d_key == key_size) ≡ true = ground (arith, k) in
    let some_bytes : (length datagram == 0) ≡ false = ground (arith, long) in
    let small : leb 1500 (length datagram) ≡ false = ground (arith, short) in
    let nonce : ltb (length datagram) nonce_size ≡ false = ground (arith, long) in
    let no_tag : ltb (length (drop nonce_size datagram)) tag_size ≡ true =
      ground (arith, short, long, length-drop nonce_size datagram) in
    rw (some_bytes, small, nonce, right, no_tag) refl
