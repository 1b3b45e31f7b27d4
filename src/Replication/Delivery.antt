-- ===== src/Replication/Delivery.antt =====
-- What a sibling encrypts and sends, the receiver queues (wforce/wforce-replication.cc).
use weakforced.Prelude.{
  ℕ, suc, ◌+◌, ◌^◌, ◌<◌, ◌≤◌, ◌==◌, ltb, leb, true, false, Option, none, some, List, [], ◌∷◌, ◌++◌,
  Str, length, take, drop, map, All, ◌≡◌, refl, sym, ap, subst, ◌∙◌, arith, length-append,
  Bool-cases, inl, inr,
}
use weakforced.Net.Address.{ComboAddress}
use weakforced.Replication.Crypto.{
  Cipher, Nonce, nonce_size, key_size, tag_size, increment, sod_encrypt_sym, sod_decrypt_sym,
  encrypt_msg, received, decrypt_msg,
}
use weakforced.Replication.Transport.{
  Receiver, parse_received_replication_msg, take_packet, parse_tcp, parse_tcp_replication, frames,
}
use weakforced.Replication.Framing.{
  HasFrame, take_packets, parse_tcp_replication-frames, take-append, drop-append,
}

-- What the cipher promises: a sealed text is longer by the tag, and is opened with the same key and
-- nonce.
pub record CipherLaws (e : Cipher) : Type 0 where
  pub length_seal : (key nonce s : Str) → length (e.seal key nonce s) ≡ tag_size + length s
  pub unseal_seal : (key nonce s : Str) → e.unseal key nonce (e.seal key nonce s) ≡ some s

-- The packets of messages, encrypted one after another. `none` where one of them throws.
unfoldable pub packets_of : Cipher → Str → Nonce → List Str → Option (List Str)
packets_of e key nonce [] = some []
packets_of e key nonce (msg ∷ msgs) = elim (encrypt_msg e msg key nonce) [
  | none ↦ none
  | some (packet, nonce') ↦ elim (packets_of e key nonce' msgs) [
    | none ↦ none
    | some packets ↦ some (packet ∷ packets)
  ]
]

pub length-increment : (n : Nonce) → length (increment n) ≡ length n
unfolding increment
length-increment [] = refl
length-increment (a ∷ []) = refl
length-increment (a ∷ b ∷ []) = refl
length-increment (a ∷ b ∷ c ∷ []) = refl
length-increment (a ∷ b ∷ c ∷ d ∷ rest) = refl

empty_text : (s : Str) → length s ≡ 0 → s ≡ []
empty_text [] h = refl
empty_text (b ∷ s) h = absurd (omega arith)

pub append-[] : {A : Type 0} (xs : List A) → xs ++ [] ≡ xs
append-[] [] = refl
append-[] (x ∷ xs) = ap (λ (l : List _). x ∷ l) (append-[] xs)

append-one : {A : Type 0} (xs : List A) (y : A) (ys : List A) → (xs ++ y ∷ []) ++ ys ≡ xs ++ y ∷ ys
append-one [] y ys = refl
append-one (x ∷ xs) y ys = ap (λ (l : List _). x ∷ l) (append-one xs y ys)

pub length-append_one : {A : Type 0} (xs : List A) (y : A) → length (xs ++ y ∷ []) ≡ suc (length xs)
length-append_one [] y = refl
length-append_one (x ∷ xs) y = ap suc (length-append_one xs y)

module _ (e : Cipher) (laws : CipherLaws e) where
  encrypt_msg-some :
      (msg key : Str) (nonce : Nonce)
      → length key ≡ key_size
      → encrypt_msg e msg key nonce ≡ some (nonce ++ e.seal key nonce msg, increment nonce)
  unfolding encrypt_msg sod_encrypt_sym
  encrypt_msg-some msg key nonce k =
      let same : (length key == key_size) ≡ true = ground (arith, k) in rw same refl

  decrypt_msg-packet :
      (msg key : Str) (nonce : Nonce)
      → length key ≡ key_size
      → length nonce ≡ nonce_size
      → decrypt_msg e key (nonce ++ e.seal key nonce msg) ≡ received msg
  unfolding decrypt_msg sod_decrypt_sym
  decrypt_msg-packet msg key nonce k n =
      let x : Str = e.seal key nonce msg in
      let dropped : drop nonce_size (nonce ++ x) ≡ x =
        subst (λ m. drop m (nonce ++ x) ≡ x) n (drop-append nonce x) in
      let taken : take nonce_size (nonce ++ x) ≡ nonce =
        subst (λ m. take m (nonce ++ x) ≡ nonce) n (take-append nonce x) in
      let long : ltb (length (nonce ++ x)) nonce_size ≡ false =
        ground (arith, n, length-append nonce x) in
      let right : (length key == key_size) ≡ true = ground (arith, k) in
      let whole : ltb (length x) tag_size ≡ false =
        ground (arith, laws.length_seal key nonce msg) in
      elim (Bool-cases (length x == tag_size)) [
        | inl bare ↦
            rw (long, dropped, taken, right, whole, bare)
              (ap received
                (sym (empty_text msg (ground (arith, bare, laws.length_seal key nonce msg)))))
        | inr full ↦
            rw (long, dropped, taken, right, whole, full, laws.unseal_seal key nonce msg) refl
      ]

  -- The messages join the queue in order.
  abbrev pub queued : List Str → ComboAddress → Receiver → Receiver
  queued msgs remote r = record r {
    d_sibling_queue = r.d_sibling_queue ++ map (λ msg. (msg, remote)) msgs;
    num_rcvd = r.num_rcvd + length msgs;
  }

  take_packet-queued :
      (msg key : Str) (nonce : Nonce) (remote : ComboAddress) (r : Receiver)
      → length key ≡ key_size
      → length nonce ≡ nonce_size
      → r.d_key ≡ key
      → length r.d_sibling_queue < r.d_max_sibling_queue_size
      → take_packet e remote (nonce ++ e.seal key nonce msg) r ≡ (queued (msg ∷ []) remote r, true)
  unfolding parse_received_replication_msg take_packet
  take_packet-queued msg key nonce remote r k n same room =
      let d : decrypt_msg e r.d_key (nonce ++ e.seal key nonce msg) ≡ received msg =
        subst (λ j. decrypt_msg e j (nonce ++ e.seal key nonce msg) ≡ received msg) (sym same)
          (decrypt_msg-packet msg key nonce k n) in
      let free : leb r.d_max_sibling_queue_size (length r.d_sibling_queue) ≡ false =
        ground (arith, room) in
      rw (take_packet, d, free) refl

  queued-[] : (remote : ComboAddress) (r : Receiver) → queued [] remote r ≡ r
  queued-[] remote r =
      let sum : r.num_rcvd + 0 ≡ r.num_rcvd = omega arith in
      ap
        (λ (q : List (Str × ComboAddress)). record r {
          d_sibling_queue = q;
          num_rcvd = r.num_rcvd + 0;
        })
        (append-[] r.d_sibling_queue)
      ∙ ap (λ (n : ℕ). record r { num_rcvd = n }) sum

  queued-∷ :
      (msg : Str) (msgs : List Str) (remote : ComboAddress) (r : Receiver)
      → queued msgs remote (queued (msg ∷ []) remote r) ≡ queued (msg ∷ msgs) remote r
  queued-∷ msg msgs remote r =
      let sum : r.num_rcvd + 1 + length msgs ≡ r.num_rcvd + suc (length msgs) = omega arith in
      ap
        (λ (q : List (Str × ComboAddress)). record r {
          d_sibling_queue = q;
          num_rcvd = r.num_rcvd + 1 + length msgs;
        })
        (append-one r.d_sibling_queue (msg, remote) (map (λ m. (m, remote)) msgs))
      ∙ ap
          (λ (n : ℕ). record r {
            d_sibling_queue = r.d_sibling_queue ++ (msg, remote) ∷ map (λ m. (m, remote)) msgs;
            num_rcvd = n;
          })
          sum

  -- A packet of the message fits a frame.
  abbrev pub FitsFrame : Str → Type 0
  FitsFrame msg = nonce_size + tag_size + length msg < 2 ^ 16

  packets_of-∷ :
      (key : Str) (nonce : Nonce) (msg : Str) (msgs ps : List Str)
      → length key ≡ key_size
      → packets_of e key (increment nonce) msgs ≡ some ps
      → packets_of e key nonce (msg ∷ msgs) ≡ some ((nonce ++ e.seal key nonce msg) ∷ ps)
  unfolding packets_of
  packets_of-∷ key nonce msg msgs ps k more =
      rw (packets_of, encrypt_msg-some msg key nonce k, more) refl

  take_packets-∷ :
      (p : Str) (ps : List Str) (remote : ComboAddress) (after : Receiver → Receiver)
      (r r' : Receiver)
      → take_packet e remote p r ≡ (r', true)
      → take_packets e remote (p ∷ ps) after r ≡ take_packets e remote ps after r'
  unfolding take_packets
  take_packets-∷ p ps remote after r r' took = rw took refl

  take_packets-queued :
      (msgs : List Str) (key : Str) (nonce : Nonce) (remote : ComboAddress) (r : Receiver)
      (after : Receiver → Receiver)
      → length key ≡ key_size
      → length nonce ≡ nonce_size
      → r.d_key ≡ key
      → length r.d_sibling_queue + length msgs ≤ r.d_max_sibling_queue_size
      → All FitsFrame msgs
      → (ps : List Str) × (packets_of e key nonce msgs ≡ some ps)
        × All (HasFrame e remote) ps
        × (take_packets e remote ps after r ≡ after (queued msgs remote r))
  unfolding packets_of take_packets
  take_packets-queued [] key nonce remote r after k n same room fit =
      ([], refl, tt, ap after (sym (queued-[] remote r)))
  take_packets-queued (msg ∷ msgs) key nonce remote r after k n same room fit =
      let (ps, sent, framed, took) =
        take_packets-queued msgs key (increment nonce) remote (queued (msg ∷ []) remote r) after k
          (length-increment nonce ∙ n) same
          (omega (arith, length-append_one r.d_sibling_queue (msg, remote), room)) fit.1 in
      (
        (nonce ++ e.seal key nonce msg) ∷ ps,
        packets_of-∷ key nonce msg msgs ps k sent,
        (
          (
            omega (arith, n, length-append nonce (e.seal key nonce msg)),
            omega (
              arith,
              n,
              length-append nonce (e.seal key nonce msg),
              laws.length_seal key nonce msg,
              fit.0,
            ),
          ),
          framed,
        ),
        take_packets-∷ (nonce ++ e.seal key nonce msg) ps remote after r
              (queued (msg ∷ []) remote r)
              (take_packet-queued msg key nonce remote r k n same (omega (arith, room)))
            ∙ took
            ∙ ap after (queued-∷ msg msgs remote r),
      )

  -- Messages that a sibling encrypts one after another and sends over one connection are queued by a
  -- receiver with the same key, all of them and in order. The key has 32 bytes and the nonce 12, each
  -- packet fits a frame, the queue has room, and the cipher opens what it seals.
  pub parse_tcp_replication-queued :
      (msgs : List Str) (key : Str) (nonce : Nonce) (remote : ComboAddress) (r : Receiver)
      → length key ≡ key_size
      → length nonce ≡ nonce_size
      → r.d_key ≡ key
      → length r.d_sibling_queue + length msgs ≤ r.d_max_sibling_queue_size
      → All FitsFrame msgs
      → (ps : List Str) × (packets_of e key nonce msgs ≡ some ps)
        × (parse_tcp_replication e remote (frames ps) r ≡ queued msgs remote r)
  unfolding parse_tcp_replication parse_tcp
  parse_tcp_replication-queued msgs key nonce remote r k n same room fit =
      let (ps, sent, framed, took) =
        take_packets-queued msgs key nonce remote r (parse_tcp_replication e remote []) k n same
          room fit in
      (
        ps,
        sent,
        ap (λ (s : Str). parse_tcp_replication e remote s r) (sym (append-[] (frames ps)))
            ∙ parse_tcp_replication-frames e remote ps [] r framed
            ∙ took,
      )
