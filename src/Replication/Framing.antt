-- ===== src/Replication/Framing.antt =====
-- The frames that a sibling writes are the packets that the receiver takes
-- (wforce/wforce-sibling.cc, wforce/wforce-replication.cc).
use weakforced.Prelude.{
  ℕ, zero, suc, ◌+◌, ◌-◌, ◌*◌, ◌/◌, ◌%◌, ◌^◌, ◌<◌, ◌≤◌, ◌==◌, ltb, false, List, [], ◌∷◌, ◌++◌, Str,
  if◌then◌else◌, length, take, drop, All, ◌≡◌, refl, ap, ◌∙◌, arith, length-append,
}
use weakforced.Net.Address.{ComboAddress}
use weakforced.Replication.Crypto.{Cipher}
use weakforced.Replication.Transport.{
  Receiver, take_packet, frame_size, parse_tcp, parse_tcp_replication, frame_header, frame, frames,
}

pub length-drop : (n : ℕ) (s : Str) → length (drop n s) ≡ length s - n
length-drop zero s = omega arith
length-drop (suc n) [] = omega arith
length-drop (suc n) (b ∷ s) = omega (arith, length-drop n s)

pub take-append : (s t : Str) → take (length s) (s ++ t) ≡ s
take-append [] t = refl
take-append (b ∷ s) t = ap (λ (l : Str). b ∷ l) (take-append s t)

pub drop-append : (s t : Str) → drop (length s) (s ++ t) ≡ t
drop-append [] t = refl
drop-append (b ∷ s) t = drop-append s t

append_assoc : (s t u : Str) → (s ++ t) ++ u ≡ s ++ (t ++ u)
append_assoc [] t u = refl
append_assoc (b ∷ s) t u = ap (λ (l : Str). b ∷ l) (append_assoc s t u)

module _ (e : Cipher) (remote : ComboAddress) where
  -- More fuel than bytes changes nothing.
  parse_tcp-fuel :
      (n m : ℕ) (s : Str) (r : Receiver)
      → length s ≤ n
      → length s ≤ m
      → parse_tcp n e remote s r ≡ parse_tcp m e remote s r
  unfolding parse_tcp
  parse_tcp-fuel zero zero s r h h' = refl
  parse_tcp-fuel zero (suc m) s r h h' = ground (arith)
  parse_tcp-fuel (suc n) zero s r h h' = ground (arith)
  parse_tcp-fuel (suc n) (suc m) s r h h' =
      let size = frame_size s in
      let rest = drop 2 s in
      let got = take_packet e remote (take size rest) r in
      ap
        (λ (next : Receiver).
          if ltb (length s) 2
          then r
          else if size == 0
          then r
          else if ltb (length rest) size
          then r
          else if got.1
          then next
          else got.0)
        (parse_tcp-fuel n m (drop size rest) got.0
          (omega (arith, length-drop size rest, length-drop 2 s))
          (omega (arith, length-drop size rest, length-drop 2 s)))

  -- The packets one after another, and then `after`, unless an exception stops the loop.
  unfoldable pub take_packets : List Str → (Receiver → Receiver) → Receiver → Receiver
  take_packets [] after r = after r
  take_packets (p ∷ ps) after r =
      if (take_packet e remote p r).1
      then take_packets ps after (take_packet e remote p r).0
      else (take_packet e remote p r).0

  -- A size of 16 bits that is not 0.
  abbrev pub HasFrame : Str → Type 0
  HasFrame p = (0 < length p) × (length p < 2 ^ 16)

  frame_size-frame : (p t : Str) → frame_size (frame p ++ t) ≡ length p % 2 ^ 16
  unfolding frame_size frame frame_header
  frame_size-frame p t = omega arith

  parse_tcp-frame :
      (p t : Str) (n : ℕ) (r : Receiver)
      → HasFrame p
      → parse_tcp (suc n) e remote (frame p ++ t) r ≡ (
          if (take_packet e remote p r).1
          then parse_tcp n e remote t (take_packet e remote p r).0
          else (take_packet e remote p r).0)
  unfolding parse_tcp frame frame_header frame_size
  parse_tcp-frame p t n r h =
      let size : length p % 2 ^ 16 / 256 * 256 + length p % 256 ≡ length p = omega (arith, h.1) in
      let fits : ltb (length (p ++ t)) (length p) ≡ false = ground (arith, length-append p t) in
      let some_bytes : (length p == 0) ≡ false = ground (arith, h.0) in
      let long : ltb (length (frame p ++ t)) 2 ≡ false = ground arith in
      rw (long, size, some_bytes, fits, take-append p t, drop-append p t) refl

  length-frame : (p : Str) → length (frame p) ≡ 2 + length p
  unfolding frame frame_header
  length-frame p = omega arith

  append-frames :
      (p : Str) (ps : List Str) (rest : Str)
      → frames (p ∷ ps) ++ rest ≡ frame p ++ (frames ps ++ rest)
  unfolding frames
  append-frames p ps rest = append_assoc (frame p) (frames ps) rest

  -- A receiver that reads the frames of packets takes these packets in order, and then what follows
  -- in the stream, unless one of them makes decryption throw. Each packet has between 1 and 65535
  -- bytes.
  pub parse_tcp_replication-frames :
      (ps : List Str) (rest : Str) (r : Receiver)
      → All HasFrame ps
      → parse_tcp_replication e remote (frames ps ++ rest) r
        ≡ take_packets ps (parse_tcp_replication e remote rest) r
  unfolding take_packets frames parse_tcp_replication
  parse_tcp_replication-frames [] rest r h = refl
  parse_tcp_replication-frames (p ∷ ps) rest r h =
      let t : Str = frames ps ++ rest in
      let l : length (frame p ++ t) ≡ suc (suc (length p + length t)) =
        omega (arith, length-append (frame p) t, length-frame p) in
      ap (λ (s : Str). parse_tcp_replication e remote s r) (append-frames p ps rest)
      ∙ ap (λ (n : ℕ). parse_tcp n e remote (frame p ++ t) r) l
      ∙ parse_tcp-frame p t (suc (length p + length t)) r h.0
      ∙ ap
          (λ (next : Receiver).
            if (take_packet e remote p r).1 then next else (take_packet e remote p r).0)
          (parse_tcp-fuel (suc (length p + length t)) (length t) t (take_packet e remote p r).0
              (omega arith) (omega arith)
            ∙ parse_tcp_replication-frames ps rest (take_packet e remote p r).0 h.1)
