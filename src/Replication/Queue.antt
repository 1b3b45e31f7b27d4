-- ===== src/Replication/Queue.antt =====
-- The queue of a sibling, from queueMsg to the thread that sends (wforce/wforce-sibling.cc), and the
-- text of an address with its protocol.
use weakforced.Prelude.{
  ℕ, zero, suc, ◌≤◌, ◌<◌, ◌==◌, leb, Bool, true, false, Option, none, some, List, [], ◌∷◌, ◌++◌,
  Str, str_eq, if◌then◌else◌, length, All, ◌≡◌, refl, sym, ap, subst, ◌∙◌, arith, Bool-cases, inl,
  inr,
}
use weakforced.Replication.Delivery.{length-append_one}
use weakforced.Replication.Sibling.{
  Protocol, udp, tcp, none_protocol, string_to_protocol, protocol_to_string, Sibling, queue_msg,
  next_msg,
}
use weakforced.Replication.Siblings.{split_next, split, join, last_part, but_last, split_protocol}

after_next : Option Str → List Str × Sibling → List Str × Sibling
after_next none r = r
after_next (some msg) r = (msg ∷ r.0, r.1)

-- What the thread takes in a number of rounds.
unfoldable pub next_msgs : ℕ → Sibling → List Str × Sibling
unfolding after_next
next_msgs zero s = ([], s)
next_msgs (suc n) s = after_next (next_msg s).0 (next_msgs n (next_msg s).1)

abbrev emptied : Sibling → Sibling
emptied s = record s { queue = [] }

next_msg-running :
    (msg : Str) (msgs : List Str) (s : Sibling)
    → s.queue_thread_run ≡ true
    → next_msg (record s { queue = msg ∷ msgs }) ≡ (some msg, record s { queue = msgs })
unfolding next_msg
next_msg-running msg msgs s run =
    ap
      (λ (b : Bool).
        if b
        then (some msg, record s { queue = msgs })
        else (none, record s { queue = msg ∷ msgs }))
      run

next_msgs-queue :
    (q : List Str) (s : Sibling)
    → s.queue_thread_run ≡ true
    → next_msgs (length q) (record s { queue = q }) ≡ (q, emptied s)
unfolding next_msgs
next_msgs-queue [] s run = refl
next_msgs-queue (msg ∷ msgs) s run =
    ap (λ (p : Option Str × Sibling). after_next p.0 (next_msgs (length msgs) p.1))
      (next_msg-running msg msgs s run)
    ∙ ap (λ (r : List Str × Sibling). (msg ∷ r.0, r.1)) (next_msgs-queue msgs s run)

-- A message that is queued at a sibling with room in its queue, whose thread runs, is taken by the
-- thread after those before it, and nothing is left then.
pub next_msgs-queue_msg :
    (msg : Str) (s : Sibling)
    → s.queue_thread_run ≡ true
    → length s.queue < s.max_queue_size
    → next_msgs (suc (length s.queue)) (queue_msg msg s) ≡ (s.queue ++ msg ∷ [], emptied s)
unfolding queue_msg
next_msgs-queue_msg msg s run room =
    let free : leb s.max_queue_size (length s.queue) ≡ false = ground (arith, room) in
    rw free (
      subst
        (λ n.
          next_msgs n (record s { queue = s.queue ++ msg ∷ [] }) ≡ (s.queue ++ msg ∷ [], emptied s))
        (length-append_one s.queue msg) (next_msgs-queue (s.queue ++ msg ∷ []) s run))

-- Queueing a message at a sibling never makes its queue longer than the maximum, when it was not
-- before.
pub length-queue_msg :
    (msg : Str) (s : Sibling)
    → length s.queue ≤ s.max_queue_size
    → length (queue_msg msg s).queue ≤ (queue_msg msg s).max_queue_size
unfolding queue_msg
length-queue_msg msg s h = elim (Bool-cases (leb s.max_queue_size (length s.queue))) [
  | inl full ↦ rw (queue_msg, full) h
  | inr room ↦ rw (queue_msg, room) (ground (arith, room, length-append_one s.queue msg))
]

-- The separator does not stand in the text.
abbrev pub Lacks : ℕ → Str → Type 0
Lacks c s = All (λ a. (a == c) ≡ false) s

split-part : (c : ℕ) (t : Str) → Lacks c t → split c t ≡ t ∷ []
unfolding split
split-part c [] h = refl
split-part c (a ∷ t) h = rw (split-part c t h.1, h.0) refl

split-∷ : (c : ℕ) (s : Str) → (part : Str) × (parts : List Str) × (split c s ≡ part ∷ parts)
unfolding split
split-∷ c [] = ([], [], refl)
split-∷ c (a ∷ s) =
    let (part, parts, e) = split-∷ c s in
    elim (Bool-cases (a == c)) [
      | inl same ↦ ([], part ∷ parts, split_at_separator c a part parts (split c s) e same)
      | inr other ↦ (a ∷ part, parts, split_inside c a part parts (split c s) e other)
    ]
  where
    split_at_separator :
        (c a : ℕ) (part : Str) (parts l : List Str)
        → l ≡ part ∷ parts
        → (a == c) ≡ true
        → split_next c a l ≡ [] ∷ part ∷ parts
    split_at_separator c a part parts l e same = rw (e, same) refl

    split_inside :
        (c a : ℕ) (part : Str) (parts l : List Str)
        → l ≡ part ∷ parts
        → (a == c) ≡ false
        → split_next c a l ≡ (a ∷ part) ∷ parts
    split_inside c a part parts l e other = rw (e, other) refl

split_next-append :
    (c a : ℕ) (part t : Str) (parts l : List Str)
    → l ≡ part ∷ parts
    → split_next c a (l ++ t ∷ []) ≡ split_next c a l ++ t ∷ []
unfolding split_next
split_next-append c a part t parts l e = elim (Bool-cases (a == c)) [
  | inl same ↦ rw (e, same) refl
  | inr other ↦ rw (e, other) refl
]

-- What follows the last separator is the last part.
split-append : (c : ℕ) (s t : Str) → Lacks c t → split c (s ++ c ∷ t) ≡ split c s ++ t ∷ []
unfolding split
split-append c [] t h =
    let same : (c == c) ≡ true = ground arith in rw (split-part c t h, same) refl
split-append c (a ∷ s) t h =
    let (part, parts, e) = split-∷ c s in
    ap (split_next c a) (split-append c s t h) ∙ split_next-append c a part t parts (split c s) e

join-split_next :
    (c a : ℕ) (part : Str) (parts : List Str)
    → join c (split_next c a (part ∷ parts)) ≡ a ∷ join c (part ∷ parts)
unfolding join split_next
join-split_next c a part [] = elim (Bool-cases (a == c)) [
  | inl same ↦ rw same (ap (λ (b : ℕ). b ∷ part) (ground (arith, same)))
  | inr other ↦ rw other refl
]
join-split_next c a part (next ∷ parts) = elim (Bool-cases (a == c)) [
  | inl same ↦
      rw same (ap (λ (b : ℕ). b ∷ (part ++ c ∷ join c (next ∷ parts))) (ground (arith, same)))
  | inr other ↦ rw other refl
]

join-split : (c : ℕ) (s : Str) → join c (split c s) ≡ s
unfolding join split
join-split c [] = refl
join-split c (a ∷ s) =
    let (part, parts, e) = split-∷ c s in
    ap (λ (l : List Str). join c (split_next c a l)) e
    ∙ join-split_next c a part parts
    ∙ ap (λ (l : List Str). a ∷ join c l) (sym e)
    ∙ ap (λ (t : Str). a ∷ t) (join-split c s)

last_part-append_one : (parts : List Str) (t : Str) → last_part (parts ++ t ∷ []) ≡ t
unfolding last_part
last_part-append_one [] t = refl
last_part-append_one (part ∷ []) t = refl
last_part-append_one (part ∷ next ∷ parts) t = last_part-append_one (next ∷ parts) t

but_last-append_one : (parts : List Str) (t : Str) → but_last (parts ++ t ∷ []) ≡ parts
unfolding but_last
but_last-append_one [] t = refl
but_last-append_one (part ∷ []) t = refl
but_last-append_one (part ∷ next ∷ parts) t =
    ap (λ (l : List Str). part ∷ l) (but_last-append_one (next ∷ parts) t)

protocol_to_string-Lacks : (p : Protocol) → Lacks b':' (protocol_to_string p)
unfolding protocol_to_string
protocol_to_string-Lacks udp = (refl, (refl, (refl, tt)))
protocol_to_string-Lacks tcp = (refl, (refl, (refl, tt)))
protocol_to_string-Lacks none_protocol = (refl, (refl, (refl, (refl, tt))))

string_to_protocol-protocol_to_string :
    (p : Protocol) → string_to_protocol (protocol_to_string p) ≡ some p
unfolding string_to_protocol protocol_to_string str_eq
string_to_protocol-protocol_to_string udp = refl
string_to_protocol-protocol_to_string tcp = refl
string_to_protocol-protocol_to_string none_protocol = refl

split_protocol-some :
    (s : Str) (p : Protocol)
    → string_to_protocol (last_part (split b':' s)) ≡ some p
    → split_protocol s ≡ (p, join b':' (but_last (split b':' s)))
unfolding split_protocol
split_protocol-some s p e = rw (split_protocol, e) refl

-- When an address, whatever its text, is followed by a separator and the name of a protocol, the
-- protocol and the text of the address are read back.
pub split_protocol-append :
    (host_port : Str) (p : Protocol)
    → split_protocol (host_port ++ b':' ∷ protocol_to_string p) ≡ (p, host_port)
split_protocol-append host_port p =
    let parts = split-append b':' host_port (protocol_to_string p) (protocol_to_string-Lacks p) in
    split_protocol-some (host_port ++ b':' ∷ protocol_to_string p) p (
      ap (λ (l : List Str). string_to_protocol (last_part l)) parts
      ∙ ap string_to_protocol (last_part-append_one (split b':' host_port) (protocol_to_string p))
      ∙ string_to_protocol-protocol_to_string p)
    ∙ ap (λ (l : List Str). (p, join b':' (but_last l))) parts
    ∙ ap (λ (l : List Str). (p, join b':' l))
        (but_last-append_one (split b':' host_port) (protocol_to_string p))
    ∙ ap (λ (s : Str). (p, s)) (join-split b':' host_port)
