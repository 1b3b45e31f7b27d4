-- ===== src/Net/Prefix.antt =====
-- Netmask::match of common/iputils.hh compares by a mask; the tree walks by single bits. Here the
-- two are the same test.
use Prim.Native.Nat.{bit_and}
use native.Mathlib.Nat.{div-div-eq-div-mul, mul-div_left, zero-add}
use weakforced.Prelude.{
  ℕ, zero, suc, ◌+◌, ◌-◌, ◌*◌, ◌/◌, ◌%◌, ◌^◌, ◌≤◌, ◌<◌, Bool, true, ◌&&◌, List, [], ◌∷◌, ◌==◌, ◌≡◌,
  ◌↔◌, arith, refl, ap, sym, ◌∙◌, ==_iff, Bool-cases, inl, inr,
}
use weakforced.Net.Address.{ComboAddress, inet, is_ipv4, big_endian, address_bit, turns_from, turns}
use weakforced.Net.Address.Bits.{bit_and-ones, bit_and-shift, two_pow_suc, two_pow_pos, div-pow_suc}
use weakforced.Net.Mask.{Netmask, mask_of_bits, match4, matches}
use weakforced.Net.Tree.Walks.{path_eq}

-- Both sides of the mask, at every number of bits that an IPv4 mask can have.
masks_agree : ℕ → Bool
unfolding mask_of_bits
masks_agree zero = mask_of_bits zero == (2 ^ zero - 1) * 2 ^ 32
masks_agree (suc n) = (mask_of_bits (suc n) == (2 ^ suc n - 1) * 2 ^ (32 - suc n)) && masks_agree n

masks_agree_table : masks_agree 32 ≡ true
unfolding masks_agree
masks_agree_table = refl

masks_agree_sound :
    (n b : ℕ) → masks_agree n ≡ true → b ≤ n → mask_of_bits b ≡ (2 ^ b - 1) * 2 ^ (32 - b)
unfolding masks_agree
masks_agree_sound zero zero h le = (==_iff _ _).0 h
masks_agree_sound zero (suc b) h le = absurd (omega arith)
masks_agree_sound (suc n) b h le = elim (Bool-cases (b == suc n)) [
  | inl e ↦ rw ((==_iff b (suc n)).0 e) ((==_iff _ _).0 (ground arith))
  | inr e ↦ masks_agree_sound n b (ground arith) (ground arith)
]

mask_of_bits_lem : (b : ℕ) → b ≤ 32 → mask_of_bits b ≡ (2 ^ b - 1) * 2 ^ (32 - b)
mask_of_bits_lem b le = masks_agree_sound 32 b masks_agree_table le

div-pow_lt : (k n x : ℕ) → x < 2 ^ (n + k) → x / 2 ^ k < 2 ^ n
div-pow_lt zero n x h =
    let same : n + 0 ≡ n = omega arith in
    let whole : x / 2 ^ 0 ≡ x = omega arith in rw whole (rw same at h)
div-pow_lt (suc k) n x h =
    let more : n + suc k ≡ suc (n + k) = omega arith in
    rw (div-pow_suc k x)
      (div-pow_lt k n (x / 2) (omega (arith, ap (λ (t : ℕ). 2 ^ t) more, two_pow_suc (n + k))))

-- What the mask keeps of an IPv4 address.
bit_and-mask_of_bits :
    (b x : ℕ) → b ≤ 32 → x < 2 ^ 32 → bit_and x (mask_of_bits b) ≡ x / 2 ^ (32 - b) * 2 ^ (32 - b)
bit_and-mask_of_bits b x le lt =
    let all : b + (32 - b) ≡ 32 = omega arith in
    rw (mask_of_bits_lem b le, bit_and-shift (32 - b) x (2 ^ b - 1))
      (ap (λ (t : ℕ). t * 2 ^ (32 - b))
        (bit_and-ones b (x / 2 ^ (32 - b)) (div-pow_lt (32 - b) b x (rw all lt))))

mul-pow_cancel : (k x y : ℕ) → x * 2 ^ k ≡ y * 2 ^ k → x ≡ y
mul-pow_cancel k x y e =
    sym (mul-div_left x (two_pow_pos k))
    ∙ ap (λ (t : ℕ). t / 2 ^ k) e
    ∙ mul-div_left y (two_pow_pos k)

masked_eq_iff :
    (b x y : ℕ)
    → b ≤ 32
    → x < 2 ^ 32
    → y < 2 ^ 32
    → ((bit_and x (mask_of_bits b) == bit_and y (mask_of_bits b)) ≡ true)
      ↔ (x / 2 ^ (32 - b) ≡ y / 2 ^ (32 - b))
masked_eq_iff b x y le p q =
    rw (bit_and-mask_of_bits b x le p, bit_and-mask_of_bits b y le q)
      (
        λ h. mul-pow_cancel (32 - b) _ _ ((==_iff _ _).0 h),
        λ e. (==_iff _ _).1 (ap (λ (t : ℕ). t * 2 ^ (32 - b)) e),
      )

pow_split : (k : ℕ) → k < 32 → (x : ℕ) → x / 2 ^ (32 - k) ≡ x / 2 ^ (31 - k) / 2
pow_split k lt x =
    let next : 32 - k ≡ suc (31 - k) = omega arith in
    rw (next, two_pow_suc (31 - k)) (sym (div-div-eq-div-mul x (2 ^ (31 - k)) 2))

-- The turns of an IPv4 address, as the bits of its number.
number_turns : ℕ → ℕ → ℕ → List Bool
number_turns x k zero = []
number_turns x k (suc n) = (x / 2 ^ (31 - k) % 2 == 1) ∷ number_turns x (suc k) n

coarser : (d j x y : ℕ) → x / 2 ^ j ≡ y / 2 ^ j → x / 2 ^ (j + d) ≡ y / 2 ^ (j + d)
coarser zero j x y e = let same : j + 0 ≡ j = omega arith in rw same e
coarser (suc d) j x y e =
    let more : j + suc d ≡ suc (j + d) = omega arith in
    rw
      (
        more,
        two_pow_suc (j + d),
        ← div-div-eq-div-mul x (2 ^ (j + d)) 2,
        ← div-div-eq-div-mul y (2 ^ (j + d)) 2,
      )
      (ap (λ (t : ℕ). t / 2) (coarser d j x y e))

-- Once the prefixes of `k` bits agree, the next `n` turns agree exactly when the longer prefixes do.
agree_of_turns :
    (n k x y : ℕ)
    → k + n ≤ 32
    → x / 2 ^ (32 - k) ≡ y / 2 ^ (32 - k)
    → path_eq (number_turns x k n) (number_turns y k n) ≡ true
    → x / 2 ^ (32 - (k + n)) ≡ y / 2 ^ (32 - (k + n))
unfolding number_turns
agree_of_turns zero k x y le e h = let same : k + 0 ≡ k = omega arith in rw same e
agree_of_turns (suc n) k x y le e h =
    let next : 32 - suc k ≡ 31 - k = omega arith in
    let more : k + suc n ≡ suc k + n = omega arith in
    let step : x / 2 ^ (31 - k) ≡ y / 2 ^ (31 - k) =
      ground (arith, pow_split k (omega arith) x, pow_split k (omega arith) y) in
    rw more (agree_of_turns n (suc k) x y (omega arith) (rw next step) (ground arith))

turns_of_agree :
    (n k x y : ℕ)
    → k + n ≤ 32
    → x / 2 ^ (32 - (k + n)) ≡ y / 2 ^ (32 - (k + n))
    → path_eq (number_turns x k n) (number_turns y k n) ≡ true
unfolding number_turns
turns_of_agree zero k x y le e = refl
turns_of_agree (suc n) k x y le e =
    let more : k + suc n ≡ suc k + n = omega arith in
    let gap : 32 - (k + suc n) + n ≡ 31 - k = omega arith in
    let step : x / 2 ^ (31 - k) ≡ y / 2 ^ (31 - k) =
      rw gap at (coarser n (32 - (k + suc n)) x y e) in
    ground (arith, turns_of_agree n (suc k) x y (omega arith) (rw more at e))

turns_from-inet :
    (a : ComboAddress) (k n : ℕ)
    → a.family ≡ inet
    → turns_from a k n ≡ number_turns (big_endian a.bytes) k n
unfolding turns_from number_turns address_bit is_ipv4
turns_from-inet a k zero e = refl
turns_from-inet a k (suc n) e = ground (arith, turns_from-inet a (suc k) n)

matches-inet :
    (nm : Netmask) (ip : ComboAddress)
    → nm.network.family ≡ inet
    → ip.family ≡ inet
    → nm.mask ≡ mask_of_bits nm.bits
    → matches nm ip ≡ (
        bit_and (big_endian ip.bytes) (mask_of_bits nm.bits)
        == bit_and (big_endian nm.network.bytes) (mask_of_bits nm.bits))
unfolding matches match4 is_ipv4
matches-inet nm ip e f m = rw (← m) (ground arith)

-- For an IPv4 network of at most 32 bits, with the mask of its bits, Netmask::match accepts an IPv4
-- address exactly when the first turns of its walk are the network's. Both addresses are 32-bit numbers.
pub matches-path_eq :
    (nm : Netmask) (ip : ComboAddress)
    → nm.network.family ≡ inet
    → ip.family ≡ inet
    → nm.bits ≤ 32
    → nm.mask ≡ mask_of_bits nm.bits
    → big_endian nm.network.bytes < 2 ^ 32
    → big_endian ip.bytes < 2 ^ 32
    → (matches nm ip ≡ true) ↔ (path_eq (turns nm.network nm.bits) (turns ip nm.bits) ≡ true)
matches-path_eq nm ip e f le m p q =
    let x = big_endian ip.bytes in
    let y = big_endian nm.network.bytes in
    let start : y / 2 ^ (32 - 0) ≡ x / 2 ^ (32 - 0) = omega arith in
    rw
      (
        matches-inet nm ip e f m,
        turns_from-inet nm.network 0 nm.bits e,
        turns_from-inet ip 0 nm.bits f,
      )
      (
        λ h.
            turns_of_agree nm.bits 0 y x (omega arith)
              (sym (rw zero-add ((masked_eq_iff nm.bits x y le q p).0 h))),
        λ h.
            (masked_eq_iff nm.bits x y le q p).1
              (sym (rw zero-add at (agree_of_turns nm.bits 0 y x (omega arith) start h))),
      )
