-- ===== src/Stats/Member.antt =====
-- TWStatsMember of common/twmap.hh and its three classes: what one window of a field holds. An int
-- is its 32-bit pattern. The sketches stand in libraries that the repository carries (HyperLogLog
-- and count-min), and are parameters.
use weakforced.Prelude.{
  ℕ, ◌+◌, ◌-◌, ◌*◌, ◌/◌, ◌%◌, ◌^◌, Option, none, some, List, [], ◌∷◌, Str, str, str_eq,
  if◌then◌else◌,
}

abbrev pub int_mod : ℕ
int_mod = 0x100000000

-- The calls of the sketches, of std::stoi (`none` where it throws) and of std::to_string.
pub record Sketches : Type 1 where
  pub Hll : Type 0
  pub hll_new : Hll
  pub hll_add : Str → Hll → Hll
  pub hll_estimate : Hll → ℕ
  pub hll_clear : Hll → Hll
  pub hll_merge : Hll → Hll → Hll
  pub hll_dump : Hll → Str
  pub hll_restore : Str → Hll → Hll
  pub CountMin : Type 0
  pub cm_new : CountMin
  pub cm_update : Str → ℕ → CountMin → CountMin
  pub cm_total : CountMin → ℕ
  pub cm_estimate : Str → CountMin → ℕ
  pub cm_erase : CountMin → CountMin
  pub cm_dump : CountMin → Str
  pub cm_restore : Str → CountMin → CountMin
  pub stoi : Str → Option ℕ
  pub to_string : ℕ → Str

-- htonl, and ntohl of what a stream gives, short reads leaving zeros.
unfoldable pub to_bytes : ℕ → Str
to_bytes i = i / 2 ^ 24 % 256 ∷ i / 2 ^ 16 % 256 ∷ i / 2 ^ 8 % 256 ∷ i % 256 ∷ []

unfoldable pub of_bytes : Str → ℕ
of_bytes (a ∷ b ∷ c ∷ d ∷ rest) = ((a * 256 + b) * 256 + c) * 256 + d
of_bytes (a ∷ b ∷ c ∷ []) = ((a * 256 + b) * 256 + c) * 256
of_bytes (a ∷ b ∷ []) = (a * 256 + b) * 2 ^ 16
of_bytes (a ∷ []) = a * 2 ^ 24
of_bytes [] = 0

pub data Member (k : Sketches) : Type 0 where
  int_member : ℕ → Member k
  hll_member : k.Hll → Member k
  countmin_member : k.CountMin → Member k

module _ {k : Sketches} where
  -- An int that overflows, which is undefined in the source, wraps around; so in the next ones.
  unfoldable pub add_int : ℕ → Member k → Member k
  add_int a (int_member i) = int_member ((i + a) % int_mod)
  add_int a (hll_member h) = hll_member (k.hll_add (k.to_string a) h)
  add_int a (countmin_member c) = countmin_member c

  int_or_throw : Option ℕ → (ℕ → ℕ) → Option (Member k)
  int_or_throw none f = none
  int_or_throw (some a) f = some (int_member (f a))

  -- `none` is the exception of std::stoi.
  unfoldable pub add_str : Str → Member k → Option (Member k)
  unfolding int_or_throw
  add_str s (int_member i) = int_or_throw (k.stoi s) (λ a. (i + a) % int_mod)
  add_str s (hll_member h) = some (hll_member (k.hll_add s h))
  add_str s (countmin_member c) = some (countmin_member (k.cm_update s 1 c))

  unfoldable pub add_pair : Str → ℕ → Member k → Member k
  add_pair s a (int_member i) = int_member i
  add_pair s a (hll_member h) = hll_member h
  add_pair s a (countmin_member c) = countmin_member (k.cm_update s a c)

  unfoldable pub sub_int : ℕ → Member k → Member k
  sub_int a (int_member i) = int_member ((i + int_mod - a) % int_mod)
  sub_int a (hll_member h) = hll_member h
  sub_int a (countmin_member c) = countmin_member c

  unfoldable pub sub_str : Str → Member k → Option (Member k)
  unfolding int_or_throw
  sub_str s (int_member i) = int_or_throw (k.stoi s) (λ a. (i + int_mod - a) % int_mod)
  sub_str s (hll_member h) = some (hll_member h)
  sub_str s (countmin_member c) = some (countmin_member c)

  unfoldable pub get : Member k → ℕ
  get (int_member i) = i
  get (hll_member h) = k.hll_estimate h
  get (countmin_member c) = k.cm_total c

  -- Reading a HyperLogLog for a text adds the text to it.
  unfoldable pub get_str : Str → Member k → Member k × ℕ
  get_str s (int_member i) = (int_member i, i)
  get_str s (hll_member h) = (hll_member (k.hll_add s h), k.hll_estimate (k.hll_add s h))
  get_str s (countmin_member c) = (countmin_member c, k.cm_estimate s c)

  unfoldable pub set_int : ℕ → Member k → Member k
  set_int a (int_member i) = int_member a
  set_int a (hll_member h) = hll_member h
  set_int a (countmin_member c) = countmin_member c

  unfoldable pub set_str : Str → Member k → Member k
  set_str s (int_member i) = int_member i
  set_str s (hll_member h) = hll_member (k.hll_add s (k.hll_clear h))
  set_str s (countmin_member c) = countmin_member c

  unfoldable pub erase_member : Member k → Member k
  erase_member (int_member i) = int_member 0
  erase_member (hll_member h) = hll_member (k.hll_clear h)
  erase_member (countmin_member c) = countmin_member (k.cm_erase c)

  -- The sums over the windows, as 32-bit additions from 0.
  unfoldable pub sum_from : ℕ → List (ℕ × Member k) → ℕ
  unfolding get
  sum_from count [] = count
  sum_from count ((t, m) ∷ vec) = sum_from ((count + get m) % int_mod) vec

  unfoldable pub sum_str_from : Str → ℕ → List (ℕ × Member k) → ℕ
  unfolding get_str
  sum_str_from s count [] = count
  sum_str_from s count ((t, m) ∷ vec) = sum_str_from s ((count + (get_str s m).1) % int_mod) vec

  -- All windows of a field are of one class, so the cast of the source does not fail.
  merge_member : k.Hll → Member k → k.Hll
  merge_member acc (hll_member h) = k.hll_merge acc h
  merge_member acc _ = acc

  unfoldable pub merge_from : k.Hll → List (ℕ × Member k) → k.Hll
  unfolding merge_member
  merge_from acc [] = acc
  merge_from acc ((t, m) ∷ vec) = merge_from (merge_member acc m) vec

  unfoldable pub sum : Member k → List (ℕ × Member k) → ℕ
  unfolding sum_from merge_from
  sum (int_member i) vec = sum_from 0 vec
  sum (hll_member h) vec = k.hll_estimate (merge_from k.hll_new vec)
  sum (countmin_member c) vec = sum_from 0 vec

  unfoldable pub sum_str : Str → Member k → List (ℕ × Member k) → ℕ
  unfolding sum_str_from
  sum_str s (int_member i) vec = 0
  sum_str s (hll_member h) vec = 0
  sum_str s (countmin_member c) vec = sum_str_from s 0 vec

  unfoldable pub dump : Member k → Str
  unfolding to_bytes
  dump (int_member i) = to_bytes i
  dump (hll_member h) = k.hll_dump h
  dump (countmin_member c) = k.cm_dump c

  unfoldable pub restore : Str → Member k → Member k
  unfolding of_bytes
  restore s (int_member i) = int_member (of_bytes s)
  restore s (hll_member h) = hll_member (k.hll_restore s h)
  restore s (countmin_member c) = countmin_member (k.cm_restore s c)

-- TWStatsTypeMap: the classes by their names.
unfoldable pub create : (k : Sketches) → Str → Option (Member k)
create k name =
    if str_eq name (str "int")
    then some (int_member 0)
    else if str_eq name (str "hll")
    then some (hll_member k.hll_new)
    else if str_eq name (str "countmin")
    then some (countmin_member k.cm_new)
    else none
