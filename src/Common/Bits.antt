-- ===== src/Common/Bits.antt =====
-- `|` of numbers with no common bit is `+`; facts about one byte are tables checked by evaluation.
use Prim.Native.Nat.{
  ℕ, zero, suc, ◌+◌, ◌*◌, ◌/◌, ◌%◌, ◌^◌, ◌≤◌, ◌<◌, max, min, bit_and, bit_and-bitwise, bit_or,
  digits, bit_or-bitwise, compare, Ordering,
}
use mathlib.Core.Path.{◌≡◌, refl, ap, ◌∙◌}
use mathlib.Core.Bool.{Bool, true, false, ◌&&◌, ◌||◌, not, cond}
use mathlib.Core.Logic.{◌≢◌, ◌⊎◌, inl, inr}
use native.Mathlib.Omega.{arith}
use native.Mathlib.Nat.{pow-suc}

-- The test answers true for every number below the bound.
pub all_below : ℕ → (ℕ → Bool) → Bool
all_below zero test = true
all_below (suc bound) test = test bound && all_below bound test

pub all_below_sound :
    (bound : ℕ) (test : ℕ → Bool) (i : ℕ) → all_below bound test ≡ true → i < bound → test i ≡ true
unfolding all_below
all_below_sound zero test i all lt = absurd (omega arith)
all_below_sound (suc bound) test i all lt = ground (arith, all_below_sound bound test i)

abbrev or_digits : (fuel x y : ℕ) → ℕ
or_digits fuel x y = digits (λ t. t) max fuel x y

-- More fuel changes nothing.
or_digits_fuel : (f g x y : ℕ) → x ≤ f → x ≤ g → or_digits f x y ≡ or_digits g x y
or_digits_fuel zero zero x y l r = refl
or_digits_fuel (suc f) zero zero y l r = refl
or_digits_fuel (suc f) zero (suc x) y l r = absurd (omega arith)
or_digits_fuel zero (suc g) zero y l r = refl
or_digits_fuel zero (suc g) (suc x) y l r = absurd (omega arith)
or_digits_fuel (suc f) (suc g) zero y l r = refl
or_digits_fuel (suc f) (suc g) (suc x) y l r =
    let halved = or_digits_fuel f g (suc x / 2) (y / 2) (omega arith) (omega arith) in
    omega (arith, halved)

pub zero-bit_or : (b : ℕ) → bit_or 0 b ≡ b
zero-bit_or b = bit_or-bitwise 0 b

bit_or_step : (x y : ℕ) → bit_or x y ≡ bit_or (x / 2) (y / 2) * 2 + max (x % 2) (y % 2)
bit_or_step zero y = omega (arith, zero-bit_or y, zero-bit_or (y / 2))
bit_or_step (suc x) y =
    let halved = or_digits_fuel x (suc x / 2) (suc x / 2) (y / 2) (omega arith) (omega arith) in
    omega (arith, halved, bit_or-bitwise (suc x) y, bit_or-bitwise (suc x / 2) (y / 2))

double_shift : (q k : ℕ) → q * 2 ^ suc k ≡ 2 * (q * 2 ^ k)
double_shift q k = omega (arith, ap (λ (t : ℕ). q * t) (pow-suc 2 k))

-- `r | q << k` is a sum when `r` fits in `k` bits.
pub bit_or-shift : (k r q : ℕ) → r < 2 ^ k → bit_or r (q * 2 ^ k) ≡ r + q * 2 ^ k
bit_or-shift zero r q h =
    let e : r ≡ 0 = omega arith in rw (e, zero-bit_or (q * 2 ^ 0)) (omega arith)
bit_or-shift (suc k) r q h = ground (
  arith,
  bit_or_step r (q * 2 ^ suc k),
  double_shift q k,
  pow-suc 2 k,
  bit_or-shift k (r / 2) q (omega (arith, pow-suc 2 k)),
)

unfoldable pub bit_of : ℕ → ℕ → ℕ
bit_of b l = b / 2 ^ l % 2

same_number : ℕ → ℕ → Bool
same_number a b = elim (compare a b) [ Ordering.eq ↦ true | _ ↦ false ]

same_number_sound : (a b : ℕ) → same_number a b ≡ true → a ≡ b
unfolding same_number
same_number_sound a b h = ground arith

below : ℕ → ℕ → Bool
below a b = elim (compare a b) [ Ordering.lt ↦ true | _ ↦ false ]

below_sound : (a b : ℕ) → below a b ≡ true → a < b
unfolding below
below_sound a b h = ground arith

-- What bit l of `b | 1 << k` is.
set_bit_row : ℕ → ℕ → ℕ → Bool
unfolding bit_of same_number
set_bit_row b k l =
    same_number (bit_of (bit_or b (2 ^ k % 256)) l) (cond (same_number k l) 1 (bit_of b l))

set_bit_table : all_below 256 (λ b. all_below 8 λ k. all_below 8 λ l. set_bit_row b k l) ≡ true
unfolding all_below set_bit_row
set_bit_table = refl

set_bit_byte_table : all_below 256 (λ b. all_below 8 λ k. below (bit_or b (2 ^ k % 256)) 256) ≡ true
unfolding all_below below
set_bit_byte_table = refl

pub set_bit-lt : (b k : ℕ) → b < 256 → k < 8 → bit_or b (2 ^ k % 256) < 256
set_bit-lt b k hb hk = below_sound _ _ (
    all_below_sound 8 (λ k. below (bit_or b (2 ^ k % 256)) 256) k
      (all_below_sound 256 _ b set_bit_byte_table hb) hk)

set_bit_at :
    (b k l : ℕ)
    → b < 256
    → k < 8
    → l < 8
    → bit_of (bit_or b (2 ^ k % 256)) l ≡ cond (same_number k l) 1 (bit_of b l)
unfolding set_bit_row
set_bit_at b k l hb hk hl = same_number_sound _ _ (
    all_below_sound 8 (λ l. set_bit_row b k l) l
      (all_below_sound 8 (λ k. all_below 8 λ l. set_bit_row b k l) k
        (all_below_sound 256 _ b set_bit_table hb) hk)
      hl)

pub set_bit_self : (b k : ℕ) → b < 256 → k < 8 → bit_of (bit_or b (2 ^ k % 256)) k ≡ 1
unfolding same_number
set_bit_self b k hb hk = ground (arith, set_bit_at b k k hb hk hk)

pub set_bit_ne :
    (b k l : ℕ) → b < 256 → k < 8 → l < 8 → k ≢ l → bit_of (bit_or b (2 ^ k % 256)) l ≡ bit_of b l
unfolding same_number
set_bit_ne b k l hb hk hl ne = ground (arith, set_bit_at b k l hb hk hl)

-- The bits from r on are clear.
high_clear : ℕ → ℕ → Bool
high_clear b r = all_below 8 λ l. below l r || same_number (bit_of b l) 0

mask_row : ℕ → ℕ → Bool
mask_row b r = not (high_clear b r) || same_number (bit_and b (0xff * 2 ^ r % 256)) 0

mask_table : all_below 256 (λ b. all_below 8 λ r. mask_row b r) ≡ true
unfolding all_below mask_row high_clear bit_of same_number below
mask_table = refl

all_below_complete : (n : ℕ) (p : ℕ → Bool) → ((x : ℕ) → x < n → p x ≡ true) → all_below n p ≡ true
unfolding all_below
all_below_complete zero p h = refl
all_below_complete (suc n) p h =
    rw (h n (omega arith), all_below_complete n p (λ x l. h x (omega arith)))

high_clear_complete : (b r : ℕ) → ((l : ℕ) → r ≤ l → l < 8 → bit_of b l ≡ 0) → high_clear b r ≡ true
unfolding high_clear
high_clear_complete b r h = all_below_complete 8 _ λ l m. one l m
  where
    one : (l : ℕ) → l < 8 → (below l r || same_number (bit_of b l) 0) ≡ true
    one l m = elim (first_or_not l) [
      | inl lt ↦ unfold below in ground arith
      | inr ge ↦ rw (h l ge m) (unfold below same_number in ground arith)
    ]
      where
        first_or_not : (l : ℕ) → (l < r) ⊎ (r ≤ l)
        first_or_not l = omega arith

-- A mask of the bits from r on finds none set where they are clear.
pub bit_and-high_mask :
    (b r : ℕ)
    → b < 256
    → r < 8
    → ((l : ℕ) → r ≤ l → l < 8 → bit_of b l ≡ 0)
    → bit_and b (0xff * 2 ^ r % 256) ≡ 0
unfolding mask_row
bit_and-high_mask b r hb hr h = same_number_sound _ _ (
    drop_premise (high_clear b r) _ (high_clear_complete b r h)
      (all_below_sound 8 (λ r. mask_row b r) r (all_below_sound 256 _ b mask_table hb) hr))
  where
    drop_premise : (p q : Bool) → p ≡ true → (not p || q) ≡ true → q ≡ true
    drop_premise p q e f = ground arith

and_digits-zero : (n a : ℕ) → digits (λ b. zero) min n a zero ≡ 0
and_digits-zero zero a = refl
and_digits-zero (suc n) zero = refl
and_digits-zero (suc n) (suc a) = omega (arith, and_digits-zero n (suc a / 2))

pub bit_and-zero : (a : ℕ) → bit_and a 0 ≡ 0
bit_and-zero a = bit_and-bitwise a 0 ∙ and_digits-zero a a
