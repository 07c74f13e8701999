-- ===== src/Strings/Decimal.antt =====
-- strconv.Itoa and strconv.Atoi, for 64-bit numbers.
use openrport.Prelude.{
  ℕ, zero, suc, ◌+◌, ◌-◌, ◌*◌, ◌/◌, ◌%◌, ◌^◌, ◌<◌, ◌≡◌, refl, Bool, true, ◌&&◌, [], ◌∷◌, ◌++◌,
  Option, none, some, ◌==◌, nat_eq, leb, ltb, if◌then◌else◌, arith, Bool-cases, inl, inr,
}
use openrport.Prelude.Int.{ℤ, pos, negsuc}
use Prim.Native.Nat.pow
use openrport.Strings.{Text}

abbrev pub is_digit : ℕ → Bool
is_digit c = leb b'0' c && leb c b'9'

-- The digits of a number, at most as many as the fuel. A 64-bit number has at most 20.
unfoldable pub digits : ℕ → ℕ → Text
digits zero n = []
digits (suc fuel) n =
    let more = digits fuel (n / 10) in
    if ltb n 10 then (b'0' + n) ∷ [] else more ++ ((b'0' + n % 10) ∷ [])

unfoldable pub itoa : ℕ → Text
unfolding digits
itoa n = digits 20 n

-- The number that digits stand for, read behind the number of those in front.
unfoldable pub value_from : ℕ → Text → Option ℕ
value_from n [] = some n
value_from n (c ∷ s) =
    let rest = value_from (n * 10 + (c - b'0')) s in if is_digit c then rest else none

abbrev nonempty_value : Text → Option ℕ
nonempty_value [] = none
nonempty_value (c ∷ s) = value_from 0 (c ∷ s)

abbrev in_range : ℕ → Option ℕ → Option ℕ
in_range bound none = none
in_range bound (some n) = if ltb n bound then some n else none

abbrev negative : ℕ → ℤ
negative zero = pos 0
negative (suc n) = negsuc n

abbrev signed : (ℕ → ℤ) → Option ℕ → Option ℤ
signed f none = none
signed f (some n) = some (f n)

-- An optional sign, digits, and a number that fits into an int.
unfoldable pub atoi : Text → Option ℤ
unfolding value_from
atoi [] = none
atoi (c ∷ s) =
    if c == b'-'
    then signed negative (in_range (2 ^ 63 + 1) (nonempty_value s))
    else signed pos
        (in_range (2 ^ 63) (if c == b'+' then nonempty_value s else nonempty_value (c ∷ s)))

value_from-append :
    (n : ℕ) (s : Text) (c m : ℕ)
    → value_from n s ≡ some m
    → is_digit c ≡ true
    → value_from n (s ++ (c ∷ [])) ≡ some (m * 10 + (c - b'0'))
unfolding value_from
value_from-append n [] c m h d = ground (arith, h, d)
value_from-append n (x ∷ s) c m h d =
    ground (arith, h, d, value_from-append (n * 10 + (x - b'0')) s c m)

tenth_lt : (k n : ℕ) → n < 10 ^ suc k → n / 10 < 10 ^ k
tenth_lt k n h = omega (arith, h, pow.suc 10 k)

last_digit :
    (n : ℕ) → (is_digit (b'0' + n % 10) ≡ true) × (n / 10 * 10 + ((b'0' + n % 10) - b'0') ≡ n)
last_digit n = ground arith

value_from-digits : (fuel n : ℕ) → n < 10 ^ suc fuel → value_from 0 (digits (suc fuel) n) ≡ some n
unfolding value_from digits
value_from-digits zero n h = ground (arith, h)
value_from-digits (suc fuel) n h = elim (Bool-cases (ltb n 10)) [
  | inl small ↦ ground (arith, small)
  | inr large ↦ ground (
    arith,
    large,
    last_digit n,
    value_from-append 0 (digits (suc fuel) (n / 10)) (b'0' + n % 10) (n / 10)
        (value_from-digits fuel (n / 10) (tenth_lt (suc fuel) n h)) ((last_digit n).0),
  )
]

append_nonempty : (s : Text) (c : ℕ) → ¬ (s ++ (c ∷ []) ≡ [])
append_nonempty [] c h = cc
append_nonempty (x ∷ s) c h = cc

digits_nonempty : (fuel n : ℕ) → ¬ (digits (suc fuel) n ≡ [])
unfolding digits
digits_nonempty fuel n h = elim (Bool-cases (ltb n 10)) [
  | inl small ↦ ground (arith, small, h)
  | inr large ↦ append_nonempty (digits fuel (n / 10)) (b'0' + n % 10) (ground (arith, large, h))
]

atoi_unsigned :
    (s : Text) (n : ℕ) → ¬ (s ≡ []) → value_from 0 s ≡ some n → n < 2 ^ 63 → atoi s ≡ some (pos n)
unfolding atoi value_from
atoi_unsigned [] n h v b = absurd (h refl)
atoi_unsigned (c ∷ s) n h v b = ground (arith, v, b)

-- Reading the digits of a 64-bit number yields the number.
pub atoi-itoa : (n : ℕ) → n < 2 ^ 63 → atoi (itoa n) ≡ some (pos n)
unfolding itoa
atoi-itoa n h =
    atoi_unsigned (digits 20 n) n (digits_nonempty 19 n) (value_from-digits 19 n (omega (arith, h)))
      h

pub itoa_injective : (m n : ℕ) → m < 2 ^ 63 → n < 2 ^ 63 → itoa m ≡ itoa n → m ≡ n
itoa_injective m n hm hn e = ground (arith, atoi-itoa m hm, atoi-itoa n hn, e)
