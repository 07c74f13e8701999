-- ===== src/Pagination.antt =====
-- share/query/pagination.go: the page of a list that a request asks for. An int is 64 bits wide and
-- its sum wraps around. The error messages are constructors.
pub mod Bounds
use openrport.Prelude.{
  ℕ, zero, suc, ◌+◌, ◌-◌, ◌*◌, ◌/◌, ◌%◌, ◌^◌, Bool, true, false, not, ◌&&◌, List, [], ◌∷◌, ◌++◌,
  Option, none, some, ltb, leb, if◌then◌else◌, ◌==◌, nat_eq,
}
use openrport.Prelude.Int.{ℤ, pos, negsuc}
use openrport.Strings.{Text, text_eq}

abbrev pub modulus : ℕ
modulus = 2 ^ 64

abbrev pub half : ℕ
half = 2 ^ 63

-- The integer that 64 bits stand for.
abbrev pub from_bits : ℕ → ℤ
from_bits n = let m = n % modulus in if ltb m half then pos m else negsuc (modulus - 1 - m)

abbrev pub to_bits : ℤ → ℕ
to_bits (pos n) = n % modulus
to_bits (negsuc n) = modulus - 1 - n % modulus

-- Go's + on int
abbrev pub add_int : ℤ → ℤ → ℤ
add_int a b = from_bits (to_bits a + to_bits b)

-- Go's < on int
abbrev pub less : ℤ → ℤ → Bool
less (pos a) (pos b) = ltb a b
less (pos a) (negsuc b) = false
less (negsuc a) (pos b) = true
less (negsuc a) (negsuc b) = ltb b a

-- strconv.Itoa of an integer that is not negative; `fuel` bounds the number of digits.
abbrev pub digits : ℕ → ℕ → Text
digits zero n = []
digits (suc fuel) n =
    let front = digits fuel (n / 10) in
    if ltb n 10 then (48 + n) ∷ [] else front ++ ((48 + n % 10) ∷ [])

abbrev pub itoa : ℤ → Text
itoa (pos n) = digits (suc n) n
itoa (negsuc n) = b'-' ∷ digits (suc (suc n)) (suc n)

abbrev is_digit : ℕ → Bool
is_digit c = leb 48 c && leb c 57

abbrev pub value_of : ℕ → Text → Option ℕ
value_of acc [] = some acc
value_of acc (c ∷ s) = if is_digit c then value_of (acc * 10 + (c - 48)) s else none

abbrev pub unsigned : Text → Option ℕ
unsigned [] = none
unsigned (c ∷ s) = value_of 0 (c ∷ s)

-- The number that strconv.Atoi returns, and whether it returns an error with it.
abbrev pub Parsed : Type 0
Parsed = ℤ × Bool

abbrev positive_number : Option ℕ → Parsed
positive_number none = (pos 0, true)
positive_number (some n) = if ltb n half then (pos n, false) else (pos (half - 1), true)

abbrev negative_number : Option ℕ → Parsed
negative_number none = (pos 0, true)
negative_number (some zero) = (pos 0, false)
negative_number (some (suc n)) = if ltb n half then (negsuc n, false) else (negsuc (half - 1), true)

abbrev pub atoi : Text → Parsed
atoi [] = (pos 0, true)
atoi (c ∷ s) =
    if c == b'-'
    then negative_number (unsigned s)
    else (if c == b'+' then positive_number (unsigned s) else positive_number (unsigned (c ∷ s)))

pub record Pagination : Type 0 where
  pub limit : Text
  pub offset : Text
  pub validated_limit : ℤ
  pub validated_offset : ℤ

pub record PaginationConfig : Type 0 where
  pub max_limit : ℤ
  pub default_limit : ℤ

pub data PaginationError : Type 0 where
  limit_not_a_number limit_too_big limit_not_positive : PaginationError
  offset_not_a_number offset_negative : PaginationError

abbrev when : Bool → PaginationError → List PaginationError
when true e = e ∷ []
when false e = []

unfoldable pub limit_errors : Parsed → PaginationConfig → List PaginationError
limit_errors (n, true) config = limit_not_a_number ∷ []
limit_errors (n, false) config =
    when (less config.max_limit n) limit_too_big ++ when (not (less (pos 0) n)) limit_not_positive

unfoldable pub offset_errors : Parsed → List PaginationError
offset_errors (n, true) = offset_not_a_number ∷ []
offset_errors (n, false) = when (less n (pos 0)) offset_negative

abbrev default_to : Text → Text → Text
default_to default [] = default
default_to default (c ∷ s) = c ∷ s

-- The pagination as ValidatePagination leaves it, and the errors it returns, none for nil.
unfoldable pub validate_pagination :
    Pagination → PaginationConfig → Pagination × List PaginationError
unfolding limit_errors offset_errors
validate_pagination p config =
    let limit_text = default_to (itoa config.default_limit) p.limit in
    let limit = atoi limit_text in
    let offset = atoi p.offset in
    (
      record p { limit = limit_text; validated_limit = limit.0; validated_offset = offset.0 },
      limit_errors limit config ++ offset_errors offset,
    )

abbrev at_most : ℤ → ℤ → ℤ
at_most bound n = if less bound n then bound else n

unfoldable pub get_start_end : Pagination → ℕ → ℤ × ℤ
get_start_end p total_count = (
  at_most (pos total_count) p.validated_offset,
  at_most (pos total_count) (add_int p.validated_offset p.validated_limit),
)
