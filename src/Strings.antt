-- ===== src/Strings.antt =====
-- The functions of Go's package strings that the program walks its texts with, over lists of bytes.
pub mod Search
pub mod Decimal
use openrport.Prelude.{
  ℕ, zero, suc, ◌+◌, ◌-◌, Bool, true, false, ◌&&◌, ◌||◌, all, List, [], ◌∷◌, Option, none, some,
  ◌==◌, nat_eq, leb, if◌then◌else◌, length, drop, list_beq, list_beq_iff, HasEq,
}

abbrev pub Text : Type 0
Text = List ℕ

instance abbrev pub text_eq : HasEq Text
text_eq = record { is_equal = list_beq; equal_iff = list_beq_iff }

unfoldable pub has_prefix : Text → Text → Bool
has_prefix s [] = true
has_prefix [] (p ∷ ps) = false
has_prefix (c ∷ s) (p ∷ ps) = c == p && has_prefix s ps

unfoldable pub has_suffix : Text → Text → Bool
has_suffix s suffix =
    leb (length suffix) (length s) && list_beq (drop (length s - length suffix) s) suffix

abbrev next_index : Option ℕ → Option ℕ
next_index none = none
next_index (some i) = some (suc i)

-- strings.Index, `none` for -1
unfoldable pub index : Text → Text → Option ℕ
index [] sub = if has_prefix [] sub then some 0 else none
index (c ∷ s) sub =
    let later = index s sub in if has_prefix (c ∷ s) sub then some 0 else next_index later

abbrev head_part : ℕ → List Text → List Text
head_part c [] = (c ∷ []) ∷ []
head_part c (p ∷ ps) = (c ∷ p) ∷ ps

-- strings.Split by one byte: always one part at least
unfoldable pub split : ℕ → Text → List Text
split sep [] = [] ∷ []
split sep (c ∷ s) = let rest = split sep s in if c == sep then [] ∷ rest else head_part c rest

unfoldable pub contains_byte : ℕ → Text → Bool
contains_byte b [] = false
contains_byte b (c ∷ s) = let rest = contains_byte b s in if c == b then true else rest

-- The blanks of ASCII; a text is a list of bytes here, and wider blanks are not among them.
abbrev pub is_space : ℕ → Bool
is_space c = c == 32 || (leb 9 c && leb c 13)

-- `strings.TrimSpace(s) == ""`
unfoldable pub is_blank : Text → Bool
is_blank s = all is_space s
