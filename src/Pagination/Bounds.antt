-- ===== src/Pagination/Bounds.antt =====
-- share/query/pagination.go: which pages are accepted and what part of a list they stand for.
use openrport.Prelude.{
  ℕ, zero, suc, ◌+◌, ◌-◌, ◌*◌, ◌/◌, ◌%◌, ◌≤◌, ◌<◌, ◌≡◌, refl, sym, subst, ◌↔◌, inl, inr, Bool, true,
  false, List, [], ◌∷◌, ◌++◌, some, arith, ltb, if◌then◌else◌, Bool-cases, nat_eq,
}
use openrport.Prelude.Int.{ℤ, pos, negsuc}
use openrport.Strings.{Text}
use openrport.Pagination.{
  Parsed, Pagination, PaginationConfig, validate_pagination, limit_errors, offset_errors,
  get_start_end, half, modulus, add_int, less, at_most, atoi, itoa, digits, value_of, default_to,
}

add_int_below : (a b : ℕ) → a + b < half → add_int (pos a) (pos b) ≡ pos (a + b)
add_int_below a b h = ground arith

add_int_over :
    (a b : ℕ)
    → a < half
    → b < half
    → half ≤ a + b
    → add_int (pos a) (pos b) ≡ negsuc (modulus - 1 - (a + b))
add_int_over a b ha hb h = ground arith

abbrev clip : ℕ → ℕ → ℕ
clip total n = if ltb total n then total else n

at_most-clip : (total n : ℕ) → at_most (pos total) (pos n) ≡ pos (clip total n)
at_most-clip total n = ground arith

-- A page whose offset and limit have a sum of less than 2^63 stands for the part of the list from
-- the offset to the sum, both cut off at the list's end: a part of at most the limit's length.
get_start_end_lem :
    (p : Pagination) (total l o : ℕ)
    → p.validated_limit ≡ pos l
    → p.validated_offset ≡ pos o
    → o + l < half
    → (get_start_end p total ≡ (pos (clip total o), pos (clip total (o + l))))
      × clip total o ≤ clip total (o + l)
      × clip total (o + l) ≤ total
      × clip total (o + l) - clip total o ≤ l
unfolding get_start_end
get_start_end_lem p total l o hl ho h = (
  rw (hl, ho, add_int_below o l h, at_most-clip total o, at_most-clip total (o + l)) refl,
  ground arith,
  ground arith,
  ground arith,
)

-- A page whose offset and limit, each below 2^63, together reach it ends before it starts, in front
-- of the list.
pub get_start_end_overflow :
    (p : Pagination) (total l o : ℕ)
    → p.validated_limit ≡ pos l
    → p.validated_offset ≡ pos o
    → l < half
    → o < half
    → half ≤ o + l
    → ((get_start_end p total).0 ≡ pos (clip total o))
      × (less ((get_start_end p total).1) (pos 0) ≡ true)
unfolding get_start_end
get_start_end_overflow p total l o hl ho bl bo h =
    rw (hl, ho, add_int_over o l bo bl h, at_most-clip total o) (refl, refl)

limit_errors_none :
    (n : ℤ) (failed : Bool) (config : PaginationConfig)
    → (limit_errors (n, failed) config ≡ [])
      ↔ ((failed ≡ false) × (less (pos 0) n ≡ true) × (less config.max_limit n ≡ false))
unfolding limit_errors
limit_errors_none n true config = ground arith
limit_errors_none n false config = ground arith

offset_errors_none :
    (n : ℤ) (failed : Bool)
    → (offset_errors (n, failed) ≡ []) ↔ ((failed ≡ false) × (less n (pos 0) ≡ false))
unfolding offset_errors
offset_errors_none n true = ground arith
offset_errors_none n false = ground arith

append_nil : {A : Type 0} (xs ys : List A) → (xs ++ ys ≡ []) ↔ ((xs ≡ []) × (ys ≡ []))
append_nil [] ys = ground arith
append_nil (x ∷ xs) ys = ground arith

no_errors :
    (limit offset : Parsed) (config : PaginationConfig)
    → (limit_errors limit config ++ offset_errors offset ≡ []) ↔ (
        (limit.1 ≡ false)
        × (less (pos 0) (limit.0) ≡ true)
        × (less config.max_limit (limit.0) ≡ false)
        × (offset.1 ≡ false)
        × (less (offset.0) (pos 0) ≡ false))
no_errors (l, lf) (o, of) config = ground (
  arith,
  append_nil (limit_errors (l, lf) config) (offset_errors (o, of)),
  limit_errors_none l lf config,
  offset_errors_none o of,
)

-- A pagination is accepted exactly if the limit, the default where none is given, is a number above
-- zero and not above the maximum, and the offset is a number that is not negative; the validated
-- numbers are those two.
pub validate_pagination_lem :
    (p : Pagination) (config : PaginationConfig)
    → let limit = atoi (default_to (itoa config.default_limit) p.limit) in
      let offset = atoi p.offset in
      (((validate_pagination p config).1 ≡ []) ↔ (
        (limit.1 ≡ false)
        × (less (pos 0) (limit.0) ≡ true)
        × (less config.max_limit (limit.0) ≡ false)
        × (offset.1 ≡ false)
        × (less (offset.0) (pos 0) ≡ false)))
      × ((validate_pagination p config).0.validated_limit ≡ limit.0)
      × ((validate_pagination p config).0.validated_offset ≡ offset.0)
unfolding validate_pagination
validate_pagination_lem p config = (
  no_errors (atoi (default_to (itoa config.default_limit) p.limit)) (atoi p.offset) config,
  refl,
  refl,
)

value_of-append :
    (acc : ℕ) (xs ys : Text) (n : ℕ)
    → value_of acc xs ≡ some n
    → value_of acc (xs ++ ys) ≡ value_of n ys
value_of-append acc [] ys n h = ground arith
value_of-append acc (x ∷ xs) ys n h = ground (arith, value_of-append (acc * 10 + (x - 48)) xs ys n)

value_of-digits : (fuel n : ℕ) → n < fuel → value_of 0 (digits fuel n) ≡ some n
value_of-digits zero n h = absurd (omega arith)
value_of-digits (suc fuel) n h = elim (Bool-cases (ltb n 10)) [
  | inl small ↦ ground arith
  | inr large ↦ ground (
    arith,
    value_of-digits fuel (n / 10),
    value_of-append 0 (digits fuel (n / 10)) ((48 + n % 10) ∷ []) (n / 10),
  )
]

snoc_not_empty : (xs : Text) (d : ℕ) → (c : ℕ) × (s : Text) × (xs ++ (d ∷ []) ≡ c ∷ s)
snoc_not_empty [] d = (d, [], refl)
snoc_not_empty (x ∷ xs) d = (x, xs ++ (d ∷ []), refl)

digits_not_empty : (fuel n : ℕ) → (c : ℕ) × (s : Text) × (digits (suc fuel) n ≡ c ∷ s)
digits_not_empty fuel n = elim (Bool-cases (ltb n 10)) [
  | inl small ↦ (48 + n, [], ground arith)
  | inr large ↦
      let (c, s, e) = snoc_not_empty (digits fuel (n / 10)) (48 + n % 10) in (c, s, ground arith)
]

atoi_number :
    (c : ℕ) (s : Text) (n : ℕ)
    → value_of 0 (c ∷ s) ≡ some n
    → n < half
    → atoi (c ∷ s) ≡ (pos n, false)
atoi_number c s n h small = ground arith

-- Printing a number below 2^63 and parsing it again yields the number and no error.
pub atoi-itoa : (n : ℕ) → n < half → atoi (itoa (pos n)) ≡ (pos n, false)
atoi-itoa n h =
    let (c, s, e) = digits_not_empty n n in
    subst (λ t. atoi t ≡ (pos n, false)) (sym e)
      (atoi_number c s n
        (subst (λ t. value_of 0 t ≡ some n) e (value_of-digits (suc n) n (omega arith))) h)
