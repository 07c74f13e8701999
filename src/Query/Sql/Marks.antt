-- ===== src/Query/Sql/Marks.antt =====
-- share/query/convert.go: the question marks in the conditions that AddWhere makes.
use openrport.Prelude.{
  ℕ, suc, ◌+◌, ◌≡◌, inl, inr, refl, ap, Bool, List, [], ◌∷◌, ◌++◌, some, ◌==◌, nat_eq,
  if◌then◌else◌, length, length-append, arith, Option-cases,
}
use openrport.Strings.{Text, text_eq}
use openrport.Query.{FilterOption, FilterOperator}
use openrport.Query.Sql.{
  code, join, comparison, is_null, or_word, and_word, where_word, lower_word, like_word,
  quoted_backslash, where_part, column_parts, or_parts, conditions, parameters, any_of, where_parts,
  add_where,
}

-- The question marks of a text.
abbrev pub marks : Text → ℕ
marks [] = 0
marks (c ∷ s) = if c == b'?' then suc (marks s) else marks s

pub marks-append : (x y : Text) → marks (x ++ y) ≡ marks x + marks y
marks-append [] y = omega arith
marks-append (c ∷ x) y = ground (arith, marks-append x y)

-- A column that has none.
abbrev pub IsPlain : Text → Type 0
IsPlain col = marks col ≡ 0

abbrev pub AllPlain : List Text → Type 0
AllPlain [] = Unit
AllPlain (col ∷ cols) = IsPlain col × AllPlain cols

abbrev pub total : List Text → ℕ
total [] = 0
total (p ∷ ps) = marks p + total ps

pub marks-join :
    (sep : Text) (parts : List Text) → IsPlain sep → marks (join sep parts) ≡ total parts
marks-join sep [] h = refl
marks-join sep (p ∷ []) h = omega arith
marks-join sep (p ∷ q ∷ ps) h = ground (
  arith,
  h,
  marks-append p (sep ++ join sep (q ∷ ps)),
  marks-append sep (join sep (q ∷ ps)),
  marks-join sep (q ∷ ps) h,
)

marks-code : (operator : FilterOperator) → marks (code operator) ≡ 0
unfolding code
marks-code operator = ground arith

marks-comparison :
    (col : Text) (operator : FilterOperator) → IsPlain col → marks (comparison col operator) ≡ 1
marks-comparison col operator h = ground (
  arith,
  h,
  marks-code operator,
  marks-append col (b' ' ∷ (code operator ++ (b' ' ∷ b'?' ∷ []))),
  marks-append (code operator) (b' ' ∷ b'?' ∷ []),
)

module _ (to_upper to_lower : Text → Text) (mysql : Bool) where
  marks-where_part :
      (operator : FilterOperator) (col val : Text)
      → IsPlain col
      → marks ((where_part to_upper to_lower mysql operator col val).0) ≡ 1
  unfolding where_part
  marks-where_part operator col [] h = ground (
    arith,
    h,
    marks-comparison col operator h,
    marks-append (comparison col operator) (or_word ++ (col ++ is_null)),
    marks-append or_word (col ++ is_null),
    marks-append col is_null,
  )
  marks-where_part operator col (c ∷ val) h = ground (
    arith,
    h,
    marks-comparison col operator h,
    marks-append lower_word (col ++ (like_word ++ quoted_backslash mysql)),
    marks-append col (like_word ++ quoted_backslash mysql),
    marks-append like_word (quoted_backslash mysql),
  )

  abbrev parts_total : List (Text × Text) → ℕ
  parts_total ps = total (conditions to_upper to_lower mysql ps)

  parts_total-append :
      (xs ys : List (Text × Text)) → parts_total (xs ++ ys) ≡ parts_total xs + parts_total ys
  parts_total-append [] ys = omega arith
  parts_total-append ((p, v) ∷ xs) ys = omega (arith, parts_total-append xs ys)

  column_parts_total :
      (operator : FilterOperator) (col : Text) (vals : List Text)
      → IsPlain col
      → parts_total (column_parts to_upper to_lower mysql operator col vals)
        ≡ length (column_parts to_upper to_lower mysql operator col vals)
  unfolding column_parts
  column_parts_total operator col [] h = refl
  column_parts_total operator col (v ∷ vals) h =
      ground (arith, marks-where_part operator col v h, column_parts_total operator col vals h)

  or_parts_total :
      (operator : FilterOperator) (cols vals : List Text)
      → AllPlain cols
      → parts_total (or_parts to_upper to_lower mysql operator cols vals)
        ≡ length (or_parts to_upper to_lower mysql operator cols vals)
  unfolding or_parts
  or_parts_total operator [] vals h = refl
  or_parts_total operator (col ∷ cols) vals (plain, rest) =
      let here = column_parts to_upper to_lower mysql operator col vals in
      let later = or_parts to_upper to_lower mysql operator cols vals in
      ground (
        arith,
        column_parts_total operator col vals plain,
        or_parts_total operator cols vals rest,
        parts_total-append here later,
        length-append here later,
      )

  length-parameters :
      (ps : List (Text × Text)) → length (parameters to_upper to_lower mysql ps) ≡ length ps
  length-parameters [] = refl
  length-parameters (p ∷ ps) = ap suc (length-parameters ps)

  marks-any_of :
      (parts : List Text) (condition : Text)
      → any_of to_upper to_lower mysql parts ≡ some condition
      → marks condition ≡ total parts
  marks-any_of [] condition h = absurd (ground (arith, h))
  marks-any_of (p ∷ []) condition h = ground (arith, h)
  marks-any_of (p ∷ q ∷ ps) condition h = ground (
    arith,
    h,
    marks-append (join or_word (p ∷ q ∷ ps)) (b')' ∷ []),
    marks-join or_word (p ∷ q ∷ ps) refl,
  )

  abbrev pub PlainFilters : List FilterOption → Type 0
  PlainFilters [] = Unit
  PlainFilters (fo ∷ options) = AllPlain fo.column × PlainFilters options

  where_parts-total :
      (options : List FilterOption) (conds : List Text) (params : List Text)
      → PlainFilters options
      → where_parts to_upper to_lower mysql options ≡ some (conds, params)
      → total conds ≡ length params
  unfolding where_parts
  where_parts-total [] conds params plain h = ground (arith, h)
  where_parts-total (fo ∷ options) conds params (here, rest) h =
      let parts = or_parts to_upper to_lower mysql fo.operator fo.column fo.values in
      elim (Option-cases
        (any_of to_upper to_lower mysql (conditions to_upper to_lower mysql parts))) [
          | inl e ↦ absurd (ground (arith, h, e))
          | inr (condition, e) ↦ elim (Option-cases (where_parts to_upper to_lower mysql options)) [
            | inl f ↦ absurd (ground (arith, h, e, f))
            | inr ((later, added), f) ↦ ground (
              arith,
              h,
              e,
              f,
              marks-any_of (conditions to_upper to_lower mysql parts) condition e,
              or_parts_total fo.operator fo.column fo.values here,
              where_parts-total options later added rest f,
              length-parameters parts,
              length-append (parameters to_upper to_lower mysql parts) added,
            )
          ]
        ]

  pub add_where_total :
      (options : List FilterOption) (q q' : Text) (params params' : List Text)
      → PlainFilters options
      → add_where to_upper to_lower mysql options q params ≡ some (q', params')
      → marks q' + length params ≡ marks q + length params'
  unfolding add_where
  add_where_total [] q q' params params' plain h = ground (arith, h)
  add_where_total (fo ∷ options) q q' params params' plain h =
      elim (Option-cases (where_parts to_upper to_lower mysql (fo ∷ options))) [
        | inl e ↦ absurd (ground (arith, h, e))
        | inr ((conds, added), e) ↦ ground (
          arith,
          h,
          e,
          where_parts-total (fo ∷ options) conds added plain e,
          marks-join and_word conds refl,
          marks-append q (and_word ++ join and_word conds),
          marks-append q (where_word ++ join and_word conds),
          marks-append and_word (join and_word conds),
          marks-append where_word (join and_word conds),
          length-append params added,
        )
      ]
