-- ===== src/Query/Sql.antt =====
-- share/query/convert.go: a list request's conditions in SQL, with a parameter for each value.
-- `to_upper` and `to_lower` are those of package strings.
pub mod Marks
pub mod Placeholders
use openrport.Prelude.{
  ℕ, suc, ◌+◌, Bool, true, false, not, ◌&&◌, ◌||◌, List, [], ◌∷◌, ◌++◌, Option, none, some, ◌==◌,
  nat_eq, if◌then◌else◌, map, length, is_some,
}
use openrport.Pagination.{Pagination}
use openrport.Strings.{Text, text_eq, contains_byte, index, has_prefix}
use openrport.Query.{
  FilterOption, FilterOperator, SortOption, eq, gt, lt, since, until, unset, other,
}

pub record FieldsOption : Type 0 where
  pub resource : Text
  pub fields : List Text

abbrev pub is_null : Text
is_null = b' ' ∷ b'I' ∷ b'S' ∷ b' ' ∷ b'N' ∷ b'U' ∷ b'L' ∷ b'L' ∷ b')' ∷ []

abbrev pub or_word : Text
or_word = b' ' ∷ b'O' ∷ b'R' ∷ b' ' ∷ []

abbrev pub and_word : Text
and_word = b' ' ∷ b'A' ∷ b'N' ∷ b'D' ∷ b' ' ∷ []

abbrev pub where_word : Text
where_word = b' ' ∷ b'W' ∷ b'H' ∷ b'E' ∷ b'R' ∷ b'E' ∷ b' ' ∷ []

abbrev pub lower_word : Text
lower_word = b'L' ∷ b'O' ∷ b'W' ∷ b'E' ∷ b'R' ∷ b'(' ∷ []

-- `) LIKE ? ESCAPE '\'`, with two backslashes for MySQL
abbrev pub like_word : Text
like_word =
    b')' ∷ b' ' ∷ b'L' ∷ b'I' ∷ b'K' ∷ b'E' ∷ b' ' ∷ b'?' ∷ b' ' ∷ b'E' ∷ b'S' ∷ b'C' ∷ b'A' ∷ b'P'
    ∷ b'E' ∷ b' ' ∷ 39 ∷ []

abbrev pub order_by_word : Text
order_by_word = b' ' ∷ b'O' ∷ b'R' ∷ b'D' ∷ b'E' ∷ b'R' ∷ b' ' ∷ b'B' ∷ b'Y' ∷ b' ' ∷ []

abbrev pub asc_word : Text
asc_word = b' ' ∷ b'A' ∷ b'S' ∷ b'C' ∷ []

abbrev pub desc_word : Text
desc_word = b' ' ∷ b'D' ∷ b'E' ∷ b'S' ∷ b'C' ∷ []

abbrev pub limit_offset : Text
limit_offset =
    b' ' ∷ b'L' ∷ b'I' ∷ b'M' ∷ b'I' ∷ b'T' ∷ b' ' ∷ b'?' ∷ b' ' ∷ b'O' ∷ b'F' ∷ b'F' ∷ b'S' ∷ b'E'
    ∷ b'T' ∷ b' ' ∷ b'?' ∷ []

-- FilterOperatorType.Code
unfoldable pub code : FilterOperator → Text
code gt = b'>' ∷ []
code lt = b'<' ∷ []
code since = b'>' ∷ b'=' ∷ []
code until = b'<' ∷ b'=' ∷ []
code operator = b'=' ∷ []

abbrev pub join : Text → List Text → Text
join sep [] = []
join sep (part ∷ []) = part
join sep (part ∷ next ∷ parts) = part ++ (sep ++ join sep (next ∷ parts))

-- `col op ?`
abbrev pub comparison : Text → FilterOperator → Text
comparison col operator = col ++ (b' ' ∷ (code operator ++ (b' ' ∷ b'?' ∷ [])))

abbrev escape_percent : Text → Text
escape_percent [] = []
escape_percent (c ∷ s) =
    let rest = escape_percent s in if c == b'%' then 92 ∷ b'%' ∷ rest else c ∷ rest

abbrev star_to_percent : Text → Text
star_to_percent [] = []
star_to_percent (c ∷ s) = (if c == b'*' then b'%' else c) ∷ star_to_percent s

abbrev pub quoted_backslash : Bool → Text
quoted_backslash mysql = if mysql then 92 ∷ 92 ∷ 39 ∷ [] else 92 ∷ 39 ∷ []

module _ (to_upper to_lower : Text → Text) (mysql : Bool) where
  -- The innermost loop's condition and parameter.
  unfoldable pub where_part : FilterOperator → Text → Text → Text × Text
  where_part operator col [] =
      (b'(' ∷ (comparison col operator ++ (or_word ++ (col ++ is_null))), [])
  where_part operator col (c ∷ val) =
      if contains_byte b'*' (c ∷ val) && code operator == (b'=' ∷ [])
      then (
        lower_word ++ (col ++ (like_word ++ quoted_backslash mysql)),
        star_to_percent (to_lower (escape_percent (c ∷ val))),
      )
      else (comparison col operator, c ∷ val)

  unfoldable pub column_parts : FilterOperator → Text → List Text → List (Text × Text)
  unfolding where_part
  column_parts operator col vals = map (where_part operator col) vals

  unfoldable pub or_parts : FilterOperator → List Text → List Text → List (Text × Text)
  unfolding column_parts
  or_parts operator [] vals = []
  or_parts operator (col ∷ cols) vals =
      column_parts operator col vals ++ or_parts operator cols vals

  abbrev pub conditions : List (Text × Text) → List Text
  conditions = map (λ (part, val). part)

  abbrev pub parameters : List (Text × Text) → List Text
  parameters = map (λ (part, val). val)

  -- `none` is the panic of `orParts[0]`.
  abbrev pub any_of : List Text → Option Text
  any_of [] = none
  any_of (part ∷ []) = some part
  any_of (part ∷ next ∷ parts) = some (b'(' ∷ (join or_word (part ∷ next ∷ parts) ++ (b')' ∷ [])))

  unfoldable pub where_parts : List FilterOption → Option (List Text × List Text)
  unfolding or_parts
  where_parts [] = some ([], [])
  where_parts (fo ∷ options) =
      let later = where_parts options in
      let parts = or_parts fo.operator fo.column fo.values in
      elim (any_of (conditions parts)) [
        | none ↦ none
        | some condition ↦ elim later [
          | none ↦ none
          | some (conds, params) ↦ some (condition ∷ conds, parameters parts ++ params)
        ]
      ]

  abbrev has_where : Text → Bool
  has_where q = is_some (index (to_upper q) where_word)

  unfoldable pub add_where : List FilterOption → Text → List Text → Option (Text × List Text)
  unfolding where_parts
  add_where [] q params = some (q, params)
  add_where (fo ∷ options) q params = elim (where_parts (fo ∷ options)) [
    | none ↦ none
    | some (conds, added) ↦ some (
      q ++ ((if has_where q then and_word else where_word) ++ join and_word conds),
      params ++ added,
    )
  ]

abbrev pub order : SortOption → Text
order so = so.column ++ (if so.is_asc then asc_word else desc_word)

unfoldable pub add_order_by : List SortOption → Text → Text
add_order_by [] q = q
add_order_by (so ∷ sorts) q =
    q ++ (order_by_word ++ join (b',' ∷ b' ' ∷ []) (map order (so ∷ sorts)))

abbrev pub select_star : Text
select_star = b'S' ∷ b'E' ∷ b'L' ∷ b'E' ∷ b'C' ∷ b'T' ∷ b' ' ∷ b'*' ∷ b' ' ∷ []

-- strings.Replace(q, "*", new, 1)
abbrev pub replace_star : Text → Text → Text
replace_star new [] = []
replace_star new (c ∷ s) = let rest = replace_star new s in if c == b'*' then new ++ s else c ∷ rest

abbrev pub qualified : Text → List Text → List Text
qualified resource fields = map (λ field. resource ++ (b'.' ∷ field)) fields

abbrev pub all_fields : List FieldsOption → List Text
all_fields [] = []
all_fields (fo ∷ options) = qualified fo.resource fo.fields ++ all_fields options

unfoldable pub replace_star_select : (Text → Text) → List FieldsOption → Text → Text
replace_star_select to_upper [] q = q
replace_star_select to_upper (fo ∷ options) q =
    if has_prefix (to_upper q) select_star
    then replace_star (join (b',' ∷ b' ' ∷ []) (all_fields (fo ∷ options))) q
    else q

unfoldable pub add_limit_offset : Option Pagination → Text → List Text → Text × List Text
add_limit_offset none q params = (q, params)
add_limit_offset (some p) q params = (q ++ limit_offset, params ++ (p.limit ∷ p.offset ∷ []))

-- ListOptions
pub record ListOptions : Type 0 where
  pub sorts : List SortOption
  pub filters : List FilterOption
  pub fields : List FieldsOption
  pub pagination : Option Pagination

-- AppendOptionsToQuery; `none` for the options is nil, for the result the panic of AddWhere.
unfoldable pub append_options_to_query :
    (Text → Text)
    → (Text → Text)
    → Bool
    → Option ListOptions
    → Text
    → List Text
    → Option (Text × List Text)
unfolding add_where add_order_by replace_star_select add_limit_offset
append_options_to_query to_upper to_lower mysql none q params = some (q, params)
append_options_to_query to_upper to_lower mysql (some o) q params =
    elim (add_where to_upper to_lower mysql o.filters q params) [
      | none ↦ none
      | some (q', params') ↦ some (
          add_limit_offset o.pagination
            (replace_star_select to_upper o.fields (add_order_by o.sorts q')) params')
    ]
