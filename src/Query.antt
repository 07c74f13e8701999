-- ===== src/Query.antt =====
-- share/query: the filters and sorts of a list request, and how a filter is matched against a value
-- in memory. A map of fields is the list of its keys. What the code takes of packages time, regexp
-- and strings is a record of functions; fmt prints the values beforehand.
pub mod Matching
pub mod Sql
use openrport.Prelude.{
  ℕ, suc, ◌+◌, ◌-◌, Bool, true, false, not, ◌&&◌, ◌||◌, all, any, List, [], ◌∷◌, ◌++◌, Option, none,
  some, ◌==◌, nat_eq, leb, ltb, if◌then◌else◌, length, lookup, contains, filter, map,
}
use openrport.Prelude.Results.{Result, ok, err}
use openrport.Strings.{Text, text_eq, has_prefix, contains_byte}

pub data FilterOperator : Type 0 where
  eq gt lt since until unset : FilterOperator
  other : Text → FilterOperator

pub data LogicalOperator : Type 0 where
  or and : LogicalOperator

pub record FilterOption : Type 0 where
  pub column : List Text
  pub operator : FilterOperator
  pub values : List Text
  pub values_logical_operator : LogicalOperator

abbrev operator_text : FilterOperator → Text
operator_text eq = b'e' ∷ b'q' ∷ []
operator_text gt = b'g' ∷ b't' ∷ []
operator_text lt = b'l' ∷ b't' ∷ []
operator_text since = b's' ∷ b'i' ∷ b'n' ∷ b'c' ∷ b'e' ∷ []
operator_text until = b'u' ∷ b'n' ∷ b't' ∷ b'i' ∷ b'l' ∷ []
operator_text unset = []
operator_text (other t) = t

abbrev is_unset : FilterOperator → Bool
is_unset operator = elim (operator_text operator) [ [] ↦ true | c ∷ t ↦ false ]

-- `col[operator]`
abbrev with_operator : Text → FilterOperator → Text
with_operator col operator = col ++ (b'[' ∷ (operator_text operator ++ (b']' ∷ [])))

unfoldable pub column_is_supported : List Text → FilterOperator → Text → Bool
column_is_supported supported_fields operator col =
    (is_unset operator && contains supported_fields col)
    || contains supported_fields (with_operator col operator)

unfoldable pub is_supported : List Text → FilterOption → Bool
unfolding column_is_supported
is_supported supported_fields fo = all (column_is_supported supported_fields fo.operator) fo.column

-- Which column comes first is open: they come out of a map.
unfoldable pub set_wildcard_columns : List Text → FilterOption → FilterOption
set_wildcard_columns supported_fields fo = record fo { column = supported_fields }

abbrev pub is_wildcard : List Text → Bool
is_wildcard [] = false
is_wildcard (col ∷ cols) = elim cols [ [] ↦ col == (b'*' ∷ []) | c ∷ more ↦ false ]

abbrev expand : List Text → FilterOption → FilterOption
expand supported_fields fo =
    if is_wildcard fo.column then set_wildcard_columns supported_fields fo else fo

-- The options as they are left, and those that an error is about.
unfoldable pub validate_filter_options :
    List Text → List FilterOption → List FilterOption × List FilterOption
unfolding is_supported set_wildcard_columns
validate_filter_options supported_fields options =
    let expanded = map (expand supported_fields) options in
    (expanded, filter (λ fo. not (is_supported supported_fields fo)) expanded)

unfoldable pub split_filters : List FilterOption → List Text → List FilterOption × List FilterOption
split_filters options keys = (
  filter (λ o. any (contains keys) o.column) options,
  filter (λ o. not (any (contains keys) o.column)) options,
)

pub record SortOption : Type 0 where
  pub column : Text
  pub is_asc : Bool

abbrev trim_dashes : Text → Text
trim_dashes [] = []
trim_dashes (c ∷ s) = let rest = trim_dashes s in if c == b'-' then rest else c ∷ s

-- A value of `sort`, already trimmed and not empty
unfoldable pub sort_option : Text → SortOption
sort_option sort =
    if has_prefix sort (b'-' ∷ [])
    then record { column = trim_dashes sort; is_asc = false }
    else record { column = sort; is_asc = true }

-- ParseSortOptions of the values of `sort`; `trim` is strings.TrimSpace.
unfoldable pub parse_sort_options : (Text → Text) → List Text → List SortOption
unfolding sort_option
parse_sort_options trim [] = []
parse_sort_options trim (sort ∷ sorts) =
    let rest = parse_sort_options trim sorts in
    elim (trim sort) [ [] ↦ rest | c ∷ s ↦ sort_option (c ∷ s) ∷ rest ]

-- The options that an error is about
unfoldable pub validate_sort_options : List Text → List SortOption → List SortOption
validate_sort_options supported_fields options =
    filter (λ so. not (contains supported_fields so.column)) options

-- A field of the value that is matched, as JSON has it.
pub data Field : Type 0 where
  single : Text → Field
  many : List Text → Field
  entries : List (Text × Text) → Field

abbrev pub candidates : Field → List Text
candidates (single t) = t ∷ []
candidates (many ts) = ts
candidates (entries kvs) = map (λ (key, val). key ++ (b':' ∷ b' ' ∷ val)) kvs

-- A time is in nanoseconds. `compile` is regexp.Compile, and the match of what it yields.
pub record Matchers : Type 0 where
  pub parse_rfc3339 : Text → Option ℕ
  pub parse_date : Text → Option ℕ
  pub compile : Text → Option (Text → Bool)
  pub equal_fold : Text → Text → Bool

abbrev day : ℕ
day = 86400000000000

abbrev pub in_order : FilterOperator → ℕ → ℕ → Bool
in_order gt date bound = ltb bound date
in_order lt date bound = ltb date bound
in_order eq date bound = not (ltb date bound) && not (ltb (bound + (day - 1)) date)
in_order operator date bound = false

abbrev pattern_part : ℕ → Text
pattern_part c = if c == b'*' then b'.' ∷ b'*' ∷ b'?' ∷ [] else c ∷ []

abbrev replace_stars : Text → Text
replace_stars [] = []
replace_stars (c ∷ s) = pattern_part c ++ replace_stars s

abbrev pattern_text : Text → Text
pattern_text s = b'(' ∷ b'?' ∷ b'i' ∷ b')' ∷ b'^' ∷ (replace_stars s ++ (b'$' ∷ []))

abbrev or_else {ℓ} : {A : Type ℓ} → Option A → Option A → Option A
or_else none o = o
or_else (some a) o = some a

module _ (m : Matchers) where
  -- `none` is an error: one of the two is no date.
  unfoldable pub match_if_date : Text → Text → FilterOperator → Option Bool
  match_if_date date_value filter_value operator =
      elim (or_else (m.parse_rfc3339 filter_value) (m.parse_date filter_value)) [
        | none ↦ none
        | some bound ↦ elim (m.parse_rfc3339 date_value) [
          | none ↦ none
          | some date ↦ some (in_order operator date bound)
        ]
      ]

  -- The body of the innermost loop: whether a filter value matches one value of the field.
  unfoldable pub value_matches : FilterOperator → Text → Text → Bool
  unfolding match_if_date
  value_matches operator candidate filter_value =
      elim (match_if_date candidate filter_value operator) [
        | some matched ↦ matched
        | none ↦
            if not (contains_byte b'*' filter_value)
            then m.equal_fold filter_value candidate
            else (elim (m.compile (pattern_text filter_value)) [
              | none ↦ m.equal_fold filter_value candidate
              | some re ↦ re candidate
            ])
      ]

  abbrev pub mark : Text → List Text → Bool → List Text
  mark v matches hit =
      if contains matches v then matches else (if hit then v ∷ matches else matches)

  -- The loops over the filter values, the values of the field, and the columns; `matches` are the keys
  -- of the map of that name.
  unfoldable pub match_values : FilterOperator → Text → List Text → List Text → List Text
  match_values operator candidate [] matches = matches
  match_values operator candidate (v ∷ vs) matches =
      match_values operator candidate vs (mark v matches (value_matches operator candidate v))

  unfoldable pub match_candidates : FilterOperator → List Text → List Text → List Text → List Text
  unfolding match_values
  match_candidates operator [] values matches = matches
  match_candidates operator (c ∷ cs) values matches =
      match_candidates operator cs values (match_values operator c values matches)

  -- An error is the column that the value does not have.
  unfoldable pub match_columns :
      List (Text × Field)
      → FilterOperator
      → List Text
      → List Text
      → List Text
      → Result Text (List Text)
  unfolding match_candidates
  match_columns value_map operator [] values matches = ok matches
  match_columns value_map operator (col ∷ cols) values matches = elim (lookup col value_map) [
    | none ↦ err col
    | some field ↦
        match_columns value_map operator cols values
          (match_candidates operator (candidates field) values matches)
  ]

  abbrev pub decide : LogicalOperator → List Text → List Text → Bool
  decide and values matches = length matches == length values
  decide or values matches = not (length matches == 0)

  unfoldable pub matches_filter : List (Text × Field) → FilterOption → Result Text Bool
  unfolding match_columns
  matches_filter value_map f = elim (match_columns value_map f.operator f.column f.values []) [
    | err col ↦ err col
    | ok matches ↦ ok (decide f.values_logical_operator f.values matches)
  ]

  unfoldable pub matches_filters : List (Text × Field) → List FilterOption → Result Text Bool
  unfolding matches_filter
  matches_filters value_map [] = ok true
  matches_filters value_map (f ∷ fs) = elim (matches_filter value_map f) [
    | err col ↦ err col
    | ok matched ↦ if matched then matches_filters value_map fs else ok false
  ]
