-- ===== src/Query/Sql/Placeholders.antt =====
-- share/query/convert.go: a query has a parameter for each of its question marks.
use openrport.Prelude.{
  ◌+◌, ◌≡◌, inl, inr, refl, Bool, List, [], ◌∷◌, ◌++◌, Option, some, nat_eq, map, length,
  length-append, arith, Option-cases, none, ◌∙◌,
}
use openrport.Strings.{Text, text_eq}
use openrport.Query.{SortOption}
use openrport.Query.Sql.{
  FieldsOption, ListOptions, join, order_by_word, asc_word, desc_word, limit_offset, add_where,
  order, add_order_by, add_limit_offset, append_options_to_query, replace_star, qualified,
  all_fields, replace_star_select,
}
use openrport.Pagination.{Pagination}
use openrport.Query.Sql.Marks.{
  marks, marks-append, marks-join, IsPlain, AllPlain, total, PlainFilters, add_where_total,
}

abbrev pub PlainSorts : List SortOption → Type 0
PlainSorts [] = Unit
PlainSorts (so ∷ sorts) = IsPlain so.column × PlainSorts sorts

orders_total : (sorts : List SortOption) → PlainSorts sorts → total (map order sorts) ≡ 0
orders_total [] h = refl
orders_total (so ∷ sorts) (plain, rest) = ground (
  arith,
  plain,
  marks-append so.column asc_word,
  marks-append so.column desc_word,
  orders_total sorts rest,
)

add_order_by_total :
    (sorts : List SortOption) (q : Text) → PlainSorts sorts → marks (add_order_by sorts q) ≡ marks q
unfolding add_order_by
add_order_by_total [] q h = refl
add_order_by_total (so ∷ sorts) q h =
    let terms = join (b',' ∷ b' ' ∷ []) (map order (so ∷ sorts)) in
    ground (
      arith,
      orders_total (so ∷ sorts) h,
      marks-join (b',' ∷ b' ' ∷ []) (map order (so ∷ sorts)) refl,
      marks-append q (order_by_word ++ terms),
      marks-append order_by_word terms,
    )

marks-replace_star : (new q : Text) → IsPlain new → marks (replace_star new q) ≡ marks q
marks-replace_star new [] h = refl
marks-replace_star new (c ∷ s) h = ground (arith, h, marks-append new s, marks-replace_star new s h)

total-append : (xs ys : List Text) → total (xs ++ ys) ≡ total xs + total ys
total-append [] ys = omega arith
total-append (x ∷ xs) ys = omega (arith, total-append xs ys)

abbrev pub PlainFields : List FieldsOption → Type 0
PlainFields [] = Unit
PlainFields (fo ∷ options) = IsPlain fo.resource × AllPlain fo.fields × PlainFields options

total-qualified :
    (resource : Text) (fields : List Text)
    → IsPlain resource
    → AllPlain fields
    → total (qualified resource fields) ≡ 0
total-qualified resource [] h plain = refl
total-qualified resource (f ∷ fields) h (here, rest) =
    ground
      (arith, h, here, marks-append resource (b'.' ∷ f), total-qualified resource fields h rest)

total-all_fields :
    (options : List FieldsOption) → PlainFields options → total (all_fields options) ≡ 0
total-all_fields [] plain = refl
total-all_fields (fo ∷ options) (named, here, rest) = ground (
  arith,
  total-qualified fo.resource fo.fields named here,
  total-all_fields options rest,
  total-append (qualified fo.resource fo.fields) (all_fields options),
)

replace_star_select_total :
    (to_upper : Text → Text) (options : List FieldsOption) (q : Text)
    → PlainFields options
    → marks (replace_star_select to_upper options q) ≡ marks q
unfolding replace_star_select
replace_star_select_total to_upper [] q plain = refl
replace_star_select_total to_upper (fo ∷ options) q plain =
    let names = all_fields (fo ∷ options) in
    let sep : Text = b',' ∷ b' ' ∷ [] in
    ground (
      arith,
      marks-replace_star (join sep names) q
          (marks-join sep names refl ∙ total-all_fields (fo ∷ options) plain),
    )

add_limit_offset_total :
    (page : Option Pagination) (q : Text) (params : List Text)
    → marks (add_limit_offset page q params).0 + length params
      ≡ marks q + length (add_limit_offset page q params).1
unfolding add_limit_offset
add_limit_offset_total none q params = refl
add_limit_offset_total (some p) q params =
    ground (arith, marks-append q limit_offset, length-append params (p.limit ∷ p.offset ∷ []))

abbrev pub IsPlainRequest : (Text → Text) → (Text → Text) → Bool → ListOptions → Type 0
IsPlainRequest to_upper to_lower mysql o =
    PlainFilters to_upper to_lower mysql o.filters × PlainSorts o.sorts × PlainFields o.fields

-- Where no column or field that a list request names has a question mark, and a query has as many
-- question marks as parameters, so has the query that the request's filters, sorts, fields and page
-- make of it, if each filter has a column and a value.
pub append_options_to_query-marks :
    (to_upper to_lower : Text → Text) (mysql : Bool) (o : ListOptions) (q q' : Text)
    (params params' : List Text)
    → IsPlainRequest to_upper to_lower mysql o
    → marks q ≡ length params
    → append_options_to_query to_upper to_lower mysql (some o) q params ≡ some (q', params')
    → marks q' ≡ length params'
unfolding append_options_to_query
append_options_to_query-marks to_upper to_lower mysql o q q' params params' (pf, ps, pl) start h =
    elim (Option-cases (add_where to_upper to_lower mysql o.filters q params)) [
      | inl e ↦ absurd (ground (arith, h, e))
      | inr ((q₁, params₁), e) ↦
          let q₂ = add_order_by o.sorts q₁ in
          let q₃ = replace_star_select to_upper o.fields q₂ in
          ground (
            arith,
            h,
            e,
            start,
            add_where_total to_upper to_lower mysql o.filters q q₁ params params₁ pf e,
            add_order_by_total o.sorts q₁ ps,
            replace_star_select_total to_upper o.fields q₂ pl,
            add_limit_offset_total o.pagination q₃ params₁,
          )
    ]
