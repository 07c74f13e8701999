-- ===== src/Examples/Requests.antt =====
-- Remotes, access lists, filters and the logins with two factors.
use openrport.Prelude.{
  ℕ, ◌+◌, ◌≡◌, ◌⊎◌, ◌↔◌, refl, inl, inr, String, Bool, true, false, not, ◌&&◌, ◌||◌, List, [], ◌∷◌,
  ◌++◌, Option, none, some, ◌==◌, nat_eq, string_eq, if◌then◌else◌, all, any, length, ltb, arith,
}
use openrport.Prelude.Results.{Result, ok}
use openrport.Strings.{Text, text_eq, split}
use openrport.Ports.{protocol_udp}
use openrport.Remotes.{Remote, plain, new_remote, to_string}
use openrport.Remotes.RoundTrip.{IsHostName, new_remote-to_string}
use openrport.Tunnels.Acl.{
  Net, IpNet, TunnelAcl, parse_tunnel_acl, check_access, Names, check_access-parse_tunnel_acl,
}
use openrport.Query.{
  FilterOption, Field, Matchers, SortOption, eq, and, or, single, many, matches_filter,
}
use openrport.Query.Matching.{is_hit, field_values, demanded, matches_filter-demanded}
use openrport.Query.Sql.{ListOptions, select_star, append_options_to_query}
use openrport.Prelude.Int.{pos}
use openrport.Query.Sql.Marks.{marks}
use openrport.Query.Sql.Placeholders.{append_options_to_query-marks}
use openrport.TwoFactor.{User, TwoFaService, Error, send_token, validate_token}
use openrport.TwoFactor.Logins.{validate_token-send_token}

-- "a" and "b"
abbrev name_a : Text
name_a = b'a' ∷ []

abbrev name_b : Text
name_b = b'b' ∷ []

abbrev any_host : Text → Bool
any_host s = true

a_host : IsHostName any_host name_a
unfolding openrport.Remotes.is_port openrport.Strings.contains_byte
a_host = record {
  accepted = refl;
  nonempty = refl;
  no_port = refl;
  no_colon = refl;
  no_newline = refl;
}

b_host : IsHostName any_host name_b
unfolding openrport.Remotes.is_port openrport.Strings.contains_byte
b_host = record {
  accepted = refl;
  nonempty = refl;
  no_port = refl;
  no_colon = refl;
  no_newline = refl;
}

new_remote-to_string_example :
    new_remote any_host
      (to_string (plain protocol_udp name_a (b'1' ∷ []) name_b (b'5' ∷ b'3' ∷ [])))
    ≡ ok (plain protocol_udp name_a (b'1' ∷ []) name_b (b'5' ∷ b'3' ∷ []))
unfolding openrport.Remotes.is_port
new_remote-to_string_example =
    new_remote-to_string any_host protocol_udp name_a (b'1' ∷ []) name_b (b'5' ∷ b'3' ∷ [])
      (inr (inl refl)) a_host refl b_host refl

-- Every text is the address of these bytes.
abbrev addresses : Net
addresses = record {
  parse_cidr = λ s. none;
  parse_ip = λ s. some s;
  is_unspecified = λ ip. false;
  is_v4 = λ ip. true;
  contains = λ n ip. n.ip == ip;
}

abbrev acl : TunnelAcl
acl =
    record { ip = name_a; mask = 255 ∷ 255 ∷ 255 ∷ 255 ∷ [] }
    ∷ record { ip = name_b; mask = 255 ∷ 255 ∷ 255 ∷ 255 ∷ [] }
    ∷ []

check_access-parse_tunnel_acl_example :
    (check_access addresses acl name_b ≡ true)
    ↔ Names addresses (split b',' (b'a' ∷ b',' ∷ b'b' ∷ [])) name_b
unfolding parse_tunnel_acl split openrport.Tunnels.Acl.parse_ip_net openrport.Strings.contains_byte
check_access-parse_tunnel_acl_example =
    check_access-parse_tunnel_acl addresses (b'a' ∷ b',' ∷ b'b' ∷ []) acl name_b refl

abbrev matchers : Matchers
matchers = record {
  parse_rfc3339 = λ s. none;
  parse_date = λ s. none;
  compile = λ s. none;
  equal_fold = λ a b. a == b;
}

abbrev tags_field : List (Text × Field)
tags_field = (b't' ∷ [], many (name_a ∷ name_b ∷ [])) ∷ []

abbrev both_tags : FilterOption
both_tags = record {
  column = (b't' ∷ []) ∷ [];
  operator = eq;
  values = name_a ∷ name_b ∷ [];
  values_logical_operator = and;
}

matches_filter-demanded_example :
    true
    ≡ demanded and
        (is_hit matchers eq (field_values tags_field ((b't' ∷ []) ∷ [])))
        (name_a ∷ name_b ∷ [])
unfolding matches_filter openrport.Prelude.lookup openrport.Query.value_matches
    openrport.Strings.contains_byte
matches_filter-demanded_example =
    matches_filter-demanded matchers tags_field both_tags true (refl, (refl, tt)) refl

abbrev by_tag : SortOption
by_tag = record { column = b't' ∷ []; is_asc = true }

-- A query of all columns, for one of two tags, sorted, with one field, and a page.
abbrev all_tags : Text
all_tags = select_star ++ b'F' ∷ []

abbrev requested : ListOptions
requested = record {
  sorts = by_tag ∷ [];
  filters = both_tags ∷ [];
  fields = record { resource = b'r' ∷ []; fields = name_a ∷ [] } ∷ [];
  pagination = some (record {
    limit = b'9' ∷ [];
    offset = b'0' ∷ [];
    validated_limit = pos 9;
    validated_offset = pos 0;
  });
}

abbrev result_of : Option (Text × List Text) → Text × List Text
result_of none = ([], [])
result_of (some r) = r

abbrev built : Text × List Text
built = result_of (append_options_to_query (λ s. s) (λ s. s) false (some requested) all_tags [])

append_options_to_query-marks_example : marks built.0 ≡ length built.1
unfolding append_options_to_query
append_options_to_query-marks_example =
    append_options_to_query-marks (λ s. s) (λ s. s) false requested all_tags built.0 [] built.1
      (((refl, tt), tt), (refl, tt), (refl, (refl, tt), tt)) refl refl

-- Two values, the limit and the offset.
four_params : length built.1 ≡ 4
unfolding append_options_to_query
four_params = refl

abbrev mail : User
mail = record { username = "u"; two_fa_send_to = "m"; tot_p = [] }

abbrev logins : TwoFaService
logins = record { token_ttl = 60; tokens_by_user = [] }

abbrev users : String → Result Error (Option User)
users name = ok (some mail)

abbrev sent : TwoFaService
sent = (send_token users (ok "t") (λ to token. true) 100 "u" logins).0

-- The same token is taken a second time.
validate_token-send_token_example : validate_token 130 "u" "t" sent ≡ ok tt
unfolding send_token
validate_token-send_token_example =
    validate_token-send_token users (λ to token. true) "t" "t" "m" "u" "u" 100 130 logins refl
