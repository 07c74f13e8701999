-- ===== src/Bearer/Scopes.antt =====
-- server/bearer/bearer_auth.go, currentURIMatchesTokenScopes against a description of its result.
use openrport.Prelude.{
  ◌≡◌, Bool, true, false, not, ◌&&◌, ◌||◌, List, [], ◌∷◌, arith, any, if◌then◌else◌, length, ◌==◌,
  nat_eq, refl,
}
use openrport.Strings.{Text}
use openrport.Bearer.{Scope, scope_matches, scopes_loop, rooted, current_uri_matches_token_scopes}

abbrev pub includes : Text → Text → List Scope → Bool
includes uri method = any (λ s. scope_matches uri method s && not s.exclude)

abbrev pub excludes : Text → Text → List Scope → Bool
excludes uri method = any (λ s. scope_matches uri method s && s.exclude)

loop_lem :
    (uri method : Text) (scopes : List Scope) (one excluded : Bool)
    → scopes_loop uri method scopes one excluded
      ≡ ((one || includes uri method scopes) && not (excluded || excludes uri method scopes))
unfolding scopes_loop
loop_lem uri method [] one excluded = ground arith
loop_lem uri method (s ∷ scopes) one excluded = ground (
  arith,
  loop_lem uri method scopes (if scope_matches uri method s && not s.exclude then true else one)
      (if scope_matches uri method s && s.exclude then true else excluded),
)

-- The scopes of a token admit a request exactly if there are none, or if some scope includes the
-- request and none excludes it, whatever their order.
pub scopes_lem :
    (uri method : Text) (scopes : List Scope)
    → current_uri_matches_token_scopes uri method scopes ≡ (
        length scopes == 0
        || (includes (rooted uri) method scopes && not (excludes (rooted uri) method scopes)))
unfolding current_uri_matches_token_scopes
scopes_lem uri method [] = refl
scopes_lem uri method (scope ∷ scopes) =
    ground (arith, loop_lem (rooted uri) method (scope ∷ scopes) false false)
