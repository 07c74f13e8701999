-- ===== src/Bearer.antt =====
-- server/bearer/bearer_auth.go: whether a bearer token lets a request in. The signature and the
-- claims of a token are github.com/golang-jwt/jwt's: the model starts from what it has parsed.
pub mod Scopes
pub mod Tokens
use openrport.Prelude.{
  ℕ, ◌+◌, String, Bool, true, false, not, ◌&&◌, ◌||◌, List, [], ◌∷◌, Option, none, some, ltb,
  if◌then◌else◌, ◌==◌, nat_eq, string_eq,
}
use openrport.Prelude.Int.{ℤ}
use openrport.Prelude.Actions.{Action}
use openrport.Strings.{Text, text_eq}
use openrport.Sessions.{
  ApiSession, SessionError, InternalCacheProvider, StorageProvider, Cache, get, save,
}

pub record Scope : Type 0 where
  pub uri : Text
  pub method : Text
  pub exclude : Bool

pub record AppTokenClaims : Type 0 where
  pub username : String
  pub session_id : ℤ
  pub scopes : List Scope

pub record TokenContext : Type 0 where
  pub app_claims : AppTokenClaims
  pub jwt_valid : Bool

abbrev star : Text
star = b'*' ∷ []

-- strings.Trim(s, "/")
abbrev trim_left : Text → Text
trim_left [] = []
trim_left (c ∷ s) = let rest = trim_left s in if c == b'/' then rest else c ∷ s

abbrev unless_slash : ℕ → Text → Text
unless_slash c [] = if c == b'/' then [] else c ∷ []
unless_slash c (d ∷ s) = c ∷ d ∷ s

abbrev trim_right : Text → Text
trim_right [] = []
trim_right (c ∷ s) = unless_slash c (trim_right s)

abbrev pub rooted : Text → Text
rooted uri = b'/' ∷ trim_right (trim_left uri)

abbrev pub scope_matches : Text → Text → Scope → Bool
scope_matches uri method scope =
    (scope.uri == star || uri == scope.uri) && (scope.method == star || method == scope.method)

-- The loop, with its two variables.
unfoldable pub scopes_loop : Text → Text → List Scope → Bool → Bool → Bool
scopes_loop uri method [] one excluded = one && not excluded
scopes_loop uri method (scope ∷ scopes) one excluded =
    scopes_loop uri method scopes
      (if scope_matches uri method scope && not scope.exclude then true else one)
      (if scope_matches uri method scope && scope.exclude then true else excluded)

unfoldable pub current_uri_matches_token_scopes : Text → Text → List Scope → Bool
unfolding scopes_loop
current_uri_matches_token_scopes uri method [] = true
current_uri_matches_token_scopes uri method (scope ∷ scopes) =
    scopes_loop (rooted uri) method (scope ∷ scopes) false false

abbrev default_token_lifetime : ℕ
default_token_lifetime = 600000000000

module _ {C T : Type 0} (p : InternalCacheProvider C) (storage : StorageProvider T) where
  -- The session of a token that lets the request in; the cache returns no error.
  unfoldable pub validate_bearer_token :
      ℕ → TokenContext → Text → Text → Cache C T → Option ApiSession
  unfolding current_uri_matches_token_scopes
  validate_bearer_token now token uri method m =
      if not (current_uri_matches_token_scopes uri method token.app_claims.scopes)
      then none
      else if not token.jwt_valid || token.app_claims.username == ""
      then none
      else elim (get p storage now token.app_claims.session_id m) [
        | none ↦ none
        | some s ↦ if ltb now s.expires_at then some s else none
      ]

  unfoldable pub increase_session_lifetime : ℕ → ApiSession → Action (Cache C T) SessionError ℤ
  increase_session_lifetime now s =
      if ltb s.expires_at (now + default_token_lifetime)
      then save p storage now (record s { expires_at = now + default_token_lifetime })
      else save p storage now s
