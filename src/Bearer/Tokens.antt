-- ===== src/Bearer/Tokens.antt =====
-- server/bearer/bearer_auth.go over server/api/session: tokens of sessions that have ended.
use openrport.Prelude.{ℕ, ◌<◌, ◌≡◌, ◌≢◌, true, none, some, arith, eq_iff, string_eq}
use openrport.Prelude.Int.{pos, int_eq}
use openrport.Prelude.Results.{ok}
use openrport.Strings.{Text}
use openrport.Sessions.{
  ApiSession, InternalCacheProvider, IsCache, StorageProvider, Cache, save, delete,
}
use openrport.Sessions.Laws.{get-delete}
use openrport.Sessions.Drift.{deleted_id_reused}
use openrport.Sessions.Storage.{Table, sqlite_provider}
use openrport.Bearer.{TokenContext, validate_bearer_token, current_uri_matches_token_scopes}

module _ {C : Type 0} (p : InternalCacheProvider C) (law : IsCache p) where
  -- Right after its session is deleted, with nothing saved since, a token lets no request in at any
  -- time.
  pub deleted_session_refused :
      {T : Type 0} (storage : StorageProvider T) (now : ℕ) (token : TokenContext)
      (uri method : Text) (m : Cache C T)
      → (delete p storage token.app_claims.session_id m).1 ≡ ok tt
      → validate_bearer_token p storage now token uri method
          ((delete p storage token.app_claims.session_id m).0)
        ≡ none
  unfolding validate_bearer_token
  deleted_session_refused storage now token uri method m h =
      let id = token.app_claims.session_id in
      ground (arith, get-delete p law storage now id id m h, int_eq.equal_iff id id)

  -- A token whose session was new and is deleted lets requests within its scopes in again once
  -- another new session, of whichever user, is saved, as the new session gets the same id.
  pub revoked_token_accepted :
      (now later : ℕ) (a b : ApiSession) (m : Cache C Table) (token : TokenContext)
      (uri method : Text)
      → a.session_id ≡ pos 0
      → b.session_id ≡ pos 0
      → later < b.expires_at
      → token.jwt_valid ≡ true
      → token.app_claims.username ≢ ""
      → current_uri_matches_token_scopes uri method token.app_claims.scopes ≡ true
      → (save p sqlite_provider now a m).1 ≡ ok token.app_claims.session_id
      → validate_bearer_token p sqlite_provider later token uri method (
          (save p sqlite_provider later b (
            (delete p sqlite_provider token.app_claims.session_id
              ((save p sqlite_provider now a m).0)).0)).0)
        ≡ some (record b { session_id = token.app_claims.session_id })
  unfolding validate_bearer_token
  revoked_token_accepted now later a b m token uri method na nb live valid named scoped issued =
      let (id, given, found) = deleted_id_reused p law now later a b m na nb live in
      let same : id ≡ token.app_claims.session_id = ground (arith, given, issued) in
      ground (arith, found, same, eq_iff token.app_claims.username "")
