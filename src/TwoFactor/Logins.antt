-- ===== src/TwoFactor/Logins.antt =====
-- server/2fa_auth.go: which tokens and codes finish a login, and how often.
use openrport.Prelude.{
  ℕ, ◌+◌, ◌≡◌, ◌≢◌, String, Bool, Option, some, ltb, ◌==◌, string_eq, if◌then◌else◌, lookup-insert,
  lookup-delete, arith, eq_iff, beq_refl, ◌≤◌,
}
use openrport.Prelude.Results.{Result, ok, err}
use openrport.Strings.{Text}
use openrport.TwoFactor.{
  get_users_tot_p_code, User, TotP, TwoFaService, Error, login_not_found, login_expired,
  invalid_code, send_token, set_tot_p_login_session, validate_tot_p_code, validate_token,
}

-- A token that was sent finishes its user's login, as often as it is given, until it expires; any
-- other token is invalid. Other users' tokens are as they were.
pub validate_token-send_token :
    (get_by_username : String → Result Error (Option User)) (send : String → String → Bool)
    (token given to username other : String) (now later : ℕ) (srv : TwoFaService)
    → (send_token get_by_username (ok token) send now username srv).1 ≡ ok to
    → validate_token later other given
        ((send_token get_by_username (ok token) send now username srv).0)
      ≡ (if username == other
          then (if ltb (now + srv.token_ttl) later
              then err login_expired
              else (if token == given then ok tt else err invalid_code))
          else validate_token later other given srv)
unfolding send_token validate_token
validate_token-send_token gu send token given to username other now later srv h = ground (
  arith,
  lookup-insert username other (record { token = token; expiry = now + srv.token_ttl })
      srv.tokens_by_user,
)

-- A token that could not be made or sent replaces none: the service is as it was.
pub failed_send_unchanged :
    (get_by_username : String → Result Error (Option User)) (send : String → String → Bool)
    (random : Result Error String) (username : String) (now : ℕ) (srv : TwoFaService) (e : Error)
    → (send_token get_by_username random send now username srv).1 ≡ err e
    → (send_token get_by_username random send now username srv).0 ≡ srv
unfolding send_token
failed_send_unchanged gu send random username now srv e h = ground arith

module _ (unserialize : Text → Option TotP) (check : ℕ → String → TotP → Bool) where
  -- A code of the authenticator app finishes a login once: after it is accepted, no code is, until
  -- another login starts.
  pub tot_p_login_once :
      (now later : ℕ) (user : User) (code again : String) (srv : TwoFaService)
      → (validate_tot_p_code unserialize check now user code srv).1 ≡ ok tt
      → validate_tot_p_code unserialize check later user again
          ((validate_tot_p_code unserialize check now user code srv).0)
        ≡ ((validate_tot_p_code unserialize check now user code srv).0, err login_not_found)
  unfolding validate_tot_p_code
  tot_p_login_once now later user code again srv h =
      ground (
        arith,
        lookup-delete user.username user.username srv.tokens_by_user,
        beq_refl user.username,
      )

  -- A code that is refused, for whatever reason, ends no login.
  pub refused_code_unchanged :
      (now : ℕ) (user : User) (code : String) (srv : TwoFaService) (e : Error)
      → (validate_tot_p_code unserialize check now user code srv).1 ≡ err e
      → (validate_tot_p_code unserialize check now user code srv).0 ≡ srv
  unfolding validate_tot_p_code
  refused_code_unchanged now user code srv e h = ground arith

  -- While a login by the authenticator app is open, exactly the codes that fit the user's secret
  -- finish it.
  pub open_login_accepts :
      (now later ttl : ℕ) (user : User) (code : String) (t : TotP) (srv : TwoFaService)
      → later ≤ now + ttl
      → get_users_tot_p_code unserialize check user ≡ ok (some t)
      → t.secret ≢ ""
      → (validate_tot_p_code unserialize check later user code
          (set_tot_p_login_session now user.username ttl srv)).1
        ≡ (if check later code t then ok tt else err invalid_code)
  unfolding validate_tot_p_code set_tot_p_login_session
  open_login_accepts now later ttl user code t srv h key secret = ground (
    arith,
    key,
    eq_iff t.secret "",
    lookup-insert user.username user.username (record { token = ""; expiry = now + ttl })
        srv.tokens_by_user,
    beq_refl user.username,
  )
