-- ===== src/TwoFactor.antt =====
-- server/2fa_auth.go: the second factor of a login, by a token that is sent or by a code of an
-- authenticator app. The users, the message service and github.com/pquerna/otp are arguments;
-- `random` is what security.NewRandomToken yields and `now` the time of the call.
pub mod Logins
use openrport.Prelude.{
  ℕ, ◌+◌, String, Bool, true, false, not, ◌||◌, List, [], ◌∷◌, Option, none, some, ltb, ◌==◌,
  nat_eq, string_eq, if◌then◌else◌, lookup, insert, delete,
}
use openrport.Prelude.Results.{Result, ok, err}
use openrport.Prelude.Actions.{Action, ◌>>=◌, ◌>>◌, return, require, ask}
use openrport.Strings.{Text, is_blank}

pub record User : Type 0 where
  pub username : String
  pub two_fa_send_to : String
  pub tot_p : Text

pub record TotP : Type 0 where
  pub secret : String

pub record ExpirableToken : Type 0 where
  pub token : String
  pub expiry : ℕ

pub record TwoFaService : Type 0 where
  pub token_ttl : ℕ
  pub tokens_by_user : List (String × ExpirableToken)

pub data Error : Type 0 where
  username_empty user_not_found no_send_to : Error
  random_failed send_failed : Error
  users_failed : Error
  login_not_found login_expired invalid_key no_secret invalid_code : Error

abbrev pub token_length : ℕ
token_length = 6

abbrev put : String → ExpirableToken → Action TwoFaService Error (Unit {0})
put username t srv = (record srv { tokens_by_user = insert username t srv.tokens_by_user }, ok tt)

module _ (get_by_username : String → Result Error (Option User)) where
  abbrev find_user : String → Result Error User
  find_user username = elim (get_by_username username) [
    | err e ↦ err e
    | ok found ↦ elim found [ none ↦ err user_not_found | some u ↦ ok u ]
  ]

  -- `send` tells whether the message service took the token for the receiver.
  unfoldable pub send_token :
      Result Error String → (String → String → Bool) → ℕ → String → Action TwoFaService Error String
  send_token random send now username = do
    require (not (username == "")) username_empty
    user ← ask (λ srv. find_user username)
    require (not (user.two_fa_send_to == "")) no_send_to
    token ← ask (λ srv. random)
    require (send user.two_fa_send_to token) send_failed
    (λ srv. put username (record { token = token; expiry = now + srv.token_ttl }) srv)
    return user.two_fa_send_to

unfoldable pub set_tot_p_login_session : ℕ → String → ℕ → TwoFaService → TwoFaService
set_tot_p_login_session now username ttl srv = record srv {
  tokens_by_user = insert username (record { token = ""; expiry = now + ttl }) srv.tokens_by_user;
}

-- A token that is there and has not expired.
abbrev live_token : ℕ → Option ExpirableToken → Result Error ExpirableToken
live_token now none = err login_not_found
live_token now (some t) = if ltb t.expiry now then err login_expired else ok t

module _ (unserialize : Text → Option TotP) (check : ℕ → String → TotP → Bool) where
  -- `unserialize` is unSerializeTotP.
  unfoldable pub get_users_tot_p_code : User → Result Error (Option TotP)
  get_users_tot_p_code user =
      if is_blank user.tot_p
      then ok none
      else elim (unserialize user.tot_p) [ none ↦ err invalid_key | some t ↦ ok (some t) ]

  abbrev with_secret : Option TotP → Result Error TotP
  with_secret none = err no_secret
  with_secret (some t) = if t.secret == "" then err no_secret else ok t

  abbrev forget : String → Action TwoFaService Error (Unit {0})
  forget username srv = (record srv { tokens_by_user = delete username srv.tokens_by_user }, ok tt)

  unfoldable pub validate_tot_p_code : ℕ → User → String → Action TwoFaService Error (Unit {0})
  unfolding get_users_tot_p_code
  validate_tot_p_code now user code = do
    session ← ask (λ srv. live_token now (lookup user.username srv.tokens_by_user))
    found ← ask (λ srv. get_users_tot_p_code user)
    tot_p ← ask (λ srv. with_secret found)
    require (check now code tot_p) invalid_code
    forget user.username

unfoldable pub validate_token : ℕ → String → String → TwoFaService → Result Error (Unit {0})
validate_token now username token srv = elim (live_token now (lookup username srv.tokens_by_user)) [
  | err e ↦ err e
  | ok t ↦ if t.token == token then ok tt else err invalid_code
]
