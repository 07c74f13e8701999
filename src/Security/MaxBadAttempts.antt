-- ===== src/Security/MaxBadAttempts.antt =====
-- share/security/banlist.go, MaxBadAttemptsBanList: a visitor is banned after a number of failed
-- attempts in a row.
pub mod Laws
use openrport.Prelude.{
  ℕ, ◌+◌, ◌≡◌, String, Bool, true, false, ◌&&◌, List, ◌∷◌, [], Option, none, some, arith, ltb,
  if◌then◌else◌, ◌==◌, lookup, insert, string_eq, nat_eq,
}

pub record Visitor : Type 0 where
  pub bad_attempts : ℕ
  pub ban_time : Option ℕ

pub record MaxBadAttemptsBanList : Type 0 where
  pub ban_duration : ℕ
  pub max_bad_attempts : ℕ
  pub visitors : List (String × Visitor)

pub new_max_bad_attempts_ban_list : ℕ → ℕ → MaxBadAttemptsBanList
new_max_bad_attempts_ban_list max_bad_attempts ban_duration = record {
  ban_duration = ban_duration;
  max_bad_attempts = max_bad_attempts;
  visitors = [];
}

-- `v, found := l.visitors[visitorKey]`, a missing visitor being the zero value
abbrev visitor_or_new : Option Visitor → Visitor
visitor_or_new none = record { bad_attempts = 0; ban_time = none }
visitor_or_new (some v) = v

-- The part of AddBadAttempt behind the lookup.
abbrev count_bad : ℕ → MaxBadAttemptsBanList → Visitor → Visitor
count_bad now l v =
    if (v.bad_attempts + 1) == l.max_bad_attempts
    then record { bad_attempts = 0; ban_time = some (now + l.ban_duration) }
    else record v { bad_attempts = v.bad_attempts + 1 }

pub add_bad_attempt : ℕ → String → MaxBadAttemptsBanList → MaxBadAttemptsBanList
add_bad_attempt now visitor_key l = record l {
  visitors =
      insert visitor_key (count_bad now l (visitor_or_new (lookup visitor_key l.visitors)))
        l.visitors;
}

abbrev forgive : String → MaxBadAttemptsBanList → Option Visitor → MaxBadAttemptsBanList
forgive visitor_key l none = l
forgive visitor_key l (some v) = record l {
  visitors = insert visitor_key (record { bad_attempts = 0; ban_time = none }) l.visitors;
}

pub add_success_attempt : String → MaxBadAttemptsBanList → MaxBadAttemptsBanList
add_success_attempt visitor_key l = forgive visitor_key l (lookup visitor_key l.visitors)

abbrev banned_until : Option ℕ → ℕ → Bool
banned_until none now = false
banned_until (some ban_time) now = ltb now ban_time

abbrev visitor_banned : Option Visitor → ℕ → Bool
visitor_banned none now = false
visitor_banned (some v) now = banned_until v.ban_time now

pub is_banned : ℕ → String → MaxBadAttemptsBanList → Bool
is_banned now visitor_key l = visitor_banned (lookup visitor_key l.visitors) now

-- What a server sees of its visitors, oldest first.
pub data Attempt : Type 0 where
  bad : ℕ → String → Attempt
  success : String → Attempt

pub step : MaxBadAttemptsBanList → Attempt → MaxBadAttemptsBanList
unfolding add_bad_attempt add_success_attempt
step l (bad now k) = add_bad_attempt now k l
step l (success k) = add_success_attempt k l

pub run : MaxBadAttemptsBanList → List Attempt → MaxBadAttemptsBanList
run l [] = l
run l (a ∷ rest) = run (step l a) rest
