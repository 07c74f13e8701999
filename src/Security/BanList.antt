-- ===== src/Security/BanList.antt =====
-- share/security/banlist.go, BanList: a visitor is banned for a fixed time from its last addition.
use openrport.Prelude.{
  ℕ, ◌+◌, ◌≡◌, String, Bool, false, List, [], Option, none, some, arith, ltb, if◌then◌else◌, ◌==◌,
  lookup, insert, lookup-insert, string_eq,
}

pub record BanList : Type 0 where
  pub ban_duration : ℕ
  pub visitors : List (String × ℕ)

pub new_ban_list : ℕ → BanList
new_ban_list ban_duration = record { ban_duration = ban_duration; visitors = [] }

pub add : ℕ → String → BanList → BanList
add now visitor_key l = record l { visitors = insert visitor_key (now + l.ban_duration) l.visitors }

abbrev found_after : Option ℕ → ℕ → Bool
found_after none now = false
found_after (some ban_expiry) now = ltb now ban_expiry

pub is_banned : ℕ → String → BanList → Bool
is_banned now visitor_key l = found_after (lookup visitor_key l.visitors) now

-- An addition bans its visitor exactly until `ban_duration` after it, whatever stood there before,
-- and leaves every other visitor's ban as it was.
pub is_banned-add :
    (t now : ℕ) (k j : String) (l : BanList)
    → is_banned now j (add t k l)
      ≡ (if k == j then ltb now (t + l.ban_duration) else is_banned now j l)
unfolding is_banned add
is_banned-add t now k j l = rw (lookup-insert k j (t + l.ban_duration) l.visitors) (ground arith)
