-- ===== src/Examples/Grants.antt =====
-- A user with one group, which may use the vault, and a file of that user.
use openrport.Prelude.{◌≡◌, ◌↔◌, refl, map, arith, true, List, [], ◌∷◌, some, none, lookup}
use openrport.Prelude.Results.{Result, ok}
use openrport.Strings.{Text, text_eq}
use openrport.Users.{User, Group, UserError, is_true, check_permission, grant, all, all_permissions}
use openrport.Users.File.{
  Json, FileAdapter, parse_users, file_manager, add_user, update_user, delete_user,
}
use openrport.Users.File.Changes.{IsJson, IsReadableAfter, operations-readable}
use openrport.Users.Permissions.{check_permission-get_effective_user_permissions}

abbrev vault : Text
vault = b'v' ∷ b'a' ∷ b'u' ∷ b'l' ∷ b't' ∷ []

abbrev ops : Text
ops = b'o' ∷ b'p' ∷ b's' ∷ []

abbrev operator : User
operator = record {
  username = b'u' ∷ [];
  password = [];
  password_expired = none;
  groups = some (ops ∷ []);
  two_fa_send_to = [];
  tot_p = [];
}

abbrev groups : Text → Result UserError Group
groups name = ok (record { name = name; permissions = some ((vault, true) ∷ []) })

check_permission-get_effective_user_permissions_example :
    (check_permission groups operator vault ≡ ok tt) ↔ (
      is_true
        (lookup vault (grant groups (some ((vault, true) ∷ [])) all_permissions (all (some []))))
      ≡ true)
unfolding openrport.Users.get_effective_user_permissions
check_permission-get_effective_user_permissions_example =
    check_permission-get_effective_user_permissions groups operator vault
      (grant groups (some ((vault, true) ∷ [])) all_permissions (all (some []))) refl refl

-- A file that holds a list of users, whose names have no space around them.
abbrev list_file : Json (List User)
list_file = record {
  elements = λ users. some (map (λ u. some u) users);
  write = λ users file. (users, true);
  trim = λ s. s;
}

list_file-IsJson : IsJson list_file
list_file-IsJson = record {
  trim_again = λ s. refl;
  elements-write = λ users file file' h. ground (arith, h);
}

abbrev hash : Text
hash = b'$' ∷ b'2' ∷ b'y' ∷ b'$' ∷ b'x' ∷ []

abbrev ann : User
ann = record operator { password = hash }

abbrev bob : User
bob = record ann { username = ops }

-- Ann takes another name, with an empty password for no change.
abbrev renamed : User
renamed = record operator { username = vault }

abbrev adapter : FileAdapter (List User)
adapter = record { file = ann ∷ []; by_username = [] }

operations-readable_example :
    IsReadableAfter list_file (add_user (file_manager list_file) bob adapter)
    × IsReadableAfter list_file (update_user (file_manager list_file) renamed (b'u' ∷ []) adapter)
    × IsReadableAfter list_file (delete_user (file_manager list_file) (b'u' ∷ []) adapter)
unfolding parse_users openrport.Strings.has_prefix
operations-readable_example =
    operations-readable list_file list_file-IsJson adapter bob renamed (b'u' ∷ []) refl refl refl
