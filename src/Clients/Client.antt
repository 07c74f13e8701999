-- ===== src/Clients/Client.antt =====
-- server/clients/clientdata/client.go: a client's attributes and whether it belongs to a group. Of
-- the attributes that are only stored and shown, one, `os_full_name`, stands for all.
use openrport.Prelude.{
  ℕ, ◌+◌, String, Bool, true, false, ◌&&◌, ◌||◌, List, [], ◌∷◌, Option, none, some, ◌==◌, string_eq,
  nat_eq, if◌then◌else◌, ltb, any, filter, not,
}
use openrport.Strings.{Text, text_eq}
use openrport.Tunnels.{Tunnel}
use openrport.Groups.{Param, matches_one_of}
use openrport.Groups.Tags.{RawMessage, matches_raw_tags}

abbrev pub ParamValues : Type 0
ParamValues = Option (List Param)

-- server/cgroups/group.go, ClientParams
pub record ClientParams : Type 0 where
  pub client_id : ParamValues
  pub name : ParamValues
  pub os : ParamValues
  pub os_arch : ParamValues
  pub os_family : ParamValues
  pub os_kernel : ParamValues
  pub hostname : ParamValues
  pub ipv4 : ParamValues
  pub ipv6 : ParamValues
  pub tag : Option RawMessage
  pub version : ParamValues
  pub address : ParamValues
  pub client_auth_id : ParamValues
  pub connection_state : ParamValues

-- server/cgroups/group.go, ClientGroup; `params` is `none` for nil
pub record ClientGroup : Type 0 where
  pub id : String
  pub params : Option ClientParams
  pub allowed_user_groups : List String

pub record Client : Type 0 where
  pub id : Text
  pub name : Text
  pub os : Text
  pub os_arch : Text
  pub os_family : Text
  pub os_kernel : Text
  pub os_full_name : Text
  pub hostname : Text
  pub ipv4 : List Text
  pub ipv6 : List Text
  pub tags : List Text
  pub version : Text
  pub address : Text
  pub client_auth_id : Text
  pub allowed_user_groups : List String
  pub disconnected_at : Option ℕ
  pub session_id : Text
  pub paused : Bool
  pub tunnels : List Tunnel
  pub tunnel_id_auto_increment : ℕ

abbrev pub administrators : String
administrators = "Administrators"

abbrev is_none {ℓ} : {A : Type ℓ} → Option A → Bool
is_none none = true
is_none (some a) = false

-- HasNoParams: every field is nil.
abbrev pub no_fields : ClientParams → Bool
no_fields p =
    is_none p.client_id
    && (is_none p.name
        && (is_none p.os
            && (is_none p.os_arch
                && (is_none p.os_family
                    && (is_none p.os_kernel
                        && (is_none p.hostname
                            && (is_none p.ipv4
                                && (is_none p.ipv6
                                    && (is_none p.tag
                                        && (is_none p.version
                                            && (is_none p.address
                                                && (is_none p.client_auth_id
                                                    && is_none p.connection_state))))))))))))

unfoldable pub has_no_params : Option ClientParams → Bool
has_no_params none = true
has_no_params (some p) = no_fields p

pub data ConnectionState : Type 0 where
  connected disconnected : ConnectionState

unfoldable pub is_connected : Client → Bool
is_connected c = is_none c.disconnected_at

unfoldable pub calculate_connection_state : Client → ConnectionState
unfolding is_connected
calculate_connection_state c = if is_connected c then connected else disconnected

abbrev connected_text : Text
connected_text = b'c' ∷ b'o' ∷ b'n' ∷ b'n' ∷ b'e' ∷ b'c' ∷ b't' ∷ b'e' ∷ b'd' ∷ []

abbrev pub state_text : ConnectionState → Text
state_text connected = connected_text
state_text disconnected = b'd' ∷ b'i' ∷ b's' ∷ connected_text

-- Obsolete: disconnected for longer than the duration, `none` for a nil duration.
unfoldable pub obsolete : ℕ → Option ℕ → Client → Bool
obsolete now none c = false
obsolete now (some duration) c = elim c.disconnected_at [
  | none ↦ false
  | some disconnected_at ↦ ltb (disconnected_at + duration) now
]

module _ (to_lower : Text → Text) where
  abbrev one : ParamValues → Text → Bool
  one p value = matches_one_of to_lower p (value ∷ [])

  abbrev belongs : Client → ClientParams → Bool
  belongs c p =
      one p.client_id c.id
      && (one p.name c.name
          && (one p.os c.os
              && (one p.os_arch c.os_arch
                  && (one p.os_family c.os_family
                      && (one p.os_kernel c.os_kernel
                          && (one p.hostname c.hostname
                              && (matches_one_of to_lower p.ipv4 c.ipv4
                                  && (matches_one_of to_lower p.ipv6 c.ipv6
                                      && (matches_raw_tags to_lower p.tag c.tags
                                          && (one p.version c.version
                                              && (one p.address c.address
                                                  && (one p.client_auth_id c.client_auth_id
                                                      && one p.connection_state (
                                                          state_text (
                                                            calculate_connection_state
                                                            c))))))))))))))

  unfoldable pub belongs_to : Client → ClientGroup → Bool
  unfolding has_no_params calculate_connection_state
  belongs_to c group = elim group.params [
    | none ↦ false
    | some p ↦ if has_no_params (some p) then false else belongs c p
  ]

  -- The ids of the groups that ToCalculated lists.
  unfoldable pub groups_of : Client → List ClientGroup → List String
  groups_of c [] = []
  groups_of c (group ∷ groups) =
      let rest = groups_of c groups in if belongs_to c group then group.id ∷ rest else rest

  unfoldable pub belongs_to_one_of : Client → List ClientGroup → Bool
  belongs_to_one_of c groups = any (belongs_to c) groups

  abbrev pub user_group_is_allowed : ClientGroup → String → Bool
  user_group_is_allowed g required = any (λ a. a == required) g.allowed_user_groups

  abbrev pub one_of_user_groups_is_allowed : ClientGroup → List String → Bool
  one_of_user_groups_is_allowed g user_groups = any (user_group_is_allowed g) user_groups

  unfoldable pub user_group_has_access_via_client_group :
      Client → List String → List ClientGroup → Bool
  user_group_has_access_via_client_group c user_groups groups =
      any (λ g. belongs_to c g && one_of_user_groups_is_allowed g user_groups) groups

unfoldable pub has_access_via_user_groups : Client → List String → Bool
has_access_via_user_groups c user_groups =
    any (λ u. u == administrators || any (λ a. a == u) c.allowed_user_groups) user_groups

-- NewTunnelID's number, of an int64 that does not come near its bound
unfoldable pub next_tunnel_number : Client → ℕ
next_tunnel_number c = c.tunnel_id_auto_increment + 1

unfoldable pub remove_tunnel_by_id : Text → Client → Client
remove_tunnel_by_id tunnel_id c = record c {
  tunnels = filter (λ t. not (t.id == tunnel_id)) c.tunnels;
}
