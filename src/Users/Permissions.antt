-- ===== src/Users/Permissions.antt =====
-- server/api/users/service.go: CheckPermission and GetEffectiveUserPermissions agree.
use openrport.Prelude.{
  ◌≡◌, ◌↔◌, ◌⊎◌, refl, inl, inr, ap, subst, ◌∙◌, Bool, true, false, ◌&&◌, ◌||◌, List, [], ◌∷◌, some,
  ◌==◌, nat_eq, lookup, insert, lookup-insert, contains, Bool-cases, arith,
}
use openrport.Prelude.Results.{Result, ok, err, Result-cases}
use openrport.Strings.{Text, text_eq}
use openrport.Users.{
  User, Group, Permissions, UserError, all_permissions, is_true, has, all, all_of, groups_of_user,
  check_groups, check_permission, grant, grant_groups, get_effective_user_permissions,
}

none_in : (ps : List Text) (p : Text) → is_true (lookup p (all_of (some []) ps)) ≡ false
unfolding has lookup
none_in [] p = refl
none_in (q ∷ ps) p = ground (arith, lookup-insert q p false (all_of (some []) ps), none_in ps p)

nothing_granted :
    (p : Text) → contains all_permissions p ≡ true → is_true (lookup p (all (some []))) ≡ false
unfolding all
nothing_granted p known = none_in all_permissions p

module _ (get_group : Text → Result UserError Group) where
  grant_lem :
      (permissions : Permissions) (ps : List Text) (granted : List (Text × Bool)) (p : Text)
      → is_true (lookup p (grant get_group permissions ps granted))
        ≡ (is_true (lookup p granted) || (contains ps p && has permissions p))
  unfolding grant
  grant_lem permissions [] granted p = ground arith
  grant_lem permissions (q ∷ ps) granted p = elim (Bool-cases (q == p)) [
    | inl same ↦
        let e : q ≡ p = (text_eq.equal_iff q p).0 same in
        ground (
          arith,
          same,
          e,
          lookup-insert q p true granted,
          grant_lem permissions ps granted p,
          grant_lem permissions ps (insert q true granted) p,
        )
    | inr differs ↦ ground (
      arith,
      differs,
      lookup-insert q p true granted,
      grant_lem permissions ps granted p,
      grant_lem permissions ps (insert q true granted) p,
    )
  ]

  granted_all :
      (permissions : Permissions) (granted : List (Text × Bool)) (p : Text)
      → contains all_permissions p ≡ true
      → is_true (lookup p (grant get_group permissions all_permissions granted))
        ≡ (is_true (lookup p granted) || has permissions p)
  granted_all permissions granted p known =
      grant_lem permissions all_permissions granted p
      ∙ ap (λ b. is_true (lookup p granted) || (b && has permissions p)) known

  ok_rest :
      (name : Text) (names : List Text) (group : Group) (granted after : List (Text × Bool))
      → get_group name ≡ ok group
      → grant_groups get_group (name ∷ names) granted ≡ ok after
      → grant_groups get_group names (grant get_group group.permissions all_permissions granted)
        ≡ ok after
  unfolding grant_groups
  ok_rest name names group granted after e h =
      subst
        (λ (r : Result UserError Group).
          (elim r [
            | err w ↦ err w
            | ok g ↦
                grant_groups get_group names (grant get_group g.permissions all_permissions granted)
          ])
          ≡ ok after)
        e h

  one_group :
      (name : Text) (names : List Text) (group : Group)
      (granted granted' after : List (Text × Bool)) (p : Text)
      → get_group name ≡ ok group
      → is_true (lookup p granted') ≡ (is_true (lookup p granted) || has group.permissions p)
      → (is_true (lookup p after) ≡ true)
        ↔ ((is_true (lookup p granted') ≡ true) ⊎ (check_groups get_group names p ≡ ok tt))
      → (is_true (lookup p after) ≡ true)
        ↔ ((is_true (lookup p granted) ≡ true) ⊎ (check_groups get_group (name ∷ names) p ≡ ok tt))
  unfolding check_groups
  one_group name names group granted granted' after p e step rest = ground (arith, e, step, rest)

  -- Where all groups are found, a permission is granted exactly if it was before or the check passes.
  grant_groups-check_groups :
      (names : List Text) (granted after : List (Text × Bool)) (p : Text)
      → contains all_permissions p ≡ true
      → grant_groups get_group names granted ≡ ok after
      → (is_true (lookup p after) ≡ true)
        ↔ ((is_true (lookup p granted) ≡ true) ⊎ (check_groups get_group names p ≡ ok tt))
  unfolding grant_groups check_groups
  grant_groups-check_groups [] granted after p known h = ground (arith, h)
  grant_groups-check_groups (name ∷ names) granted after p known h =
      elim (Result-cases (get_group name)) [
        | inr (w, e) ↦ absurd (ground (arith, h, e))
        | inl (group, e) ↦
            let granted' = grant get_group group.permissions all_permissions granted in
            one_group name names group granted granted' after p e
              (granted_all group.permissions granted p known)
              (grant_groups-check_groups names granted' after p known
                (ok_rest name names group granted after e h))
      ]

  -- Of a provider with groups, whose groups of a user are all found, the effective permissions hold
  -- exactly those of the known permissions for which the check of the user passes.
  pub check_permission-get_effective_user_permissions :
      (user : User) (p : Text) (effective : List (Text × Bool))
      → contains all_permissions p ≡ true
      → get_effective_user_permissions get_group true user ≡ ok effective
      → (check_permission get_group user p ≡ ok tt) ↔ (is_true (lookup p effective) ≡ true)
  unfolding get_effective_user_permissions check_permission
  check_permission-get_effective_user_permissions user p effective known h = ground (
    arith,
    nothing_granted p known,
    grant_groups-check_groups (groups_of_user user) (all (some [])) effective p known h,
  )
