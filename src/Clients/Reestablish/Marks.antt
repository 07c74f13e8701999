-- ===== src/Clients/Reestablish/Marks.antt =====
-- server/clients/client_service.go: what is re-established, against the tunnels that were there and
-- those that the client asks for.
use openrport.Prelude.{
  suc, ◌+◌, ◌≡◌, ◌⊎◌, inl, inr, refl, ap, subst, Bool, false, not, List, [], ◌∷◌, ◌++◌, some, map,
  nat_eq, ltb, length, In, arith, Option-cases, Bool-cases, filter,
}
use mathlib.Core.List.{append_assoc, append-nil}
use openrport.Prelude.Results.{Result, ok, err, Result-cases}
use openrport.Strings.{Text, text_eq}
use openrport.Remotes.{Remote, remote_address, is_local_specified}
use openrport.Clients.Reestablish.{
  Marked, unmarked, mark_first, mark_each, left_over, without_random, get_tunnels_to_reestablish,
  same_string, same_random, is_allowed, is_unknown_request, exclude_loop,
  exclude_not_allowed_tunnels,
}

-- The client allows the tunnel, or does not know what it is asked.
abbrev pub is_allowed_by : (Text → Result Text Bool) → Remote → Bool
is_allowed_by send t = elim (send (remote_address t)) [
  | ok allowed ↦ allowed
  | err e ↦ is_unknown_request e
]

mark_first-left_over :
    (fits : Remote → Bool) (old old' : Marked)
    → mark_first fits old ≡ some old'
    → length (left_over old') + 1 ≡ length (left_over old)
unfolding mark_first left_over
mark_first-left_over fits [] old' h = absurd (ground (arith, h))
mark_first-left_over fits ((marked, o) ∷ old) old' h = elim (Option-cases (mark_first fits old)) [
  | inl e ↦ ground (arith, h, e)
  | inr (later, e) ↦ ground (arith, h, e, mark_first-left_over fits old later e)
]

left_over-unmarked : (old : List Remote) → left_over (unmarked old) ≡ map without_random old
unfolding left_over
left_over-unmarked [] = refl
left_over-unmarked (o ∷ old) = ap (◌∷◌ (without_random o)) (left_over-unmarked old)

length-map : {A B : Type 0} (f : A → B) (xs : List A) → length (map f xs) ≡ length xs
length-map f [] = refl
length-map f (x ∷ xs) = ap suc (length-map f xs)

mark_each-left_over :
    (is_meant : Remote → Bool) (fits : Remote → Remote → Bool) (new : List Remote)
    (old old' : Marked)
    → mark_each is_meant fits new old ≡ some old'
    → length (left_over old') + length (filter is_meant new) ≡ length (left_over old)
unfolding mark_each
mark_each-left_over is_meant fits [] old old' h = ground (arith, h)
mark_each-left_over is_meant fits (n ∷ new) old old' h = elim (Bool-cases (is_meant n)) [
  | inr other ↦
      ground
        (arith, other, mark_each-left_over is_meant fits new old old' (ground (arith, h, other)))
  | inl meant ↦ elim (Option-cases (mark_first (fits n) old)) [
    | inl e ↦ absurd (ground (arith, h, meant, e))
    | inr (between, e) ↦ ground (
      arith,
      meant,
      mark_first-left_over (fits n) old between e,
      mark_each-left_over is_meant fits new between old' (ground (arith, h, meant, e)),
    )
  ]
]

filter_split :
    {A : Type 0} (p : A → Bool) (xs : List A)
    → length (filter p xs) + length (filter (λ x. not (p x)) xs) ≡ length xs
filter_split p [] = refl
filter_split p (x ∷ xs) = ground (arith, filter_split p xs)

mark_first-In :
    (fits : Remote → Bool) (r : Remote) (old old' : Marked)
    → mark_first fits old ≡ some old'
    → In r (left_over old')
    → In r (left_over old)
unfolding mark_first left_over
mark_first-In fits r [] old' h i = absurd (ground (arith, h))
mark_first-In fits r ((marked, o) ∷ old) old' h i = elim (Option-cases (mark_first fits old)) [
  | inl e ↦ ground (arith, h, e, i)
  | inr (later, e) ↦ ground (arith, h, e, i, mark_first-In fits r old later e)
]

mark_each-In :
    (is_meant : Remote → Bool) (fits : Remote → Remote → Bool) (r : Remote) (new : List Remote)
    (old old' : Marked)
    → mark_each is_meant fits new old ≡ some old'
    → In r (left_over old')
    → In r (left_over old)
unfolding mark_each
mark_each-In is_meant fits r [] old old' h i = ground (arith, h, i)
mark_each-In is_meant fits r (n ∷ new) old old' h i = elim (Bool-cases (is_meant n)) [
  | inr other ↦ mark_each-In is_meant fits r new old old' (ground (arith, h, other)) i
  | inl meant ↦ elim (Option-cases (mark_first (fits n) old)) [
    | inl e ↦ absurd (ground (arith, h, meant, e))
    | inr (between, e) ↦
        mark_first-In (fits n) r old between e
          (mark_each-In is_meant fits r new between old' (ground (arith, h, meant, e)) i)
  ]
]

-- Either no old tunnel is re-established, or all but as many as the client asks for are. A client
-- that asks for none gets all, less their local addresses where those were random.
pub get_tunnels_to_reestablish_lem :
    (old new : List Remote)
    → ((get_tunnels_to_reestablish old new ≡ [])
        ⊎ (length (get_tunnels_to_reestablish old new) + length new ≡ length old))
      × (get_tunnels_to_reestablish old [] ≡ map without_random old)
unfolding get_tunnels_to_reestablish mark_each
get_tunnels_to_reestablish_lem old new = (
  elim (Bool-cases (ltb (length old) (length new))) [
    | inl more ↦ inl (ground (arith, more))
    | inr fewer ↦
        elim (Option-cases (mark_each is_local_specified same_string new (unmarked old))) [
          | inl e ↦ inl (ground (arith, fewer, e))
          | inr (m, e) ↦
              elim (Option-cases (mark_each (λ n. not (is_local_specified n)) same_random new m)) [
                | inl f ↦ inl (ground (arith, fewer, e, f))
                | inr (m', f) ↦ inr (
                    ground (
                      arith,
                      fewer,
                      e,
                      f,
                      mark_each-left_over is_local_specified same_string new (unmarked old) m e,
                      mark_each-left_over (λ n. not (is_local_specified n)) same_random new m m' f,
                      left_over-unmarked old,
                      length-map without_random old,
                      filter_split is_local_specified new,
                    ))
              ]
        ]
  ],
  ground (arith, left_over-unmarked old),
)

-- What is re-established is one of the old tunnels, less its local address if that was random.
pub get_tunnels_to_reestablish-In :
    (old new : List Remote) (r : Remote)
    → In r (get_tunnels_to_reestablish old new)
    → In r (map without_random old)
unfolding get_tunnels_to_reestablish
get_tunnels_to_reestablish-In old new r i =
    subst (In r) (left_over-unmarked old) (elim (Bool-cases (ltb (length old) (length new))) [
      | inl more ↦ absurd (ground (arith, more, i))
      | inr fewer ↦
          elim (Option-cases (mark_each is_local_specified same_string new (unmarked old))) [
            | inl e ↦ absurd (ground (arith, fewer, e, i))
            | inr (m, e) ↦
                elim (Option-cases
                  (mark_each (λ n. not (is_local_specified n)) same_random new m)) [
                    | inl f ↦ absurd (ground (arith, fewer, e, f, i))
                    | inr (m', f) ↦
                        mark_each-In is_local_specified same_string r new (unmarked old) m e (
                          mark_each-In (λ n. not (is_local_specified n)) same_random r new m m' f
                            (ground (arith, fewer, e, f, i)))
                  ]
          ]
    ])

never_unknown :
    (send : Text → Result Text Bool) (remote e : Text)
    → is_allowed send remote ≡ err e
    → is_unknown_request e ≡ false
unfolding is_allowed
never_unknown send remote e h = ground (arith, h)

exclude_loop_lem :
    (send : Text → Result Text Bool) (tunnels filtered ts kept : List Remote)
    → exclude_loop send tunnels filtered ts ≡ ok kept
    → kept ≡ filtered ++ filter (λ t. is_allowed_by send t) ts
unfolding exclude_loop is_allowed
exclude_loop_lem send tunnels filtered [] kept h = ground (arith, h, append-nil filtered)
exclude_loop_lem send tunnels filtered (t ∷ ts) kept h =
    elim (Result-cases (is_allowed send (remote_address t))) [
      | inr (e, f) ↦ absurd (ground (arith, h, f, never_unknown send (remote_address t) e f))
      | inl (allowed, f) ↦ elim (Bool-cases allowed) [
        | inl g ↦ ground (
          arith,
          f,
          g,
          append_assoc filtered (t ∷ []) (filter (λ u. is_allowed_by send u) ts),
          exclude_loop_lem send tunnels (filtered ++ (t ∷ [])) ts kept (ground (arith, h, f, g)),
        )
        | inr g ↦
            ground (
              arith,
              f,
              g,
              exclude_loop_lem send tunnels filtered ts kept (ground (arith, h, f, g)),
            )
      ]
    ]

-- When the client can be asked about each old tunnel, those stay that it allows, and those of which
-- it does not know the question.
pub exclude_not_allowed_tunnels_lem :
    (send : Text → Result Text Bool) (tunnels kept : List Remote)
    → exclude_not_allowed_tunnels send tunnels ≡ ok kept
    → kept ≡ filter (λ t. is_allowed_by send t) tunnels
unfolding exclude_not_allowed_tunnels
exclude_not_allowed_tunnels_lem send tunnels kept h =
    exclude_loop_lem send tunnels [] tunnels kept h
