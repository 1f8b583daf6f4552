-- ===== src/UserMerge/Grouped.antt =====
-- Grouped users: what holds of all users holds of all groups.
use jewel.Prelude.{
  ◌≡◌, inl, inr, Text, text_eq, Option, none, some, List, [], ◌∷◌, or_default, Bool-cases,
  Option-cases, All, All-append,
}
use mathlib.Core.Path.{subst}
use mathlib.Core.Option.{some-injective}
use jewel.Prelude.Dict.{Dict, lookup, insert}
use jewel.UserMerge.{User}
use jewel.UserMerge.Groups.{
  service_type_order, append_to, append_known, group_by_type, base_username, correlate_users,
  correlate_types, correlate_users_across_services,
}

module _ (Q : User → Type 0) where
  abbrev pub AllGroups : Dict (List User) → Type 0
  AllGroups d = All (λ e. All Q e.1) d

  abbrev pub ForKey : Dict (List User) → Text → Type 0
  ForKey d k = All Q (or_default (lookup k d) [])

  pub AllGroups-ForKey : (d : Dict (List User)) → AllGroups d → (k : Text) → ForKey d k
  unfolding lookup
  AllGroups-ForKey [] h k = tt
  AllGroups-ForKey ((j, us) ∷ d) h k = elim (Bool-cases (text_eq j k)) [
    | inl same ↦ rw same h.0
    | inr other ↦ rw other (AllGroups-ForKey d h.1 k)
  ]

  AllGroups-insert :
      (k : Text) (us : List User) (d : Dict (List User))
      → All Q us
      → AllGroups d
      → AllGroups (insert k us d)
  unfolding insert
  AllGroups-insert k us [] h rest = (h, tt)
  AllGroups-insert k us ((j, vs) ∷ d) h rest = elim (Bool-cases (text_eq j k)) [
    | inl same ↦ rw same (h, rest.1)
    | inr other ↦ rw other (rest.0, AllGroups-insert k us d h rest.1)
  ]

  AllGroups-append_to :
      (k : Text) (u : User) (d : Dict (List User)) → Q u → AllGroups d → AllGroups (append_to k u d)
  AllGroups-append_to k u d here rest =
      AllGroups-insert k _ d (All-append Q _ (u ∷ []) (AllGroups-ForKey d rest k) (here, tt)) rest

  append_known-AllGroups :
      (o : Option Text) (u : User) (d d' : Dict (List User))
      → append_known o u d ≡ some d'
      → Q u
      → AllGroups d
      → AllGroups d'
  append_known-AllGroups none u d d' e h rest = cc
  append_known-AllGroups (some k) u d d' e h rest = elim (Bool-cases (text_eq k [])) [
    | inl empty ↦ cc (rw empty at e)
    | inr named ↦
        let e' : append_to k u d ≡ d' = some-injective _ _ (rw named at e) in
        subst (AllGroups) e' (AllGroups-append_to k u d h rest)
  ]

  group_by_type-AllGroups :
      (types : Dict Text) (users : List User) (d d' : Dict (List User))
      → All Q users
      → AllGroups d
      → group_by_type types users d ≡ some d'
      → AllGroups d'
  unfolding group_by_type
  group_by_type-AllGroups types [] d d' h rest e = rw (← some-injective _ _ e) rest
  group_by_type-AllGroups types (u ∷ users) d d' h rest e =
      let o = lookup u.service_id types in
      elim (Option-cases (append_known o u d)) [
        | inl missing ↦ cc (rw missing at e)
        | inr (d1, known) ↦
            group_by_type-AllGroups types users d1 d' h.1
              (append_known-AllGroups o u d d1 known h.0 rest) (rw known at e)
      ]

  correlate_users-AllGroups :
      (users : List User) (groups : Dict (List User))
      → All Q users
      → AllGroups groups
      → AllGroups (correlate_users users groups)
  unfolding correlate_users
  correlate_users-AllGroups [] groups h rest = rest
  correlate_users-AllGroups (u ∷ users) groups h rest =
      correlate_users-AllGroups users (append_to (base_username u.username) u groups) h.1
        (AllGroups-append_to (base_username u.username) u groups h.0 rest)

  correlate_types-AllGroups :
      (types : List Text) (all_users groups : Dict (List User))
      → AllGroups all_users
      → AllGroups groups
      → AllGroups (correlate_types types all_users groups)
  unfolding correlate_types
  correlate_types-AllGroups [] all_users groups h rest = rest
  correlate_types-AllGroups (t ∷ types) all_users groups h rest =
      correlate_types-AllGroups types all_users _ h (
        correlate_users-AllGroups (or_default (lookup t all_users) []) groups
          (AllGroups-ForKey all_users h t) rest)

  -- What holds of every user holds of the accounts of every group.
  pub correlated-AllGroups :
      (types : Dict Text) (users : List User) (all_users : Dict (List User))
      → All Q users
      → group_by_type types users [] ≡ some all_users
      → AllGroups (correlate_users_across_services all_users)
  correlated-AllGroups types users all_users h e =
      correlate_types-AllGroups service_type_order all_users []
        (group_by_type-AllGroups types users [] all_users h tt e) tt
