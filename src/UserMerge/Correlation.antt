-- ===== src/UserMerge/Correlation.antt =====
-- Correlated users: what holds of all groups holds of all users.
use jewel.Prelude.{
  ◌≡◌, refl, inl, inr, true, Text, text_eq, text_eq_refl, text_eq_iff, is_member, Option, none,
  some, List, [], ◌∷◌, ◌++◌, or_default, Bool-cases, Option-cases, All, All-of_append,
}
use mathlib.Core.Path.{subst}
use mathlib.Core.Option.{some-injective}
use jewel.Prelude.Dict.{Dict, lookup, lookup-insert}
use jewel.UserMerge.{User}
use jewel.UserMerge.Groups.{
  ServiceApi, service_type_order, append_to, add_type, service_id_to_type, append_known,
  group_by_type, base_username, correlate_users, correlate_types, correlate_users_across_services,
}
use jewel.UserMerge.Grouped.{AllGroups, ForKey, AllGroups-ForKey}

All-last : (Q : User → Type 0) (us : List User) (u : User) → All Q (us ++ u ∷ []) → Q u
All-last Q [] u h = h.0
All-last Q (v ∷ us) u h = All-last Q us u h.1

module _ (Q : User → Type 0) where
  module _ (T : Text → Type 0) where
    abbrev Every : Dict (List User) → Type 0
    Every d = (k : Text) → T k → ForKey Q d k

    Every-append_to :
        (k : Text) (u : User) (d : Dict (List User)) → T k → Every (append_to k u d) → Q u × Every d
    Every-append_to k u d t h =
        let new = or_default (lookup k d) [] ++ u ∷ [] in
        let here = rw (lookup-insert k k new d, text_eq_refl k) at (h k t) in
        (
          All-last Q (or_default (lookup k d) []) u here,
          (λ j tj. elim (Bool-cases (text_eq k j)) [
            | inl same ↦
                rw (← (text_eq_iff k j).0 same)
                  (All-of_append Q (or_default (lookup k d) []) (u ∷ []) here)
            | inr other ↦ rw (lookup-insert k j new d, other) at (h j tj)
          ]),
        )

    Every-append_known :
        (o : Option Text) (u : User) (d d' : Dict (List User))
        → ((k : Text) → o ≡ some k → T k)
        → append_known o u d ≡ some d'
        → Every d'
        → Q u × Every d
    Every-append_known none u d d' t e h = cc
    Every-append_known (some k) u d d' t e h = elim (Bool-cases (text_eq k [])) [
      | inl empty ↦ cc (rw empty at e)
      | inr named ↦
          let e' : append_to k u d ≡ d' = some-injective _ _ (rw named at e) in
          Every-append_to k u d (t k refl) (rw e' h)
    ]

    group_by_type-Every :
        (types : Dict Text) (users : List User) (d d' : Dict (List User))
        → ((id k : Text) → lookup id types ≡ some k → T k)
        → group_by_type types users d ≡ some d'
        → Every d'
        → All Q users × Every d
    unfolding group_by_type
    group_by_type-Every types [] d d' t e h = (tt, rw (some-injective _ _ e) h)
    group_by_type-Every types (u ∷ users) d d' t e h =
        elim (Option-cases (append_known (lookup u.service_id types) u d)) [
          | inl missing ↦ cc (rw missing at e)
          | inr (d1, known) ↦
              let (rest, every) = group_by_type-Every types users d1 d' t (rw known at e) h in
              let (here, before) =
                Every-append_known (lookup u.service_id types) u d d1 (t u.service_id) known
                  every in
              ((here, rest), before)
        ]

  correlate_users-ForKey :
      (users : List User) (groups : Dict (List User))
      → ((k : Text) → ForKey Q (correlate_users users groups) k)
      → All Q users × ((k : Text) → ForKey Q groups k)
  unfolding correlate_users
  correlate_users-ForKey [] groups h = (tt, h)
  correlate_users-ForKey (u ∷ users) groups h =
      let (rest, every) =
        correlate_users-ForKey users (append_to (base_username u.username) u groups) h in
      let (here, before) =
        Every-append_to (λ k. Unit) (base_username u.username) u groups tt (λ k any. every k) in
      ((here, rest), (λ k. before k tt))

  correlate_types-ForKey :
      (types : List Text) (all_users groups : Dict (List User))
      → ((k : Text) → ForKey Q (correlate_types types all_users groups) k)
      → All (ForKey Q all_users) types × ((k : Text) → ForKey Q groups k)
  unfolding correlate_types
  correlate_types-ForKey [] all_users groups h = (tt, h)
  correlate_types-ForKey (t ∷ types) all_users groups h =
      let (rest, every) =
        correlate_types-ForKey types all_users
          (correlate_users (or_default (lookup t all_users) []) groups) h in
      let (here, before) =
        correlate_users-ForKey (or_default (lookup t all_users) []) groups every in
      ((here, rest), before)

All-is_member :
    (P : Text → Type 0) (us : List Text) (u : Text) → All P us → is_member u us ≡ true → P u
unfolding is_member
All-is_member P [] u h e = cc
All-is_member P (v ∷ us) u h e = elim (Bool-cases (text_eq v u)) [
  | inl same ↦ subst P ((text_eq_iff v u).0 same) h.0
  | inr other ↦ All-is_member P us u h.1 (rw other at e)
]

-- The types that the migration goes through.
abbrev pub IsOrdered : Text → Type 0
IsOrdered k = is_member k service_type_order ≡ true

service_id_to_type-IsOrdered :
    (apis : List ServiceApi) (d : Dict Text)
    → All (λ api. IsOrdered api.service_type) apis
    → ((id k : Text) → lookup id d ≡ some k → IsOrdered k)
    → (id k : Text) → lookup id (service_id_to_type apis d) ≡ some k
    → IsOrdered k
unfolding service_id_to_type
service_id_to_type-IsOrdered [] d ordered h = h
service_id_to_type-IsOrdered (api ∷ apis) d ordered h =
    service_id_to_type-IsOrdered apis (add_type api.service_id api.service_type d) ordered.1
      (added api.service_id)
  where
    added :
        (o : Option Text) (id k : Text)
        → lookup id (add_type o api.service_type d) ≡ some k
        → IsOrdered k
    added none id k e = h id k e
    added (some j) id k e = elim (Bool-cases (text_eq j id)) [
      | inl same ↦
          let e' : api.service_type ≡ k =
            some-injective _ _ (rw (lookup-insert j id api.service_type d, same) at e) in
          rw (← e') ordered.0
      | inr other ↦ h id k (rw (lookup-insert j id api.service_type d, other) at e)
    ]

-- What holds of the accounts of every group holds of every user, since each type is in the order.
pub All-correlated :
    (Q : User → Type 0) (apis : List ServiceApi) (users : List User) (all_users : Dict (List User))
    → All (λ api. IsOrdered api.service_type) apis
    → group_by_type (service_id_to_type apis []) users [] ≡ some all_users
    → AllGroups Q (correlate_users_across_services all_users)
    → All Q users
unfolding lookup
All-correlated Q apis users all_users ordered e h =
    let keys = AllGroups-ForKey Q (correlate_users_across_services all_users) h in
    let types = (correlate_types-ForKey Q service_type_order all_users [] keys).0 in
    (group_by_type-Every Q IsOrdered (service_id_to_type apis []) users [] all_users
      (service_id_to_type-IsOrdered apis [] ordered (λ id k miss. cc)) e
      (λ k t. All-is_member (ForKey Q all_users) service_type_order k types t)).0
