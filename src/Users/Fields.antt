-- ===== src/Users/Fields.antt =====
-- serializers/user.py: `validate`, which looks at several fields together. Deprecation warnings are
-- left out.
pub mod Passed
use jewel.Prelude.{
  ℕ, ◌<◌, ltb, Bool, true, false, not, ◌&&◌, ◌||◌, Text, text_eq, strip, split_commas, is_member,
  any, map, keep, length, Option, none, some, List, [], ◌∷◌, ◌++◌, if◌then◌else◌, is_some,
}
use jewel.Users.{
  User, Problem, uid_conflict, uid_missing, several_authenticators, uid_not_empty, email_forbidden,
  Result, ok, invalid, raised, ◌>>=◌, Env, Rows, difference, is_proper_subset,
  get_authenticator_ids, get_authenticator_uids, check_uid_conflict, find_authenticator,
}

-- The fields that are read: `email` is none if it is not in the data.
pub record Data : Type 0 where
  pub authenticators : Option (List ℕ)
  pub authenticator_uid : Option Text
  pub email : Option Text

-- Which fields the request has, whether it is partial, and whether the library lets the requesting
-- user, if there is one, change the instance without editing themselves.
pub record Submission : Type 0 where
  pub partial : Bool
  pub has_authenticators : Bool
  pub has_authenticator_uid : Bool
  pub has_associated_authenticators : Bool
  pub can_change_user : Option Bool

abbrev same_email : Text → Option Text → Bool
same_email t none = false
same_email t (some s) = text_eq t s

abbrev permitted : Option Bool → Result (Unit {0})
permitted none = ok tt
permitted (some true) = ok tt
permitted (some false) = invalid (email_forbidden ∷ [])

-- `_validate_email_change`
unfoldable pub validate_email_change : Submission → Option User → Data → Result (Unit {0})
validate_email_change r none d = ok tt
validate_email_change r (some u) d = elim d.email [
  | none ↦ ok tt
  | some t ↦ if same_email t u.email then ok tt else permitted r.can_change_user
]

-- `get_authenticator_uids()[0]`, which raises on an empty list
abbrev with_first : Data → List Text → Result Data
with_first d [] = raised
with_first d (uid ∷ uids) = ok (record d { authenticator_uid = some uid })

-- `_handle_partial_update`
unfoldable pub handle_partial_update : Submission → Option User → Rows → Data → Result Data
handle_partial_update r none rows d = ok d
handle_partial_update r (some u) rows d =
    if r.partial && r.has_authenticators && not r.has_authenticator_uid
    then with_first d (get_authenticator_uids u.pk rows)
    else ok d

-- `uid.strip() for uid in value.split(',') if uid.strip()`
abbrev incoming : Text → List Text
incoming value = keep (λ t. not (text_eq t [])) (map strip (split_commas value))

-- `_is_authenticator_uid_unchanged`, the equality of two sets
unfoldable pub is_authenticator_uid_unchanged : Text → List Text → Bool
is_authenticator_uid_unchanged value uids =
    not (any (λ t. not (is_member t uids)) (incoming value))
    && not (any (λ t. not (is_member t (incoming value))) uids)

-- An empty uid is none.
abbrev pub given : Option Text → Option Text
given none = none
given (some []) = none
given (some (c ∷ s)) = some (c ∷ s)

abbrev pub problem_if : Bool → Problem → List Problem
problem_if true p = p ∷ []
problem_if false p = []

module _ (E : Env) where
  abbrev conflict_at : ℕ → Text → Option ℕ → Rows → List Problem
  conflict_at id uid user rows = elim (find_authenticator E id) [
    | none ↦ []
    | some a ↦
        problem_if (is_some (check_uid_conflict a.id (some uid) user rows)) (uid_conflict a.id)
  ]

  unfoldable pub uid_conflicts : List ℕ → Text → Option ℕ → Rows → List Problem
  uid_conflicts [] uid user rows = []
  uid_conflicts (id ∷ ids) uid user rows =
      conflict_at id uid user rows ++ uid_conflicts ids uid user rows

  -- `_validate_uid_conflicts`
  unfoldable pub validate_uid_conflicts : List ℕ → Option Text → Option ℕ → Rows → List Problem
  validate_uid_conflicts ids none user rows = []
  validate_uid_conflicts ids (some uid) user rows = uid_conflicts ids uid user rows

  abbrev is_changed : Option Text → List Text → Bool
  is_changed none uids = false
  is_changed (some uid) uids = not (is_authenticator_uid_unchanged uid uids)

  abbrev is_empty : List ℕ → Bool
  is_empty [] = true
  is_empty (n ∷ ns) = false

  -- `_validate_new_authenticators`
  unfoldable pub validate_new_authenticators :
      List ℕ → Option Text → Option ℕ → List ℕ → Rows → List Problem
  validate_new_authenticators ids uid none current rows = []
  validate_new_authenticators ids uid (some pk) current rows =
      problem_if
        (ltb 1 (length ids)
          && (not (is_empty (difference ids current))
              || is_changed uid (get_authenticator_uids pk rows)))
        several_authenticators

  -- The uid that is required to add an authenticator to those that the user has.
  abbrev validate_uid_presence : List ℕ → Option Text → Option ℕ → List ℕ → List Problem
  validate_uid_presence ids uid none current = []
  validate_uid_presence ids uid (some pk) current =
      problem_if
        (not (is_empty (difference ids current))
          && is_empty (difference current ids)
          && not (is_empty current)
          && not (is_some uid))
        uid_missing

  -- `_validate_authenticators_and_uid`, for a list that is not empty
  unfoldable pub validate_authenticators_and_uid :
      List ℕ → Option Text → Option ℕ → List ℕ → Rows → List Problem
  validate_authenticators_and_uid ids uid user current rows =
      if is_proper_subset ids current
      then []
      else problem_if (not (is_some (given uid))) uid_missing
        ++ validate_uid_presence ids (given uid) user current
        ++ validate_uid_conflicts ids (given uid) user rows
        ++ validate_new_authenticators ids (given uid) user current rows

  -- The errors of `validate`, `_validate_empty_authenticators` included.
  abbrev field_problems : Option (List ℕ) → Option Text → Option ℕ → List ℕ → Rows → List Problem
  field_problems none uid user current rows = []
  field_problems (some []) uid user current rows = problem_if (is_some (given uid)) uid_not_empty
  field_problems (some (a ∷ ids)) uid user current rows =
      validate_authenticators_and_uid (a ∷ ids) uid user current rows

  abbrev pub current_ids : Option User → Rows → List ℕ
  current_ids none rows = []
  current_ids (some u) rows = get_authenticator_ids u.pk rows

  abbrev pub pk_of : Option User → Option ℕ
  pk_of none = none
  pk_of (some u) = some u.pk

  abbrev accept_if_none : Data → List Problem → Result Data
  accept_if_none d [] = ok d
  accept_if_none d (p ∷ ps) = invalid (p ∷ ps)

  -- `validate`, after that of the library. The uid is read before a partial update sets it.
  unfoldable pub validate : Submission → Option User → Rows → Data → Result Data
  validate r user rows d = validate_email_change r user d >>= λ _.
      handle_partial_update r user rows d >>= λ d'.
      if r.has_associated_authenticators
      then ok d'
      else accept_if_none d' (
          field_problems d.authenticators d.authenticator_uid (pk_of user) (current_ids user rows)
            rows)
