-- ===== src/Users/Associated.antt =====
-- serializers/user.py: the validation of the field `associated_authenticators`.
pub mod Reports
pub mod Entries
pub mod Sound
pub mod Raises
use jewel.Prelude.{
  ℕ, Bool, true, false, not, ◌&&◌, ◌||◌, Text, text, text_eq, show, Option, none, some, List, [],
  ◌∷◌, ◌++◌, any, is_some, if◌then◌else◌,
}
use jewel.Prelude.Dict.{Dict, insert}
use jewel.Users.{
  AuthenticatorUser, Problem, no_such_authenticator, not_superuser, not_an_object,
  keys_not_integers, not_a_dictionary, unknown_keys, no_uid, email_not_text, email_invalid,
  uid_conflict, Result, ok, invalid, raised, ◌>>=◌, Env, Rows, rows_of, check_uid_conflict,
  find_authenticator,
}
use jewel.Users.Json.{
  Json, null, str, other, object, Members, end, member, is_true, get, keys, equals,
}

-- What Python's `int` makes of a text.
pub data Number : Type 0 where
  not_integer : Number
  negative : Number
  natural : ℕ → Number

-- `int`, Django's `EmailValidator`, and the text that the database compares with another value.
pub record Readers : Type 0 where
  pub int : Text → Number
  pub is_email : Text → Bool
  pub as_text : Json → Text

abbrev email_member : Option Text → Members
email_member none = end
email_member (some []) = end
email_member (some (c ∷ s)) = member (text "email") (str (c ∷ s)) end

-- The uid of a row, and its email unless that is empty.
abbrev pub details_of : AuthenticatorUser → Json
details_of r = object (member (text "uid") (str r.uid) (email_member r.email))

insert_rows : Rows → Dict Json → Dict Json
insert_rows [] d = d
insert_rows (r ∷ rows) d = insert_rows rows (insert (show r.provider) (details_of r) d)

members : Dict Json → Members
members [] = end
members ((k, v) ∷ d) = member k v (members d)

-- `get_associated_authenticators`, with its keys as texts
unfoldable pub get_associated_authenticators : ℕ → Rows → Members
unfolding insert_rows members
get_associated_authenticators pk rows = members (insert_rows (rows_of pk rows) [])

-- The functions of `_collect_validation_errors` report problems; one that raises another exception
-- ends the request.
unfoldable pub collect : Result (Unit {0}) → Result (List Problem) → Result (List Problem)
collect raised rest = raised
collect (ok _) rest = rest
collect (invalid ps) rest = rest >>= λ qs. ok (ps ++ qs)

abbrev pub report : List Problem → Result (Unit {0})
report [] = ok tt
report (p ∷ ps) = invalid (p ∷ ps)

abbrev pub has_text : Option Json → Bool
has_text (some (str (c ∷ s))) = true
has_text _ = false

abbrev pub is_allowed_key : Text → Bool
is_allowed_key k = text_eq k (text "uid") || text_eq k (text "email")

abbrev pub problem_if : Bool → Problem → List Problem
problem_if true p = p ∷ []
problem_if false p = []

module _ (E : Env) (P : Readers) where
  abbrev pub exists_number : Number → Bool
  exists_number not_integer = false
  exists_number negative = false
  exists_number (natural id) = is_some (find_authenticator E id)

  abbrev pub is_integer : Number → Bool
  is_integer not_integer = false
  is_integer negative = true
  is_integer (natural id) = true

  -- `_validate_authenticator_keys_exist`
  unfoldable pub validate_authenticator_keys_exist : List Text → Result (Unit {0})
  validate_authenticator_keys_exist ks =
      if any (λ k. not (is_integer (P.int k))) ks
      then invalid (keys_not_integers ∷ [])
      else if any (λ k. not (exists_number (P.int k))) ks
      then invalid (no_such_authenticator ∷ [])
      else ok tt

  -- `_validate_email_value`
  unfoldable pub validate_email_value : Text → Option Json → List Problem
  validate_email_value key none = []
  validate_email_value key (some null) = []
  validate_email_value key (some (str s)) = if P.is_email s then [] else email_invalid key ∷ []
  validate_email_value key (some (other b)) = email_not_text key ∷ []
  validate_email_value key (some (object ms)) = email_not_text key ∷ []

  -- `_validate_single_authenticator_entry`
  unfoldable pub validate_single_authenticator_entry : Text → Json → List Problem
  validate_single_authenticator_entry key (object ms) =
      problem_if (any (λ k. not (is_allowed_key k)) (keys ms)) (unknown_keys key)
      ++ problem_if (not (has_text (get (text "uid") ms))) (no_uid key)
      ++ validate_email_value key (get (text "email") ms)
  validate_single_authenticator_entry key null = not_a_dictionary key ∷ []
  validate_single_authenticator_entry key (str s) = not_a_dictionary key ∷ []
  validate_single_authenticator_entry key (other b) = not_a_dictionary key ∷ []

  unfoldable pub entry_problems : Members → List Problem
  entry_problems end = []
  entry_problems (member key v ms) = validate_single_authenticator_entry key v ++ entry_problems ms

  -- `_validate_authenticator_details_format`
  unfoldable pub validate_authenticator_details_format : Members → Result (Unit {0})
  validate_authenticator_details_format ms = report (entry_problems ms)

  abbrev pub conflict_at : ℕ → Option Text → Option ℕ → Rows → List Problem
  conflict_at id uid user rows = elim (check_uid_conflict id uid user rows) [
    | none ↦ []
    | some r ↦ uid_conflict id ∷ []
  ]

  -- `int(auth_id_str)` may raise a `ValueError`; an authenticator that does not exist is passed over.
  unfoldable pub conflict_of_number : Number → Option Text → Option ℕ → Rows → Result (List Problem)
  conflict_of_number not_integer uid user rows = raised
  conflict_of_number negative uid user rows = ok []
  conflict_of_number (natural id) uid user rows = elim (find_authenticator E id) [
    | none ↦ ok []
    | some a ↦ ok (conflict_at a.id uid user rows)
  ]

  unfoldable pub conflict_of_uid : Text → Option Json → Option ℕ → Rows → Result (List Problem)
  conflict_of_uid key none user rows = ok []
  conflict_of_uid key (some null) user rows = ok []
  conflict_of_uid key (some (str [])) user rows = ok []
  conflict_of_uid key (some (str (c ∷ s))) user rows =
      conflict_of_number (P.int key) (some (c ∷ s)) user rows
  conflict_of_uid key (some v) user rows =
      if is_true v then conflict_of_number (P.int key) (some (P.as_text v)) user rows else ok []

  -- `data.get("uid")`: only an object has `get`.
  unfoldable pub conflict_of : Text → Json → Option ℕ → Rows → Result (List Problem)
  conflict_of key (object ms) user rows = conflict_of_uid key (get (text "uid") ms) user rows
  conflict_of key _ user rows = raised

  unfoldable pub conflicts : Members → Option ℕ → Rows → Result (List Problem)
  conflicts end user rows = ok []
  conflicts (member key v ms) user rows =
      conflict_of key v user rows >>= λ ps. conflicts ms user rows >>= λ qs. ok (ps ++ qs)

  -- `_validate_associated_authenticators_conflicts`
  unfoldable pub validate_associated_authenticators_conflicts :
      Members → Option ℕ → Rows → Result (Unit {0})
  validate_associated_authenticators_conflicts ms user rows = conflicts ms user rows >>= report

  -- `_collect_validation_errors` on the three validations, in their order
  unfoldable pub entries_problems : Members → Option ℕ → Rows → Result (List Problem)
  entries_problems ms user rows = collect (validate_authenticator_keys_exist (keys ms)) (
      collect (validate_authenticator_details_format ms)
        (collect (validate_associated_authenticators_conflicts ms user rows) (ok [])))

  abbrev pub is_unchanged : Json → Option ℕ → Rows → Bool
  is_unchanged v none rows = false
  is_unchanged v (some pk) rows = equals (object (get_associated_authenticators pk rows)) v

  abbrev accept_if_none : Json → List Problem → Result Json
  accept_if_none v [] = ok v
  accept_if_none v (p ∷ ps) = invalid (p ∷ ps)

  unfoldable pub validate_object : Json → Option ℕ → Rows → Result Json
  validate_object (object ms) user rows =
      entries_problems ms user rows >>= accept_if_none (object ms)
  validate_object _ user rows = invalid (not_an_object ∷ [])

  -- `validate_associated_authenticators`, for the user that is updated, if any
  unfoldable pub validate_associated_authenticators :
      (superuser : Bool) → Json → Option ℕ → Rows → Result Json
  validate_associated_authenticators superuser v user rows =
      if not (is_true v)
      then ok (object end)
      else if is_unchanged v user rows
      then ok v
      else if not superuser
      then invalid (not_superuser ∷ [])
      else validate_object v user rows
