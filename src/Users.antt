-- ===== src/Users.antt =====
-- Users and their accounts at the authenticators: what aap_gateway_api/models/user.py and
-- serializers/user.py read and write. A set is a list of its members.
pub mod Json
pub mod Associated
pub mod Model
pub mod Password
pub mod Returns
pub mod Found
pub mod Fields
pub mod Writes
pub mod Update
mod Tests
use jewel.Prelude.{
  ℕ, Bool, true, false, not, ◌&&◌, Text, text_eq, is_member, add_member, Option, none, some, List,
  [], ◌∷◌, ◌++◌, keep, map, any, ◌==◌, if◌then◌else◌,
}

pub record Authenticator : Type 0 where
  pub id : ℕ
  pub name : Text
  pub type : Text

pub record AuthenticatorUser : Type 0 where
  pub user : ℕ
  pub provider : ℕ
  pub uid : Text
  pub email : Option Text

-- A user; an email that is missing is `None`.
pub record User : Type 0 where
  pub pk : ℕ
  pub username : Text
  pub first_name : Text
  pub last_name : Text
  pub email : Option Text
  pub password : Option Text
  pub is_superuser : Bool
  pub managed : Bool
  pub last_login_from : Option ℕ

-- What a `ValidationError` reports; the texts of the messages are left out.
pub data Problem : Type 0 where
  not_superuser : Problem
  not_an_object : Problem
  keys_not_integers : Problem
  no_such_authenticator : Problem
  not_a_dictionary : Text → Problem
  unknown_keys : Text → Problem
  no_uid : Text → Problem
  email_not_text : Text → Problem
  email_invalid : Text → Problem
  uid_conflict : ℕ → Problem
  uid_missing : Problem
  several_authenticators : Problem
  uid_not_empty : Problem
  email_forbidden : Problem
  password_forbidden : Problem
  password_weak : Problem
  no_username : Problem

-- A `ValidationError` is `invalid`; any other exception is `raised`.
pub data Result {ℓ} (A : Type ℓ) : Type ℓ where
  ok : A → Result A
  invalid : List Problem → Result A
  raised : Result A

infixl 5 ◌>>=◌
abbrev pub ◌>>=◌ {ℓ κ} : {A : Type ℓ} {B : Type κ} → Result A → (A → Result B) → Result B
ok a >>= f = f a
invalid ps >>= f = invalid ps
raised >>= f = raised

-- The table of authenticators, which is only read here; whether a type of authenticator has a
-- local plugin; and whether the constraints of the database admit a row beside the others.
pub record Env : Type 0 where
  pub authenticators : List Authenticator
  pub is_local : Text → Bool
  pub admits : AuthenticatorUser → List AuthenticatorUser → Bool

abbrev pub Rows : Type 0
Rows = List AuthenticatorUser

abbrev pub first {ℓ} : {A : Type ℓ} → List A → Option A
first [] = none
first (x ∷ xs) = some x

abbrev pub has_number : ℕ → List ℕ → Bool
has_number n ns = any (λ m. m == n) ns

-- `set(xs) - set(ys)`
abbrev pub difference : List ℕ → List ℕ → List ℕ
difference xs ys = keep (λ x. not (has_number x ys)) xs

-- `set(xs) < set(ys)`
unfoldable pub is_proper_subset : List ℕ → List ℕ → Bool
is_proper_subset xs ys =
    not (any (λ x. not (has_number x ys)) xs) && any (λ y. not (has_number y xs)) ys

abbrev pub rows_of : ℕ → Rows → Rows
rows_of pk rows = keep (λ r. r.user == pk) rows

-- `get_authenticator_ids`
unfoldable pub get_authenticator_ids : ℕ → Rows → List ℕ
get_authenticator_ids pk rows = map (λ r. r.provider) (rows_of pk rows)

distinct : List Text → List Text
distinct [] = []
distinct (t ∷ ts) = add_member t (distinct ts)

-- `get_authenticator_uids`
unfoldable pub get_authenticator_uids : ℕ → Rows → List Text
unfolding distinct
get_authenticator_uids pk rows = distinct (map (λ r. r.uid) (rows_of pk rows))

abbrev pub is_other : Option ℕ → AuthenticatorUser → Bool
is_other none r = true
is_other (some pk) r = not (r.user == pk)

abbrev has_uid : Option Text → AuthenticatorUser → Bool
has_uid none r = false
has_uid (some uid) r = text_eq r.uid uid

abbrev pub is_conflict : ℕ → Option Text → Option ℕ → AuthenticatorUser → Bool
is_conflict authenticator uid user r =
    r.provider == authenticator && has_uid uid r && is_other user r

-- `_check_uid_conflict`: the row of another user with this uid.
unfoldable pub check_uid_conflict : ℕ → Option Text → Option ℕ → Rows → Option AuthenticatorUser
check_uid_conflict authenticator uid user rows =
    first (keep (is_conflict authenticator uid user) rows)

module _ (E : Env) where
  -- `Authenticator.objects.get(id=…)`
  unfoldable pub find_authenticator : ℕ → Option Authenticator
  find_authenticator id = first (keep (λ a. a.id == id) E.authenticators)

  -- `_validate_authenticator_exists`
  unfoldable pub validate_authenticator_exists : ℕ → Result Authenticator
  validate_authenticator_exists id = elim (find_authenticator id) [
    | none ↦ invalid (no_such_authenticator ∷ [])
    | some a ↦ ok a
  ]

  -- Whether the plugin of an authenticator is local.
  unfoldable pub is_local_provider : ℕ → Bool
  is_local_provider id = elim (find_authenticator id) [ none ↦ false | some a ↦ E.is_local a.type ]

  abbrev is_username : Option Text → User → Bool
  is_username none u = false
  is_username (some uid) u = text_eq uid u.username

  -- "For local authenticators, UID must match the username"
  unfoldable pub corrected_uid : Authenticator → Option Text → User → Option Text
  corrected_uid a uid u =
      if E.is_local a.type && not (is_username uid u) then some u.username else uid

  -- `AuthenticatorUser.objects.create`; the uid must not be null.
  unfoldable pub create_row : ℕ → ℕ → Option Text → Option Text → Rows → Result Rows
  create_row pk provider none email rows = raised
  create_row pk provider (some uid) email rows =
      let row : AuthenticatorUser = record {
        user = pk;
        provider = provider;
        uid = uid;
        email = email;
      } in
      if E.admits row rows then ok (rows ++ row ∷ []) else raised

  -- The email of the row is given to the user who has none.
  unfoldable pub with_email : Option Text → User → User
  with_email none u = u
  with_email (some email) u = elim u.email [ none ↦ record u { email = some email } | some e ↦ u ]

  unfoldable pub create_at :
      Authenticator → Option Text → Option Text → User → Rows → Result (User × Rows)
  create_at a uid email u rows = elim (check_uid_conflict a.id uid (some u.pk) rows) [
    | some r ↦ invalid (uid_conflict a.id ∷ [])
    | none ↦ create_row u.pk a.id (corrected_uid a uid u) email rows >>= λ rows'.
        ok (with_email email u, rows')
  ]

  -- `_create_authenticator_user`
  unfoldable pub create_authenticator_user :
      ℕ → Option Text → Option Text → User → Rows → Result (User × Rows)
  create_authenticator_user id uid email u rows =
      validate_authenticator_exists id >>= λ a. create_at a uid email u rows
