-- ===== src/Users/Password.antt =====
-- serializers/user.py: the policy for passwords.
pub mod Accepted
use jewel.Prelude.{
  ℕ, Bool, true, false, not, ◌&&◌, ◌||◌, ltb, Text, text, text_eq, is_member, length, keep, Option,
  none, some, List, [], ◌∷◌, ◌++◌, if◌then◌else◌,
}
use jewel.Users.{
  User, Problem, password_forbidden, password_weak, no_username, Result, ok, invalid, raised, ◌>>=◌,
}

-- `PASSWORD_DISABLED`
abbrev pub password_disabled : Text
password_disabled = text "Password Disabled"

-- The preferences of local login, the library's `ENCRYPTED_STRING`, and Python's classes of
-- characters.
pub record Policy : Type 0 where
  pub password_min_length : ℕ
  pub password_min_digits : ℕ
  pub password_min_upper : ℕ
  pub password_min_special : ℕ
  pub allow_admins_to_set_insecure : Bool
  pub encrypted_string : Text
  pub is_digit : ℕ → Bool
  pub is_upper : ℕ → Bool
  pub is_alnum : ℕ → Bool

-- What the serializer knows of the request: whether a superuser makes it, whether the library lets
-- the password of the instance be changed, and whether there is a username.
pub record Request : Type 0 where
  pub is_superuser : Bool
  pub instance_may_change : Option Bool
  pub has_username : Bool

module _ (P : Policy) where
  -- The empty text and the two placeholders are not checked.
  abbrev pub is_unchecked : Text → Bool
  is_unchecked p = is_member p ([] ∷ P.encrypted_string ∷ password_disabled ∷ [])

  -- A minimum of 0 is no requirement.
  abbrev too_few : ℕ → ℕ → List Problem
  too_few minimum n = if ltb 0 minimum && ltb n minimum then password_weak ∷ [] else []

  -- `sum(p(c) for c in password)`
  abbrev pub number_of : (ℕ → Bool) → Text → ℕ
  number_of p password = length (keep p password)

  -- `_perform_password_validation`
  unfoldable pub perform_password_validation : Text → List Problem
  perform_password_validation password =
      too_few P.password_min_length (length password)
      ++ too_few P.password_min_digits (number_of P.is_digit password)
      ++ too_few P.password_min_upper (number_of P.is_upper password)
      ++ too_few P.password_min_special (number_of (λ c. not (P.is_alnum c)) password)

  abbrev username_of_instance : Option Bool → Result Bool
  username_of_instance none = invalid (no_username ∷ [])
  username_of_instance (some b) = ok true

  -- `_allow_insecure_password_override`
  unfoldable pub allow_insecure_password_override : Request → Result Bool
  allow_insecure_password_override r =
      if r.is_superuser && P.allow_admins_to_set_insecure
      then (if r.has_username then ok true else username_of_instance r.instance_may_change)
      else ok false

  abbrev accept_weak : Text → List Problem → Request → Result Text
  accept_weak password [] r = ok password
  accept_weak password (p ∷ ps) r = allow_insecure_password_override r >>= λ allowed.
      if allowed then ok password else invalid (p ∷ ps)

  abbrev pub may_change : Option Bool → Bool
  may_change none = true
  may_change (some b) = b

  -- `validate_password`
  unfoldable pub validate_password : Text → Request → Result Text
  validate_password password r =
      if is_unchecked password
      then ok password
      else if not (may_change r.instance_may_change)
      then invalid (password_forbidden ∷ [])
      else accept_weak password (perform_password_validation password) r
