-- ===== src/Users/Associated/Raises.antt =====
-- Submissions on which the validation of `associated_authenticators` raises another exception.
use jewel.Prelude.{
  ℕ, true, false, ◌≡◌, ◌≢◌, refl, Text, text, Option, some, List, [], ◌∷◌, ◌++◌, inl, inr, ◌⊎◌,
}
use jewel.Users.{Problem, Result, ok, invalid, raised, ◌>>=◌, Env, Rows}
use jewel.Users.Json.{Json, null, str, other, object, Members, end, member, get, keys}
use jewel.Users.Associated.{
  not_integer, Readers, collect, validate_authenticator_keys_exist,
  validate_authenticator_details_format, conflict_of_number, conflict_of_uid, conflict_of,
  conflicts, validate_associated_authenticators_conflicts, entries_problems, is_unchanged,
  validate_object, validate_associated_authenticators,
}
use jewel.Users.Associated.Reports.{Reports, conflict_of-Reports}

bind-raised :
    (r : Result (List Problem))
    → Reports r
    → (r >>= λ ps. raised >>= λ (qs : List Problem). ok (ps ++ qs)) ≡ raised
bind-raised (ok ps) h = refl
bind-raised (invalid ps) h = absurd h
bind-raised raised h = refl

collect-raised : (r : Result (Unit {0})) → collect r raised ≡ raised
unfolding collect
collect-raised (ok u) = refl
collect-raised (invalid ps) = refl
collect-raised raised = refl

module _ (E : Env) (P : Readers) (user : Option ℕ) (rows : Rows) where
  -- An entry that is not an object, or one with a uid under a key that is not an integer.
  abbrev pub IsMalformed : Text → Json → Type 0
  IsMalformed key (object ms) =
      (uid : Text) × (P.int key ≡ not_integer) × (get (text "uid") ms ≡ some (str uid)) × (uid ≢ [])
  IsMalformed key null = Unit
  IsMalformed key (str s) = Unit
  IsMalformed key (other b) = Unit

  abbrev pub HasMalformed : Members → Type 0
  HasMalformed end = ⊥
  HasMalformed (member key v ms) = IsMalformed key v ⊎ HasMalformed ms

  uid_raises :
      (key uid : Text)
      → P.int key ≡ not_integer
      → uid ≢ []
      → conflict_of_uid E P key (some (str uid)) user rows ≡ raised
  unfolding conflict_of_uid conflict_of_number
  uid_raises key [] n ne = absurd (ne refl)
  uid_raises key (c ∷ s) n ne = rw (n, conflict_of_number) refl

  malformed-raises :
      (key : Text) (v : Json) → IsMalformed key v → conflict_of E P key v user rows ≡ raised
  unfolding conflict_of
  malformed-raises key (object ms) (uid, n, u, ne) = rw u (uid_raises key uid n ne)
  malformed-raises key null h = refl
  malformed-raises key (str s) h = refl
  malformed-raises key (other b) h = refl

  conflicts_raise : (ms : Members) → HasMalformed ms → conflicts E P ms user rows ≡ raised
  unfolding conflicts
  conflicts_raise end h = absurd h
  conflicts_raise (member key v ms) (inl h) = rw (malformed-raises key v h) refl
  conflicts_raise (member key v ms) (inr h) =
      rw (conflicts_raise ms h)
        (bind-raised (conflict_of E P key v user rows) (conflict_of-Reports E P user rows key v))

  -- When a superuser submits an object in which some entry is not an object, or has a uid under
  -- a key that is not an integer, and this is not what the user has already, the validation
  -- raises an exception that is not a ValidationError.
  pub validate_associated_authenticators-raises :
      (ms : Members)
      → HasMalformed ms
      → is_unchanged E P (object ms) user rows ≡ false
      → validate_associated_authenticators E P true (object ms) user rows ≡ raised
  unfolding validate_associated_authenticators validate_object entries_problems
      validate_associated_authenticators_conflicts collect
  validate_associated_authenticators-raises end h u = absurd h
  validate_associated_authenticators-raises (member key v ms) h u =
      rw (u, conflicts_raise (member key v ms) h)
        (rw
          (
            collect-raised (validate_authenticator_details_format E P (member key v ms)),
            collect-raised (validate_authenticator_keys_exist E P (keys (member key v ms))),
          )
          refl)
