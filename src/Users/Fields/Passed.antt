-- ===== src/Users/Fields/Passed.antt =====
-- What holds when `validate` passes.
use jewel.Prelude.{
  append-eq_nil, ℕ, ◌≡◌, ◌≢◌, refl, sym, ap, ◌∙◌, Bool, true, false, not, Text, text_eq_iff, Option,
  none, some, List, [], ◌∷◌, All, Bool-cases, Option-cases, is_some, inl, inr, ◌⊎◌, arith,
}
use jewel.Users.{Authenticator, User, Problem, ok, Env, Rows, is_proper_subset, find_authenticator}
use jewel.Users.Returns.{bind-ok}
use jewel.Users.Associated.Entries.{IsFree, no_conflict-IsFree}
use jewel.Users.Fields.{
  Data, Submission, same_email, permitted, validate_email_change, handle_partial_update, given,
  problem_if, conflict_at, uid_conflicts, validate_uid_conflicts, validate_authenticators_and_uid,
  field_problems, current_ids, pk_of, accept_if_none, validate,
}

-- The email of the instance stays, or the requesting user may change it, or there is none.
abbrev pub EmailIsAllowed : Submission → Option User → Data → Type 0
EmailIsAllowed r none d = Unit
EmailIsAllowed r (some u) d =
    (d.email ≡ none) ⊎ ((u.email ≡ d.email) ⊎ (r.can_change_user ≢ some false))

same_email-eq : (t : Text) (e : Option Text) → same_email t e ≡ true → e ≡ some t
same_email-eq t none h = cc
same_email-eq t (some s) h = ground (arith, text_eq_iff t s)

permitted-ok : (o : Option Bool) → permitted o ≡ ok tt → o ≢ some false
permitted-ok none h k = cc
permitted-ok (some true) h k = cc
permitted-ok (some false) h k = cc

email_allowed :
    (r : Submission) (user : Option User) (d : Data)
    → validate_email_change r user d ≡ ok tt
    → EmailIsAllowed r user d
unfolding validate_email_change
email_allowed r none d h = tt
email_allowed r (some u) d h = elim (Option-cases d.email) [
  | inl e ↦ inl e
  | inr (t, e) ↦ elim (Bool-cases (same_email t u.email)) [
    | inl same ↦ inr (inl (same_email-eq t u.email same ∙ sym e))
    | inr other ↦
        inr (inr (permitted-ok r.can_change_user (rw (e, other, validate_email_change) at h)))
  ]
]

problem_if-nil : (b : Bool) (p : Problem) → problem_if b p ≡ [] → b ≡ false
problem_if-nil true p h = cc
problem_if-nil false p h = refl

accept-ok : (E : Env) (d d' : Data) (ps : List Problem) → accept_if_none E d ps ≡ ok d' → ps ≡ []
accept-ok E d d' [] h = refl
accept-ok E d d' (p ∷ ps) h = cc

module _ (E : Env) (rows : Rows) where
  -- At each authenticator of the list that exists, no other user has the uid.
  abbrev pub AreFree : List ℕ → Text → Option ℕ → Type 0
  AreFree ids uid user =
      All (λ id. (a : Authenticator) → find_authenticator E id ≡ some a → IsFree a.id uid user rows)
        ids

  conflict_at-nil :
      (id : ℕ) (uid : Text) (user : Option ℕ)
      → conflict_at E id uid user rows ≡ []
      → (a : Authenticator) → find_authenticator E id ≡ some a
      → IsFree a.id uid user rows
  conflict_at-nil id uid user h a e =
      no_conflict-IsFree a.id uid user rows
        (none_found _ (problem_if-nil _ _ (rw (e, conflict_at) at h)))
    where
      none_found : {A : Type 0} (o : Option A) → is_some o ≡ false → o ≡ none
      none_found none h = refl
      none_found (some x) h = cc

  uid_conflicts-nil :
      (ids : List ℕ) (uid : Text) (user : Option ℕ)
      → uid_conflicts E ids uid user rows ≡ []
      → AreFree ids uid user
  unfolding uid_conflicts
  uid_conflicts-nil [] uid user h = tt
  uid_conflicts-nil (id ∷ ids) uid user h =
      let (here, there) = append-eq_nil _ _ h in
      (conflict_at-nil id uid user here, uid_conflicts-nil ids uid user there)

  -- A uid that is not empty, and free.
  abbrev pub HasFreeUid : List ℕ → Option Text → Option ℕ → Type 0
  HasFreeUid ids uid user = (t : Text) × (uid ≡ some t) × (t ≢ []) × AreFree ids t user

  has_free_uid :
      (ids : List ℕ) (uid : Option Text) (user : Option ℕ)
      → is_some (given uid) ≡ true
      → validate_uid_conflicts E ids (given uid) user rows ≡ []
      → HasFreeUid ids uid user
  unfolding validate_uid_conflicts
  has_free_uid ids none user g h = cc
  has_free_uid ids (some []) user g h = cc
  has_free_uid ids (some (c ∷ s)) user g h =
      (c ∷ s, refl, λ e. cc, uid_conflicts-nil ids (c ∷ s) user h)

  problems-nil :
      (ids : List ℕ) (uid : Option Text) (user : Option ℕ) (current : List ℕ)
      → is_proper_subset ids current ≡ false
      → validate_authenticators_and_uid E ids uid user current rows ≡ []
      → HasFreeUid ids uid user
  unfolding validate_authenticators_and_uid
  problems-nil ids uid user current subset h =
      let (three, _) = append-eq_nil _ _ (rw subset at h) in
      let (two, conflicts) = append-eq_nil _ _ three in
      let (missing, _) = append-eq_nil _ _ two in
      has_free_uid ids uid user (not-false _ (problem_if-nil _ _ missing)) conflicts
    where
      not-false : (b : Bool) → not b ≡ false → b ≡ true
      not-false true e = refl
      not-false false e = cc

  -- When `validate` passes a request that names authenticators, not just some of those that the
  -- user has, and does not have the field `associated_authenticators`: the email is not
  -- submitted, or stays, or the requesting user, if there is one, may change it; and there is a
  -- uid, not empty, that no other user has at any of the authenticators.
  pub validate-IsSound :
      (r : Submission) (user : Option User) (d : Data) (a : ℕ) (ids : List ℕ) {d' : Data}
      → d.authenticators ≡ some (a ∷ ids)
      → r.has_associated_authenticators ≡ false
      → is_proper_subset (a ∷ ids) (current_ids E user rows) ≡ false
      → validate E r user rows d ≡ ok d'
      → EmailIsAllowed r user d × HasFreeUid (a ∷ ids) d.authenticator_uid (pk_of E user)
  unfolding validate
  validate-IsSound r user d a ids {d'} e no_field subset h =
      let (t, email, rest) = bind-ok (validate_email_change r user d) _ d' h in
      let (q, _, last) = bind-ok (handle_partial_update r user rows d) _ d' rest in
      (
        email_allowed r user d email,
        problems-nil (a ∷ ids) d.authenticator_uid (pk_of E user) (current_ids E user rows) subset
            (named (accept-ok E q d' _ (rw no_field at last))),
      )
    where
      named :
          field_problems E d.authenticators d.authenticator_uid
              (pk_of E user)
              (current_ids E user rows)
              rows
            ≡ []
          → validate_authenticators_and_uid E
              (a ∷ ids)
              d.authenticator_uid
              (pk_of E user)
              (current_ids E user rows)
              rows
            ≡ []
      named k =
          ap
            (λ o.
              field_problems E o d.authenticator_uid (pk_of E user) (current_ids E user rows) rows)
            (sym e)
          ∙ k
