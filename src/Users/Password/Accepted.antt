-- ===== src/Users/Password/Accepted.antt =====
-- Which passwords the serializer accepts.
use jewel.Prelude.{
  append-eq_nil, ℕ, ◌≤◌, ◌≡◌, refl, Bool, true, false, not, Text, length, List, [], ◌∷◌, ◌⊎◌, inl,
  inr, arith, Bool-cases, if◌then◌else◌,
}
use jewel.Users.{Problem, Result, ok, invalid, raised, ◌>>=◌}
use jewel.Users.Password.{
  Policy, Request, is_unchecked, number_of, too_few, perform_password_validation, accept_weak,
  allow_insecure_password_override, may_change, validate_password,
}

module _ (P : Policy) where
  -- The minima of the preferences.
  pub record Meets (p : Text) : Type 0 where
    pub long_enough : P.password_min_length ≤ length p
    pub digits : P.password_min_digits ≤ number_of P P.is_digit p
    pub upper : P.password_min_upper ≤ number_of P P.is_upper p
    pub special : P.password_min_special ≤ number_of P (λ c. not (P.is_alnum c)) p

  too_few-nil : (m n : ℕ) → too_few P m n ≡ [] → m ≤ n
  too_few-nil m n h = ground arith

  no_problem-Meets : (p : Text) → perform_password_validation P p ≡ [] → Meets p
  unfolding perform_password_validation
  no_problem-Meets p h =
      let (three, special) = append-eq_nil _ _ h in
      let (two, upper) = append-eq_nil _ _ three in
      let (long, digits) = append-eq_nil _ _ two in
      record {
        long_enough = too_few-nil _ _ long;
        digits = too_few-nil _ _ digits;
        upper = too_few-nil _ _ upper;
        special = too_few-nil _ _ special;
      }

  -- The override of the policy.
  abbrev pub IsOverridden : Request → Type 0
  IsOverridden r = (r.is_superuser ≡ true) × (P.allow_admins_to_set_insecure ≡ true)

  override : (r : Request) → allow_insecure_password_override P r ≡ ok true → IsOverridden r
  unfolding allow_insecure_password_override
  override r h = ground arith

  accept_weak-ok :
      (p q : Text) (ps : List Problem) (r : Request)
      → accept_weak P p ps r ≡ ok q
      → (q ≡ p) × ((ps ≡ []) ⊎ IsOverridden r)
  accept_weak-ok p q [] r h = (cc, inl refl)
  accept_weak-ok p q (x ∷ ps) r h = go (allow_insecure_password_override P r) refl h
    where
      go :
          (o : Result Bool)
          → allow_insecure_password_override P r ≡ o
          → (o >>= λ allowed. if allowed then ok p else invalid (x ∷ ps)) ≡ ok q
          → (q ≡ p) × (((x ∷ ps) ≡ []) ⊎ IsOverridden r)
      go (ok true) e k = (cc, inr (override r e))
      go (ok false) e k = cc
      go (invalid qs) e k = cc
      go raised e k = cc

  -- A password that is accepted is passed on as it is. It is empty, or one of the two placeholders
  -- for a stored password, which are not checked; or the library lets the password of the user be
  -- changed, or there is no user yet, and then the password meets the policy, or a superuser sets
  -- it where the preferences let superusers set insecure ones.
  pub validate_password-IsAllowed :
      (p q : Text) (r : Request)
      → validate_password P p r ≡ ok q
      → (q ≡ p)
        × ((is_unchecked P p ≡ true)
            ⊎ ((may_change P r.instance_may_change ≡ true) × (Meets p ⊎ IsOverridden r)))
  unfolding validate_password
  validate_password-IsAllowed p q r h = elim (Bool-cases (is_unchecked P p)) [
    | inl e ↦ (same (rw e at h), inl e)
    | inr e ↦ elim (Bool-cases (may_change P r.instance_may_change)) [
      | inl m ↦
          let accepted = accept_weak-ok p q _ r (rw (e, m) at h) in
          (
            accepted.0,
            inr (
              m,
              elim accepted.1 [
                | inl none_found ↦ inl (no_problem-Meets p none_found)
                | inr over ↦ inr over
              ],
            ),
          )
      | inr m ↦ cc (rw (e, m) at h)
    ]
  ]
    where
      same : ok p ≡ ok q → q ≡ p
      same e = cc
