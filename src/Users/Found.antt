-- ===== src/Users/Found.antt =====
-- What a lookup of an authenticator finds, and what a user keeps when an email is given to it.
use jewel.Prelude.{
  ℕ, ◌≡◌, refl, Text, Option, none, some, List, [], ◌∷◌, keep, Bool-cases, Option-cases, ◌==◌,
  ==_iff, inl, inr,
}
use jewel.Users.{Authenticator, User, Env, first, find_authenticator, with_email}

module _ (E : Env) where
  pub find_authenticator-id :
      (id : ℕ) {a : Authenticator} → find_authenticator E id ≡ some a → a.id ≡ id
  unfolding find_authenticator keep
  find_authenticator-id id {a} h = go E.authenticators h
    where
      go : (l : List Authenticator) → first (keep (λ b. b.id == id) l) ≡ some a → a.id ≡ id
      go [] h = cc
      go (b ∷ l) h = elim (Bool-cases (b.id == id)) [
        | inl e ↦ found b ((==_iff b.id id).0 e) (rw (e, keep) at h)
        | inr e ↦ go l (rw (e, keep) at h)
      ]
        where
          found : (b : Authenticator) → b.id ≡ id → some b ≡ some a → a.id ≡ id
          found b e h = cc

  pub username-with_email :
      (email : Option Text) (u : User) → (with_email E email u).username ≡ u.username
  unfolding with_email
  username-with_email none u = refl
  username-with_email (some t) u = elim (Option-cases u.email) [
    | inl e ↦ rw e refl
    | inr (old, e) ↦ rw e refl
  ]

  pub pk-with_email : (email : Option Text) (u : User) → (with_email E email u).pk ≡ u.pk
  unfolding with_email
  pk-with_email none u = refl
  pk-with_email (some t) u = elim (Option-cases u.email) [
    | inl e ↦ rw e refl
    | inr (old, e) ↦ rw e refl
  ]
