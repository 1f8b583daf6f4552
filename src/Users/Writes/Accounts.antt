-- ===== src/Users/Writes/Accounts.antt =====
-- Whether a user has an account at an authenticator, while rows are added, removed and changed.
use jewel.Prelude.{
  ℕ, ◌≡◌, Bool, true, false, not, List, [], ◌∷◌, ◌++◌, map, keep, any, Any, Bool-cases, ◌==◌,
  ==_iff, inl, inr, arith,
}
use jewel.Users.{AuthenticatorUser, Rows, has_number, get_authenticator_ids}
use jewel.Users.Writes.{is_at, remove_authenticators}

-- The user has an account at this authenticator.
abbrev pub HasAccount : ℕ → ℕ → Rows → Type 0
HasAccount pk id rows = Any (λ r. (r.user ≡ pk) × (r.provider ≡ id)) rows

pub Any-left : (P : AuthenticatorUser → Type 0) (xs ys : Rows) → Any P xs → Any P (xs ++ ys)
Any-left P [] ys h = absurd h
Any-left P (x ∷ xs) ys (inl h) = inl h
Any-left P (x ∷ xs) ys (inr h) = inr (Any-left P xs ys h)

pub Any-last :
    (P : AuthenticatorUser → Type 0) (xs : Rows) (y : AuthenticatorUser)
    → P y
    → Any P (xs ++ y ∷ [])
Any-last P [] y h = inl h
Any-last P (x ∷ xs) y h = inr (Any-last P xs y h)

Any-keep :
    (P : AuthenticatorUser → Type 0) (p : AuthenticatorUser → Bool) (xs : Rows)
    → ((x : AuthenticatorUser) → P x → p x ≡ true)
    → Any P xs
    → Any P (keep p xs)
unfolding keep
Any-keep P p [] f h = absurd h
Any-keep P p (x ∷ xs) f (inl h) = rw (f x h, keep) (inl h)
Any-keep P p (x ∷ xs) f (inr h) = elim (Bool-cases (p x)) [
  | inl e ↦ rw (e, keep) (inr (Any-keep P p xs f h))
  | inr e ↦ rw (e, keep) (Any-keep P p xs f h)
]

pub Any-map :
    (P : AuthenticatorUser → Type 0) (f : AuthenticatorUser → AuthenticatorUser) (xs : Rows)
    → ((x : AuthenticatorUser) → P x → P (f x))
    → Any P xs
    → Any P (map f xs)
Any-map P f [] step h = absurd h
Any-map P f (x ∷ xs) step (inl h) = inl (step x h)
Any-map P f (x ∷ xs) step (inr h) = inr (Any-map P f xs step h)

pub ids-HasAccount :
    (pk id : ℕ) (rows : Rows)
    → has_number id (get_authenticator_ids pk rows) ≡ true
    → HasAccount pk id rows
unfolding get_authenticator_ids keep any
ids-HasAccount pk id [] h = cc
ids-HasAccount pk id (r ∷ rows) h = elim (Bool-cases (r.user == pk)) [
  | inr e ↦ inr (ids-HasAccount pk id rows (rw (e, keep) at h))
  | inl e ↦ elim (Bool-cases (r.provider == id)) [
    | inl k ↦ inl ((==_iff r.user pk).0 e, (==_iff r.provider id).0 k)
    | inr k ↦ inr (ids-HasAccount pk id rows (rw (e, k, keep) at h))
  ]
]

-- An account at an authenticator that is not removed stays.
pub removed-HasAccount :
    (ids : List ℕ) (pk id : ℕ) (rows : Rows)
    → has_number id ids ≡ false
    → HasAccount pk id rows
    → HasAccount pk id (remove_authenticators ids pk rows)
unfolding remove_authenticators any
removed-HasAccount [] pk id rows e h = h
removed-HasAccount (j ∷ ids) pk id rows e h =
    removed-HasAccount ids pk id _ (tail j e)
      (Any-keep _ (λ r. not (is_at pk j r)) rows (λ r k. stays j e r k.1) h)
  where
    tail : (j : ℕ) → has_number id (j ∷ ids) ≡ false → has_number id ids ≡ false
    tail j e = ground arith

    stays :
        (j : ℕ)
        → has_number id (j ∷ ids) ≡ false
        → (r : AuthenticatorUser) → r.provider ≡ id
        → not (is_at pk j r) ≡ true
    stays j e r k = ground arith
