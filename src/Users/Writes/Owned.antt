-- ===== src/Users/Writes/Owned.antt =====
-- The ids of the authenticators at which a user has accounts.
use mathlib.Core.Path.{subst}
use jewel.Prelude.{
  ℕ, ◌≡◌, refl, sym, true, false, not, List, [], ◌∷◌, keep, any, All, All-mono, All-both, All-keep,
  All-keep_sub, Bool-cases, ◌==◌, ==_iff, inl, inr, arith,
}
use jewel.Users.{AuthenticatorUser, Rows, has_number, difference, get_authenticator_ids}
use jewel.Users.Writes.{is_at, remove_authenticators}

-- The accounts of the user are among these.
abbrev pub AreAmong : ℕ → List ℕ → Rows → Type 0
AreAmong pk ids rows = All (λ r. r.user ≡ pk → has_number r.provider ids ≡ true) rows

ids_taken :
    (pk : ℕ) (r : AuthenticatorUser) (rows : Rows)
    → (r.user == pk) ≡ true
    → get_authenticator_ids pk (r ∷ rows) ≡ r.provider ∷ get_authenticator_ids pk rows
unfolding get_authenticator_ids keep
ids_taken pk r rows e = rw (e, keep) refl

ids_dropped :
    (pk : ℕ) (r : AuthenticatorUser) (rows : Rows)
    → (r.user == pk) ≡ false
    → get_authenticator_ids pk (r ∷ rows) ≡ get_authenticator_ids pk rows
unfolding get_authenticator_ids keep
ids_dropped pk r rows e = rw (e, keep) refl

pub own_ids : (pk : ℕ) (rows : Rows) → AreAmong pk (get_authenticator_ids pk rows) rows
unfolding any
own_ids pk [] = tt
own_ids pk (r ∷ rows) = elim (Bool-cases (r.user == pk)) [
  | inl e ↦
      subst (λ ids. AreAmong pk ids (r ∷ rows)) (sym (ids_taken pk r rows e))
        (
          λ same. here r.provider (get_authenticator_ids pk rows),
          All-mono _ _ (λ q h same. later q.provider r.provider _ (h same)) rows (own_ids pk rows),
        )
  | inr e ↦
      subst (λ ids. AreAmong pk ids (r ∷ rows)) (sym (ids_dropped pk r rows e))
        (λ same. absurd (other r e same), own_ids pk rows)
]
  where
    here : (n : ℕ) (ns : List ℕ) → has_number n (n ∷ ns) ≡ true
    here n ns = ground arith

    later : (n m : ℕ) (ns : List ℕ) → has_number n ns ≡ true → has_number n (m ∷ ns) ≡ true
    later n m ns h = ground arith

    other : (q : AuthenticatorUser) → (q.user == pk) ≡ false → q.user ≡ pk → ⊥
    other q e same = ground arith

-- What is among `xs` and is not dropped from it is among `ys`.
pub not_in_difference :
    (n : ℕ) (xs ys : List ℕ)
    → has_number n xs ≡ true
    → has_number n (difference xs ys) ≡ false
    → has_number n ys ≡ true
unfolding keep any
not_in_difference n [] ys h k = cc
not_in_difference n (x ∷ xs) ys h k = elim (Bool-cases (has_number x ys)) [
  | inl m ↦ elim (Bool-cases (x == n)) [
    | inl e ↦ subst (λ t. has_number t ys ≡ true) ((==_iff x n).0 e) m
    | inr e ↦ not_in_difference n xs ys (rw (e, any) at h) (rw (m, keep) at k)
  ]
  | inr m ↦ elim (Bool-cases (x == n)) [
    | inl e ↦ cc (rw (m, e, keep, any) at k)
    | inr e ↦ not_in_difference n xs ys (rw (e, any) at h) (rw (m, e, keep, any) at k)
  ]
]

-- What is among `ys` is dropped.
pub not_dropped :
    (n : ℕ) (xs ys : List ℕ) → has_number n ys ≡ true → has_number n (difference xs ys) ≡ false
unfolding keep any
not_dropped n [] ys h = refl
not_dropped n (x ∷ xs) ys h = elim (Bool-cases (has_number x ys)) [
  | inl m ↦ rw (m, keep) (not_dropped n xs ys h)
  | inr m ↦ elim (Bool-cases (x == n)) [
    | inl e ↦ cc (m, subst (λ t. has_number t ys ≡ true) (sym ((==_iff x n).0 e)) h)
    | inr e ↦ rw (m, e, keep, any) (not_dropped n xs ys h)
  ]
]

pub All-remove {κ} :
    (P : AuthenticatorUser → Type κ) (ids : List ℕ) (pk : ℕ) (rows : Rows)
    → All P rows
    → All P (remove_authenticators ids pk rows)
unfolding remove_authenticators
All-remove P [] pk rows h = h
All-remove P (id ∷ ids) pk rows h =
    All-remove P ids pk _ (All-keep_sub P (λ r. not (is_at pk id r)) rows h)

-- The accounts that are removed are gone.
pub gone :
    (ids : List ℕ) (pk : ℕ) (rows : Rows)
    → All (λ r. r.user ≡ pk → has_number r.provider ids ≡ false) (remove_authenticators ids pk rows)
unfolding remove_authenticators any
gone [] pk rows =
    All-mono (λ r. r.user == r.user ≡ r.user == r.user) _ (λ r h same. refl) rows (trivial rows)
  where
    trivial : (xs : Rows) → All (λ r. r.user == r.user ≡ r.user == r.user) xs
    trivial [] = tt
    trivial (x ∷ xs) = (refl, trivial xs)
gone (id ∷ ids) pk rows =
    let left = keep (λ r. not (is_at pk id r)) rows in
    All-mono _ _ (λ r h. both r h.0 h.1) _
      (All-both _ _ _ (gone ids pk left)
        (All-remove _ ids pk left (All-keep (λ r. not (is_at pk id r)) rows)))
  where
    both :
        (r : AuthenticatorUser)
        → (r.user ≡ pk → has_number r.provider ids ≡ false)
        → not (is_at pk id r) ≡ true
        → r.user ≡ pk
        → has_number r.provider (id ∷ ids) ≡ false
    both r h k same = ground (arith, h same)
