-- ===== src/SecretRotation/Sorted.antt =====
-- Tables in the order of the primary key, and the queries of `_paginated_reencrypt` for the rows after
-- a given key.
use jewel.Prelude.{
  ℕ, ◌≤◌, ◌<◌, ◌≡◌, refl, true, Option, some, [], ◌∷◌, ◌++◌, keep, All, ltb, ltb→lt, Bool-cases,
  inl, inr, All-of_append, arith,
}
use jewel.SecretRotation.{Row, Table, is_after, select_page, last_pk}

-- The primary keys increase.
abbrev pub IsSorted : Table → Type 0
IsSorted [] = Unit
IsSorted (r ∷ t) = All (λ s. r.pk < s.pk) t × IsSorted t

pub after_page : (m : ℕ) (t : Table) → All (λ r. m < r.pk) (keep (λ r. is_after (some m) r.pk) t)
unfolding keep
after_page m [] = tt
after_page m (r ∷ t) = elim (Bool-cases (ltb m r.pk)) [
  | inl above ↦ rw above (ltb→lt m r.pk above, after_page m t)
  | inr below ↦ rw below (after_page m t)
]

pub last_pk-lt :
    (m : ℕ) (r : Row) (rows : Table) → All (λ s. m < s.pk) (r ∷ rows) → m < last_pk r rows
unfolding last_pk
last_pk-lt m r [] h = h.0
last_pk-lt m r (s ∷ rows) h = last_pk-lt m s rows h.1

pub select_page-skip :
    (m : ℕ) (d : Row) (t : Table) → d.pk ≤ m → select_page (some m) (d ∷ t) ≡ select_page (some m) t
unfolding select_page keep
select_page-skip m d t h = elim (Bool-cases (ltb m d.pk)) [
  | inl above ↦ let lt = ltb→lt m d.pk above in ground arith
  | inr below ↦ rw below refl
]

-- The query after a page that heads a sorted table has the rows below it.
pub last_pk-le : (r : Row) (rows : Table) → IsSorted (r ∷ rows) → r.pk ≤ last_pk r rows
unfolding last_pk
last_pk-le r [] h = omega arith
last_pk-le r (s ∷ rows) h = omega (arith, last_pk-le s rows h.1, h.0.0)

pub below_page :
    (r : Row) (rows rest : Table)
    → IsSorted (r ∷ rows ++ rest)
    → All (λ s. last_pk r rows < s.pk) rest
unfolding last_pk
below_page r [] rest h = h.0
below_page r (s ∷ rows) rest h = below_page s rows rest h.1

pub IsSorted-append : (rows rest : Table) → IsSorted (rows ++ rest) → IsSorted rows × IsSorted rest
IsSorted-append [] rest h = (tt, h)
IsSorted-append (r ∷ rows) rest h =
    let (sorted, below) = IsSorted-append rows rest h.1 in
    ((All-of_append _ rows rest h.0, sorted), below)

pub keep_after :
    (last : Option ℕ) (t : Table)
    → All (λ r. is_after last r.pk ≡ true) t
    → keep (λ r. is_after last r.pk) t ≡ t
unfolding keep
keep_after last [] h = refl
keep_after last (r ∷ t) h = rw (h.0, keep_after last t h.1) refl
