-- ===== src/Prelude/Keyset.antt =====
-- Pages of a sorted list that each start after the last key of the page before.
use Prim.Native.Nat.{ℕ, zero, suc, ◌-◌, ◌≤◌, ◌<◌}
use mathlib.Core.Path.{◌≡◌, refl, sym, subst}
use mathlib.Core.Bool.{true, false}
use mathlib.Core.List.{List, [], ◌∷◌}
use mathlib.Core.Logic.{inl, inr}
use native.Mathlib.Omega.{arith}
use jewel.Prelude.Tests.{ltb, ltb→lt, lt→ltb, ltb→ge, ge→ltb, trans_le, Bool-cases}
use jewel.Prelude.Lists.{length, take, keep, All, All-mono}

module _ {ℓ} {A : Type ℓ} (key : A → ℕ) where
  -- The keys increase.
  abbrev pub IsIncreasing : List A → Type 0
  IsIncreasing [] = Unit
  IsIncreasing (x ∷ xs) = All (λ y. key x < key y) xs × IsIncreasing xs

  -- The last key of a page, and the one before the page if it is empty.
  abbrev pub last_key : ℕ → List A → ℕ
  last_key a [] = a
  last_key a (x ∷ xs) = last_key (key x) xs

  abbrev pub above : ℕ → List A → List A
  above a = keep (λ x. ltb a (key x))

  -- What holds of the items up to a key.
  abbrev pub UpTo : (A → Type 0) → ℕ → List A → Type 0
  UpTo P a = All (λ x. ltb a (key x) ≡ false → P x)

  above-All : (a : ℕ) (xs : List A) → All (λ x. a < key x) (above a xs)
  unfolding keep
  above-All a [] = tt
  above-All a (x ∷ xs) = elim (Bool-cases (ltb a (key x))) [
    | inl e ↦ rw (e, keep) (ltb→lt a (key x) e, above-All a xs)
    | inr e ↦ rw (e, keep) (above-All a xs)
  ]

  above-past : (a : ℕ) (xs : List A) → All (λ x. a < key x) xs → above a xs ≡ xs
  unfolding keep
  above-past a [] h = refl
  above-past a (x ∷ xs) h = rw (lt→ltb a (key x) h.0, above-past a xs h.1) refl

  above-new :
      (a : ℕ) (x : A) (xs : List A)
      → ltb a (key x) ≡ true
      → All (λ y. key x < key y) xs
      → above a (x ∷ xs) ≡ x ∷ above (key x) xs
  unfolding keep
  above-new a x xs new later =
      let far : All (λ y. a < key y) xs =
        All-mono _ _ (λ y lt. omega (arith, ltb→lt a (key x) new)) xs later in
      rw (new, above-past a xs far, above-past (key x) xs later) refl

  above-old : (a : ℕ) (x : A) (xs : List A) → ltb a (key x) ≡ false → above a (x ∷ xs) ≡ above a xs
  unfolding keep
  above-old a x xs old = rw old refl

  -- The keys of what follows a page are past its last one.
  pub UpTo-past : (P : A → Type 0) (c : ℕ) (xs : List A) → All (λ x. c < key x) xs → UpTo P c xs
  UpTo-past P c xs h =
      All-mono (λ x. c < key x) (λ x. ltb c (key x) ≡ false → P x)
        (λ x lt e. let past = lt→ltb c (key x) lt in cc) xs h

  -- A page that covers the items after a key covers all up to its own last key.
  pub UpTo-page :
      (P : A → Type 0) (a n : ℕ) (xs : List A)
      → IsIncreasing xs
      → UpTo P a xs
      → All P (take n (above a xs))
      → UpTo P (last_key a (take n (above a xs))) xs
  UpTo-page P a n [] sorted done page = tt
  UpTo-page P a zero (x ∷ xs) sorted done page = done
  UpTo-page P a (suc n) (x ∷ xs) sorted done page =
      let Goal : List A → Type 0 =
        (λ l. All P (take (suc n) l) → UpTo P (last_key a (take (suc n) l)) (x ∷ xs)) in
      elim (Bool-cases (ltb a (key x))) [
        | inl new ↦
            subst Goal (sym (above-new a x xs new sorted.0))
              (λ page'. (
                (λ below. page'.0),
                UpTo-page P (key x) n xs sorted.1 (UpTo-past P (key x) xs sorted.0) page'.1,
              ))
              page
        | inr old ↦
            subst Goal (sym (above-old a x xs old))
              (λ page'. ((λ below. done.0 old), UpTo-page P a (suc n) xs sorted.1 done.1 page'))
              page
      ]

  le-last_key : (a n : ℕ) (xs : List A) → IsIncreasing xs → a ≤ last_key a (take n (above a xs))
  unfolding keep
  le-last_key a zero [] sorted = omega arith
  le-last_key a (suc n) [] sorted = omega arith
  le-last_key a zero (x ∷ xs) sorted = omega arith
  le-last_key a (suc n) (x ∷ xs) sorted = elim (Bool-cases (ltb a (key x))) [
    | inl new ↦
        rw (above-new a x xs new sorted.0)
          (omega (arith, ltb→lt a (key x) new, le-last_key (key x) n xs sorted.1))
    | inr old ↦ rw (above-old a x xs old) (le-last_key a (suc n) xs sorted.1)
  ]

  -- A page takes its items from those that are left.
  pub length-above-page :
      (a n : ℕ) (xs : List A)
      → IsIncreasing xs
      → length (above (last_key a (take n (above a xs))) xs) ≡ length (above a xs) - n
  unfolding keep
  length-above-page a n [] sorted = omega arith
  length-above-page a zero (x ∷ xs) sorted = omega arith
  length-above-page a (suc n) (x ∷ xs) sorted =
      let Goal : List A → Type 0 =
        (λ l. length (above (last_key a (take (suc n) l)) (x ∷ xs)) ≡ length l - suc n) in
      elim (Bool-cases (ltb a (key x))) [
        | inl new ↦
            let c = last_key (key x) (take n (above (key x) xs)) in
            let far = ge→ltb c (key x) (le-last_key (key x) n xs sorted.1) in
            subst Goal (sym (above-new a x xs new sorted.0))
              (rw (above-old c x xs far) (omega (arith, length-above-page (key x) n xs sorted.1)))
        | inr old ↦
            let c = last_key a (take (suc n) (above a xs)) in
            let far =
              ge→ltb c (key x)
                (trans_le (ltb→ge a (key x) old) (le-last_key a (suc n) xs sorted.1)) in
            subst Goal (sym (above-old a x xs old))
              (rw (above-old c x xs far) (length-above-page a (suc n) xs sorted.1))
      ]

  -- An empty page has nothing left to cover.
  pub UpTo-end :
      (P : A → Type 0) (a n : ℕ) (xs : List A)
      → take (suc n) (above a xs) ≡ []
      → UpTo P a xs
      → All P xs
  unfolding keep
  UpTo-end P a n [] e done = tt
  UpTo-end P a n (x ∷ xs) e done = elim (Bool-cases (ltb a (key x))) [
    | inl new ↦ cc (rw (new, keep) at e)
    | inr old ↦ (done.0 old, UpTo-end P a n xs (rw (old, keep) at e) done.1)
  ]

pub length-take_some {ℓ} :
    {A : Type ℓ} (n : ℕ) (l : List A) (x : A) (xs : List A) → take n l ≡ x ∷ xs → 0 < length l
length-take_some zero [] x xs e = cc
length-take_some (suc n) [] x xs e = cc
length-take_some n (y ∷ l) x xs e = omega arith
