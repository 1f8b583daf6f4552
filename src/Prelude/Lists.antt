-- ===== src/Prelude/Lists.antt =====
-- Lists measured and indexed by native numbers, under the library's names, and filters by a test.
use Prim.Native.Nat.{ℕ, zero, suc, ◌+◌, ◌-◌, ◌≤◌, min}
use mathlib.Core.Path.{◌≡◌, refl, sym, ap, ◌∙◌}
use mathlib.Core.Bool.{Bool, true, false, ◌||◌}
use mathlib.Core.List.{List, [], ◌∷◌, ◌++◌, map}
use mathlib.Core.Logic.{◌⊎◌, inl, inr}
use native.Mathlib.Omega.{arith}
use jewel.Prelude.Tests.{if◌then◌else◌, Bool-cases}

module _ {ℓ} {A : Type ℓ} where
  abbrev pub length : List A → ℕ
  length [] = 0
  length (x ∷ xs) = suc (length xs)

  abbrev pub take : ℕ → List A → List A
  take zero xs = []
  take (suc n) [] = []
  take (suc n) (x ∷ xs) = x ∷ take n xs

  abbrev pub drop : ℕ → List A → List A
  drop zero xs = xs
  drop (suc n) [] = []
  drop (suc n) (x ∷ xs) = drop n xs

  pub length-append : (xs ys : List A) → length (xs ++ ys) ≡ length xs + length ys
  length-append [] ys = omega arith
  length-append (x ∷ xs) ys = omega (arith, length-append xs ys)

  pub take-append-drop : (n : ℕ) (xs : List A) → take n xs ++ drop n xs ≡ xs
  take-append-drop zero xs = refl
  take-append-drop (suc n) [] = refl
  take-append-drop (suc n) (x ∷ xs) = ap (λ l. x ∷ l) (take-append-drop n xs)

  pub append-eq_nil : (xs ys : List A) → xs ++ ys ≡ [] → (xs ≡ []) × (ys ≡ [])
  append-eq_nil [] ys h = (refl, h)
  append-eq_nil (x ∷ xs) ys h = cc

  pub length-take : (n : ℕ) (xs : List A) → length (take n xs) ≡ min n (length xs)
  length-take zero xs = omega arith
  length-take (suc n) [] = omega arith
  length-take (suc n) (x ∷ xs) = omega (arith, length-take n xs)

  pub length-drop : (n : ℕ) (xs : List A) → length (drop n xs) ≡ length xs - n
  length-drop zero xs = omega arith
  length-drop (suc n) [] = omega arith
  length-drop (suc n) (x ∷ xs) = omega (arith, length-drop n xs)

  -- `[x for x in xs if p(x)]`
  unfoldable pub keep : (A → Bool) → List A → List A
  keep p [] = []
  keep p (x ∷ xs) = let rest = keep p xs in if p x then x ∷ rest else rest

  pub length-keep-le : (p : A → Bool) (xs : List A) → length (keep p xs) ≤ length xs
  unfolding keep
  length-keep-le p [] = omega arith
  length-keep-le p (x ∷ xs) = ground (arith, length-keep-le p xs)

  pub keep-taken :
      (p : A → Bool) (x : A) (xs : List A) → p x ≡ true → keep p (x ∷ xs) ≡ x ∷ keep p xs
  unfolding keep
  keep-taken p x xs h = rw h refl

  pub keep-dropped :
      (p : A → Bool) (x : A) (xs : List A) → p x ≡ false → keep p (x ∷ xs) ≡ keep p xs
  unfolding keep
  keep-dropped p x xs h = rw h refl

  pub keep-append : (p : A → Bool) (xs ys : List A) → keep p (xs ++ ys) ≡ keep p xs ++ keep p ys
  unfolding keep
  keep-append p [] ys = refl
  keep-append p (x ∷ xs) ys = elim (Bool-cases (p x)) [
    | inl e ↦ rw (e, keep) (ap (λ l. x ∷ l) (keep-append p xs ys))
    | inr e ↦ rw (e, keep) (keep-append p xs ys)
  ]

  -- Dropping items first that would be dropped anyway.
  pub keep-keep :
      (p q : A → Bool) (xs : List A)
      → ((x : A) → p x ≡ true → q x ≡ true)
      → keep p (keep q xs) ≡ keep p xs
  unfolding keep
  keep-keep p q [] h = refl
  keep-keep p q (x ∷ xs) h = elim (Bool-cases (p x)) [
    | inl e ↦
        ap (keep p) (keep-taken q x xs (h x e))
        ∙ keep-taken p x (keep q xs) e
        ∙ ap (λ l. x ∷ l) (keep-keep p q xs h)
        ∙ sym (keep-taken p x xs e)
    | inr e ↦ elim (Bool-cases (q x)) [
      | inl k ↦
          ap (keep p) (keep-taken q x xs k)
          ∙ keep-dropped p x (keep q xs) e
          ∙ keep-keep p q xs h
          ∙ sym (keep-dropped p x xs e)
      | inr k ↦
          ap (keep p) (keep-dropped q x xs k) ∙ keep-keep p q xs h ∙ sym (keep-dropped p x xs e)
    ]
  ]

  -- A change of items that are dropped, and stay so.
  pub keep-map :
      (p : A → Bool) (f : A → A) (xs : List A)
      → ((x : A) → p x ≡ true → f x ≡ x)
      → ((x : A) → p x ≡ false → p (f x) ≡ false)
      → keep p (map f xs) ≡ keep p xs
  unfolding keep
  keep-map p f [] same out = refl
  keep-map p f (x ∷ xs) same out = elim (Bool-cases (p x)) [
    | inl e ↦
        keep-taken p (f x) (map f xs) (ap p (same x e) ∙ e)
        ∙ ap (λ l. f x ∷ l) (keep-map p f xs same out)
        ∙ ap (λ y. y ∷ keep p xs) (same x e)
        ∙ sym (keep-taken p x xs e)
    | inr e ↦
        keep-dropped p (f x) (map f xs) (out x e)
        ∙ keep-map p f xs same out
        ∙ sym (keep-dropped p x xs e)
  ]

  -- `any(p(x) for x in xs)`
  unfoldable pub any : (A → Bool) → List A → Bool
  any p [] = false
  any p (x ∷ xs) = p x || any p xs

  -- A predicate at each item.
  abbrev pub All {κ} : (A → Type κ) → List A → Type κ
  All P [] = Unit
  All P (x ∷ xs) = P x × All P xs

  -- What holds of the kept items holds of every item that passes the test.
  pub All-of_keep {κ} :
      (P : A → Type κ) (p : A → Bool) (xs : List A)
      → All P (keep p xs)
      → All (λ x. p x ≡ true → P x) xs
  unfolding keep
  All-of_keep P p [] h = tt
  All-of_keep P p (x ∷ xs) h = elim (Bool-cases (p x)) [
    | inl passed ↦ let h' = rw (passed, keep) at h in (λ e. h'.0, All-of_keep P p xs h'.1)
    | inr other ↦ (λ e. cc, All-of_keep P p xs (rw (other, keep) at h))
  ]

  pub All-keep : (p : A → Bool) (xs : List A) → All (λ x. p x ≡ true) (keep p xs)
  unfolding keep
  All-keep p [] = tt
  All-keep p (x ∷ xs) = elim (Bool-cases (p x)) [
    | inl e ↦ rw (e, keep) (e, All-keep p xs)
    | inr e ↦ rw (e, keep) (All-keep p xs)
  ]

  pub keep-whole : (p : A → Bool) (xs : List A) → All (λ x. p x ≡ true) xs → keep p xs ≡ xs
  unfolding keep
  keep-whole p [] h = refl
  keep-whole p (x ∷ xs) h = rw (h.0, keep) (ap (λ l. x ∷ l) (keep-whole p xs h.1))

  pub All-of_any : (p : A → Bool) (xs : List A) → any p xs ≡ false → All (λ x. p x ≡ false) xs
  unfolding any
  All-of_any p [] h = tt
  All-of_any p (x ∷ xs) h = elim (Bool-cases (p x)) [
    | inl e ↦ cc (rw e at h)
    | inr e ↦ (e, All-of_any p xs (rw e at h))
  ]

  pub All-keep_sub {κ} :
      (P : A → Type κ) (p : A → Bool) (xs : List A) → All P xs → All P (keep p xs)
  unfolding keep
  All-keep_sub P p [] h = tt
  All-keep_sub P p (x ∷ xs) h = elim (Bool-cases (p x)) [
    | inl passed ↦ rw (passed, keep) (h.0, All-keep_sub P p xs h.1)
    | inr other ↦ rw (other, keep) (All-keep_sub P p xs h.1)
  ]

  pub All-mono {κ μ} :
      (P : A → Type κ) (Q : A → Type μ)
      → ((x : A) → P x → Q x)
      → (xs : List A) → All P xs
      → All Q xs
  All-mono P Q f [] h = tt
  All-mono P Q f (x ∷ xs) h = (f x h.0, All-mono P Q f xs h.1)

  pub All-both {κ μ} :
      (P : A → Type κ) (Q : A → Type μ) (xs : List A)
      → All P xs
      → All Q xs
      → All (λ x. P x × Q x) xs
  All-both P Q [] h k = tt
  All-both P Q (x ∷ xs) h k = ((h.0, k.0), All-both P Q xs h.1 k.1)

  -- What holds of every item and itself as one of them.
  pub All-diagonal {κ} :
      (B : A → A → Type κ) (xs : List A) → All (λ x. All (B x) xs) xs → All (λ x. B x x) xs
  All-diagonal B [] h = tt
  All-diagonal B (x ∷ xs) h =
      (h.0.0, All-diagonal B xs (All-mono _ (λ y. All (B y) xs) (λ y k. k.1) xs h.1))

  pub All-take {κ} : (P : A → Type κ) (n : ℕ) (xs : List A) → All P xs → All P (take n xs)
  All-take P zero xs h = tt
  All-take P (suc n) [] h = tt
  All-take P (suc n) (x ∷ xs) h = (h.0, All-take P n xs h.1)

  pub All-drop {κ} : (P : A → Type κ) (n : ℕ) (xs : List A) → All P xs → All P (drop n xs)
  All-drop P zero xs h = h
  All-drop P (suc n) [] h = tt
  All-drop P (suc n) (x ∷ xs) h = All-drop P n xs h.1

  pub All-of_append {κ} : (P : A → Type κ) (xs ys : List A) → All P (xs ++ ys) → All P xs
  All-of_append P [] ys h = tt
  All-of_append P (x ∷ xs) ys h = (h.0, All-of_append P xs ys h.1)

  pub All-append {κ} : (P : A → Type κ) (xs ys : List A) → All P xs → All P ys → All P (xs ++ ys)
  All-append P [] ys h k = k
  All-append P (x ∷ xs) ys h k = (h.0, All-append P xs ys h.1 k)

pub All-map {ℓ κ μ} :
    {A : Type ℓ} (P : A → Type κ) (Q : A → Type μ) (f : A → A)
    → ((x : A) → P x → Q (f x))
    → (xs : List A) → All P xs
    → All Q (map f xs)
All-map P Q f step [] h = tt
All-map P Q f step (x ∷ xs) h = (step x h.0, All-map P Q f step xs h.1)

-- A predicate at one of the items.
abbrev pub Any {ℓ} : {A : Type ℓ} → (A → Type 0) → List A → Type 0
Any P [] = ⊥
Any P (x ∷ xs) = P x ⊎ Any P xs
