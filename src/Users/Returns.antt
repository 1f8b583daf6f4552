-- ===== src/Users/Returns.antt =====
-- A property of what a function returns, if it returns.
use jewel.Prelude.{◌≡◌, refl}
use jewel.Users.{Result, ok, invalid, raised, ◌>>=◌}

abbrev pub Returns : {A : Type 0} → (A → Type 0) → Result A → Type 0
Returns P (ok a) = P a
Returns P (invalid ps) = Unit
Returns P raised = Unit

pub Returns-bind :
    {A B : Type 0} (P : A → Type 0) (Q : B → Type 0) (r : Result A) (f : A → Result B)
    → Returns P r
    → ((a : A) → P a → Returns Q (f a))
    → Returns Q (r >>= f)
Returns-bind P Q (ok a) f h k = k a h
Returns-bind P Q (invalid ps) f h k = tt
Returns-bind P Q raised f h k = tt

pub Returns-ok : {A : Type 0} (P : A → Type 0) (r : Result A) {a : A} → Returns P r → r ≡ ok a → P a
Returns-ok P (ok b) {a} h e = rw (← same) h
  where
    same : b ≡ a
    same = cc
Returns-ok P (invalid ps) h e = cc
Returns-ok P raised h e = cc

pub Returns-all :
    {A : Type 0} (P : A → Type 0) (r : Result A) → ((a : A) → r ≡ ok a → P a) → Returns P r
Returns-all P (ok a) h = h a refl
Returns-all P (invalid ps) h = tt
Returns-all P raised h = tt

-- A chain that returns has returned at each step.
pub bind-ok :
    {A B : Type 0} (r : Result A) (f : A → Result B) (b : B)
    → (r >>= f) ≡ ok b
    → (a : A) × (r ≡ ok a) × (f a ≡ ok b)
bind-ok (ok a) f b h = (a, refl, h)
bind-ok (invalid ps) f b h = cc
bind-ok raised f b h = cc
