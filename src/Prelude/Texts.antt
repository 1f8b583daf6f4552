-- ===== src/Prelude/Texts.antt =====
-- Texts as lists of code points, with the string methods that the program calls.
use Prim.Native.Nat.{ℕ, ◌+◌, ◌-◌}
use Prim.Native.Char.{code}
use Prim.Native.String.{String}
use mathlib.Core.Path.{◌≡◌, refl}
use mathlib.Core.Logic.{◌↔◌, inl, inr}
use mathlib.Core.Bool.{Bool, true, false, ◌&&◌, ◌||◌}
use mathlib.Core.List.{List, [], ◌∷◌, ◌++◌, map}
use mathlib.Core.Option.{Option, none, some}
use native.Mathlib.Omega.{arith}
use jewel.Prelude.Tests.{leb, ◌==◌, if◌then◌else◌, is_some, Bool-cases}

abbrev pub Text : Type 0
Text = List ℕ

-- A literal of the source.
unfoldable pub text : String → Text
text String.[] = []
text (String.◌∷◌ c s) = code c ∷ text s

unfoldable pub text_eq : Text → Text → Bool
text_eq [] [] = true
text_eq [] (d ∷ t) = false
text_eq (c ∷ s) [] = false
text_eq (c ∷ s) (d ∷ t) = (c == d) && text_eq s t

text_eq_sound : (s t : Text) → text_eq s t ≡ true → s ≡ t
unfolding text_eq
text_eq_sound [] [] h = refl
text_eq_sound [] (d ∷ t) h = cc
text_eq_sound (c ∷ s) [] h = cc
text_eq_sound (c ∷ s) (d ∷ t) h = ground (arith, text_eq_sound s t)

pub text_eq_refl : (s : Text) → text_eq s s ≡ true
unfolding text_eq
text_eq_refl [] = refl
text_eq_refl (c ∷ s) = ground (arith, text_eq_refl s)

text_eq_complete : (s t : Text) → s ≡ t → text_eq s t ≡ true
text_eq_complete s t e = rw (← e) (text_eq_refl s)

pub text_eq_iff : (s t : Text) → (text_eq s t ≡ true) ↔ (s ≡ t)
text_eq_iff s t = (text_eq_sound s t, text_eq_complete s t)

-- `s[len(prefix):]` if `s` starts with the prefix
unfoldable pub strip_prefix : Text → Text → Option Text
strip_prefix [] s = some s
strip_prefix (c ∷ p) [] = none
strip_prefix (c ∷ p) (d ∷ s) = let rest = strip_prefix p s in if c == d then rest else none

pub strip_prefix-append : (p s : Text) → strip_prefix p (p ++ s) ≡ some s
unfolding strip_prefix
strip_prefix-append [] s = refl
strip_prefix-append (c ∷ p) s = ground (arith, strip_prefix-append p s)

pub append-strip_prefix : (p s : Text) {r : Text} → strip_prefix p s ≡ some r → s ≡ p ++ r
unfolding strip_prefix
append-strip_prefix [] s h = ground arith
append-strip_prefix (c ∷ p) [] h = cc
append-strip_prefix (c ∷ p) (d ∷ s) {r} h = ground (arith, append-strip_prefix p s {r = r})

-- `s.startswith(prefix)`
abbrev pub starts_with : Text → Text → Bool
starts_with s p = is_some (strip_prefix p s)

-- `part in s`
unfoldable pub has_part : Text → Text → Bool
has_part part [] = starts_with [] part
has_part part (c ∷ s) = starts_with (c ∷ s) part || has_part part s

-- `s.upper()` and `s.lower()` on ASCII
unfoldable pub upper : Text → Text
upper = map (λ c. if leb b'a' c && leb c b'z' then c - 32 else c)

unfoldable pub lower : Text → Text
lower = map (λ c. if leb b'A' c && leb c b'Z' then c + 32 else c)

-- `s.replace(a, b)` for single characters
unfoldable pub replace : ℕ → ℕ → Text → Text
replace a b = map (λ c. if c == a then b else c)

-- What `str.strip` and `str.split` call white space.
unfoldable pub is_space : ℕ → Bool
is_space c =
    leb 9 c && leb c 13
    || leb 28 c && leb c 32
    || c == 133
    || c == 160
    || c == 5760
    || leb 8192 c && leb c 8202
    || c == 8232
    || c == 8233
    || c == 8239
    || c == 8287
    || c == 12288

unfoldable pub strip_left : Text → Text
strip_left [] = []
strip_left (c ∷ s) = let rest = strip_left s in if is_space c then rest else c ∷ s

-- A space goes if nothing but spaces follows it.
abbrev keep_space : ℕ → Text → Text
keep_space c [] = if is_space c then [] else c ∷ []
keep_space c (d ∷ t) = c ∷ d ∷ t

unfoldable pub strip_right : Text → Text
strip_right [] = []
strip_right (c ∷ s) = keep_space c (strip_right s)

-- `s.strip()`
unfoldable pub strip : Text → Text
unfolding is_space strip_left strip_right
strip s = strip_left (strip_right s)

-- `s.split(",")`
abbrev cons_char : ℕ → List Text → List Text
cons_char c [] = (c ∷ []) ∷ []
cons_char c (part ∷ parts) = (c ∷ part) ∷ parts

unfoldable pub split_commas : Text → List Text
split_commas [] = [] ∷ []
split_commas (c ∷ s) =
    let rest = split_commas s in if c == b',' then [] ∷ rest else cons_char c rest

-- `u in us`, on a list or a set of texts
unfoldable pub is_member : Text → List Text → Bool
is_member u [] = false
is_member u (v ∷ us) = text_eq v u || is_member u us

-- `set.add`
abbrev pub add_member : Text → List Text → List Text
add_member u us = if is_member u us then us else u ∷ us

pub is_member-add_member :
    (u v : Text) (us : List Text) → is_member u (add_member v us) ≡ text_eq v u || is_member u us
unfolding is_member
is_member-add_member u v us = elim (Bool-cases (is_member v us)) [
  | inl old ↦ rw old (elim (Bool-cases (text_eq v u)) [
    | inl same ↦ let e = (text_eq_iff v u).0 same in rw (same, ← e) old
    | inr other ↦ rw other refl
  ])
  | inr new ↦ rw new refl
]
