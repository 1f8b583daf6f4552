-- ===== src/Users/Json.antt =====
-- The JSON values that a request may carry in the field `associated_authenticators`.
use jewel.Prelude.{
  ℕ, suc, Bool, true, false, ◌&&◌, Text, text_eq, Option, none, some, List, [], ◌∷◌, if◌then◌else◌,
  ◌==◌,
}

-- A number, a Boolean or a list is `other`, with its truth in Python. The keys of an object are
-- distinct.
mutual
  pub data Json : Type 0 where
    null : Json
    str : Text → Json
    other : Bool → Json
    object : Members → Json

  pub data Members : Type 0 where
    end : Members
    member : Text → Json → Members → Members

abbrev pub is_true : Json → Bool
is_true null = false
is_true (str []) = false
is_true (str (c ∷ s)) = true
is_true (other b) = b
is_true (object end) = false
is_true (object (member k v ms)) = true

-- `d.get(k)`, none if there is no such key
unfoldable pub get : Text → Members → Option Json
get k end = none
get k (member j v ms) = if text_eq j k then some v else get k ms

unfoldable pub count : Members → ℕ
count end = 0
count (member k v ms) = suc (count ms)

unfoldable pub keys : Members → List Text
keys end = []
keys (member k v ms) = k ∷ keys ms

-- `a == b`, where `a` holds no `other`
unfoldable mutual
  unfolding count get

  pub equals : Json → Json → Bool
  equals null null = true
  equals (str s) (str t) = text_eq s t
  equals (object ms) (object ns) = count ms == count ns && all_equal ms ns
  equals a b = false

  pub all_equal : Members → Members → Bool
  all_equal end ns = true
  all_equal (member k v ms) ns = elim (get k ns) [
    | none ↦ false
    | some w ↦ equals v w && all_equal ms ns
  ]
