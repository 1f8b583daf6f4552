-- ===== src/SecretRotation/Values.antt =====
-- What a rotation does to the secrets of a column.
use jewel.Prelude.{
  ℕ, suc, ◌≡◌, refl, Bool, true, false, Text, text, has_part, arith, strip_prefix, Option, none,
  some, [], ◌∷◌, map, length, ◌⊎◌, inl, inr, Option-cases, Bool-cases, All,
}
use jewel.SecretRotation.Encryption.{
  IsLawful, encrypt_with_key, decrypt_with_key, encrypted_marker, decrypt_with_key-encrypt_with_key,
  ◌>>=◌,
}
use jewel.SecretRotation.{
  Raw, str, Row, Table, Env, Pass, is_after, normalise_if_jsonb_value, reencrypt_text,
  reencrypt_value, written, paginated_reencrypt,
}
use jewel.SecretRotation.Pages.{
  rotated, rotated_by, rotated_by_pk, by_row, attempt, paginated_reencrypt-by_row,
}
use jewel.SecretRotation.Sorted.{IsSorted}

-- The adapter returns a written JSON string as the Python string or as its JSON text.
abbrev pub ReadsJsonb : Env → Type 0
ReadsJsonb E =
    (v : Text)
    → (E.read_jsonb (E.crypto.dumps (E.crypto.of_str v)) ≡ str v)
      ⊎ (E.read_jsonb (E.crypto.dumps (E.crypto.of_str v))
          ≡ str (E.crypto.dumps (E.crypto.of_str v)))

All-after : (t : Table) → All (λ r. is_after none r.pk ≡ true) t
All-after [] = tt
All-after (r ∷ t) = (refl, All-after t)

module _ (E : Env) (L : IsLawful E.crypto) (reads : ReadsJsonb E) where
  -- The clear value that a stored one has under a key.
  abbrev pub secret : Text → Raw → Option E.crypto.Json
  secret key raw = normalise_if_jsonb_value E raw >>= λ t. decrypt_with_key E.crypto t key

  normalise_dollar : (s : Text) → normalise_if_jsonb_value E (str (b'$' ∷ s)) ≡ some (b'$' ∷ s)
  unfolding normalise_if_jsonb_value
  normalise_dollar s = rw (L.loads_dollar s) refl

  normalise_json :
      (v : Text) → normalise_if_jsonb_value E (str (E.crypto.dumps (E.crypto.of_str v))) ≡ some v
  unfolding normalise_if_jsonb_value
  normalise_json v = rw (L.loads-dumps (E.crypto.of_str v), L.as_str-of_str v) refl

  normalise-written :
      (is_jsonb : Bool) (s : Text)
      → normalise_if_jsonb_value E (written E is_jsonb (b'$' ∷ s)) ≡ some (b'$' ∷ s)
  normalise-written false s = normalise_dollar s
  normalise-written true s = elim (reads (b'$' ∷ s)) [
    | inl unwrapped ↦ rw unwrapped (normalise_dollar s)
    | inr quoted ↦ rw quoted (normalise_json (b'$' ∷ s))
  ]

  encrypted_dollar :
      (iv : ℕ) (c : E.crypto.Json) (key : Text)
      → (s : Text) × (encrypt_with_key E.crypto iv c key ≡ b'$' ∷ s)
  unfolding encrypt_with_key encrypted_marker text
  encrypted_dollar iv c key = (_, refl)

  secret-written :
      (is_jsonb : Bool) (iv : ℕ) (c : E.crypto.Json) (key : Text)
      → secret key (written E is_jsonb (encrypt_with_key E.crypto iv c key)) ≡ some c
  secret-written is_jsonb iv c key =
      let (s, e) = encrypted_dollar iv c key in
      let back : decrypt_with_key E.crypto (b'$' ∷ s) key ≡ some c =
        rw (← e) (decrypt_with_key-encrypt_with_key E.crypto L iv c key) in
      rw (e, normalise-written is_jsonb s) back

  -- A value that decrypts holds the marker.
  starts-has_part : (p s : Text) {rest : Text} → strip_prefix p s ≡ some rest → has_part p s ≡ true
  unfolding has_part
  starts-has_part p [] h = rw h refl
  starts-has_part p (c ∷ s) h = rw h refl

  marked :
      (t key : Text) (c : E.crypto.Json)
      → decrypt_with_key E.crypto t key ≡ some c
      → has_part encrypted_marker t ≡ true
  unfolding decrypt_with_key
  marked t key c h = elim (Option-cases (strip_prefix encrypted_marker t)) [
    | inl missing ↦ cc (rw missing at h)
    | inr (rest, found) ↦ starts-has_part encrypted_marker t found
  ]

  pub text_secret :
      (iv : ℕ) (t : Text) (c : E.crypto.Json)
      → decrypt_with_key E.crypto t E.old_key ≡ some c
      → E.crypto.is_null c ≡ false
      → reencrypt_text E iv t ≡ (some (encrypt_with_key E.crypto iv c E.new_key), 0)
  text_secret iv t c h set = rw (marked t E.old_key c h, h, set) refl

  text_none :
      (iv : ℕ) (t : Text)
      → decrypt_with_key E.crypto t E.old_key ≡ none
      → (reencrypt_text E iv t).0 ≡ none
  text_none iv t h = elim (Bool-cases (has_part encrypted_marker t)) [
    | inl has ↦ rw (has, h) refl
    | inr plain ↦ rw plain refl
  ]

  value_secret :
      (iv : ℕ) (o : Option Text) (c : E.crypto.Json)
      → (o >>= λ t. decrypt_with_key E.crypto t E.old_key) ≡ some c
      → E.crypto.is_null c ≡ false
      → reencrypt_value E iv o ≡ (some (encrypt_with_key E.crypto iv c E.new_key), 0)
  unfolding reencrypt_value
  value_secret iv none c h set = cc
  value_secret iv (some t) c h set = text_secret iv t c h set

  value_none :
      (iv : ℕ) (o : Option Text)
      → (o >>= λ t. decrypt_with_key E.crypto t E.old_key) ≡ none
      → (reencrypt_value E iv o).0 ≡ none
  unfolding reencrypt_value
  value_none iv none h = refl
  value_none iv (some t) h = text_none iv t h

  module _ (is_jsonb : Bool) where
    -- A value that the old key decrypts is decrypted by the new key to the same clear value, unless
    -- it is JSON's null, and one that it does not decrypt is not touched.
    abbrev pub IsRotated : Row → Row → Type 0
    IsRotated r r' =
        (r'.pk ≡ r.pk)
        × ((c : E.crypto.Json)
            → secret E.old_key r.raw ≡ some c
            → E.crypto.is_null c ≡ false
            → secret E.new_key r'.raw ≡ some c)
        × (secret E.old_key r.raw ≡ none → r' ≡ r)

    abbrev pub AllRotated : Table → Table → Type 0
    AllRotated [] [] = Unit
    AllRotated [] (s ∷ t') = ⊥
    AllRotated (r ∷ t) [] = ⊥
    AllRotated (r ∷ t) (s ∷ t') = IsRotated r s × AllRotated t t'

    rotated-IsRotated : (r : Row) → IsRotated r (rotated E false is_jsonb r)
    rotated-IsRotated r =
        let o = normalise_if_jsonb_value E r.raw in
        (
          rotated_by_pk E false is_jsonb r (attempt E false is_jsonb r).0,
          (λ c h set.
              rw (value_secret (E.iv r.pk) o c h set)
                (secret-written is_jsonb (E.iv r.pk) c E.new_key)),
          (λ h. rw (value_none (E.iv r.pk) o h) refl),
        )

    by_row-AllRotated : (t : Table) → AllRotated t (map (rotated E false is_jsonb) t)
    by_row-AllRotated [] = tt
    by_row-AllRotated (r ∷ t) = (rotated-IsRotated r, by_row-AllRotated t)

    -- Rotating a column ends, and leaves a table with the same rows: where the old key gave a clear
    -- value, other than JSON's null, the new key gives the same one, and a value that the old key
    -- does not decrypt is left as it was.
    pub paginated_reencrypt-AllRotated :
        (t : Table)
        → IsSorted t
        → (p : Pass Table) × (paginated_reencrypt E (suc (length t)) false is_jsonb none t ≡ some p)
          × AllRotated t p.table
    paginated_reencrypt-AllRotated t sorted = (
      by_row E false is_jsonb t,
      paginated_reencrypt-by_row E false is_jsonb (suc (length t)) none t (omega arith) sorted
          (All-after t),
      by_row-AllRotated t,
    )

module _ (E : Env) (is_jsonb : Bool) where
  rotated_by-dry : (r : Row) (o : Option Text) → rotated_by E true is_jsonb r o ≡ r
  rotated_by-dry r none = refl
  rotated_by-dry r (some v) = refl

  rotated-dry : (t : Table) → map (rotated E true is_jsonb) t ≡ t
  rotated-dry [] = refl
  rotated-dry (r ∷ t) = rw (rotated_by-dry r (attempt E true is_jsonb r).0, rotated-dry t) refl

  -- A dry run ends, leaves the table as it was, and counts and skips as many values as the run
  -- that writes does.
  pub paginated_reencrypt_dry_run :
      (t : Table)
      → IsSorted t
      → (p q : Pass Table) × (paginated_reencrypt E (suc (length t)) true is_jsonb none t ≡ some p)
        × (paginated_reencrypt E (suc (length t)) false is_jsonb none t ≡ some q)
        × (p.table ≡ t)
        × (p.count ≡ q.count)
        × (p.skipped ≡ q.skipped)
  paginated_reencrypt_dry_run t sorted = (
    by_row E true is_jsonb t,
    by_row E false is_jsonb t,
    paginated_reencrypt-by_row E true is_jsonb (suc (length t)) none t (omega arith) sorted
        (All-after t),
    paginated_reencrypt-by_row E false is_jsonb (suc (length t)) none t (omega arith) sorted
        (All-after t),
    rotated-dry t,
    refl,
    refl,
  )
