-- ===== src/SecretRotation/Encryption.antt =====
-- aap_gateway_api/utils/encryption.py: encryption under a given key. JSON, SHA-512, base64 and the
-- Fernet cipher are parameters; a cipher text depends on an initialisation vector, also given.
use jewel.Prelude.{
  ℕ, ◌≡◌, refl, Bool, Text, text, text_eq, text_eq_refl, strip_prefix, strip_prefix-append, Option,
  none, some, [], ◌∷◌, ◌++◌, take, drop, ◌==◌, if◌then◌else◌, or_default,
}

pub record Crypto : Type 1 where
  pub Json : Type 0
  pub dumps : Json → Text
  -- none for a `ValueError`, as in the decoders below
  pub loads : Text → Option Json
  pub is_null : Json → Bool
  pub of_str : Text → Json
  pub as_str : Json → Option Text
  pub sha512 : Text → Text
  pub b64encode : Text → Text
  pub b64decode : Text → Option Text
  -- a signing key, an encryption key and an initialisation vector
  pub encrypt : Text → Text → ℕ → Text → Text
  pub decrypt : Text → Text → Text → Option Text

-- The libraries' round trips. No JSON text starts with a dollar sign.
pub record IsLawful (C : Crypto) : Type 0 where
  pub loads-dumps : (v : C.Json) → C.loads (C.dumps v) ≡ some v
  pub as_str-of_str : (s : Text) → C.as_str (C.of_str s) ≡ some s
  pub b64decode-b64encode : (s : Text) → C.b64decode (C.b64encode s) ≡ some s
  pub decrypt-encrypt :
      (s e : Text) (iv : ℕ) (t : Text) → C.decrypt s e (C.encrypt s e iv t) ≡ some t
  pub loads_dollar : (s : Text) → C.loads (b'$' ∷ s) ≡ none

-- `ENCRYPTED_MARKER`. The library's `ENCRYPTED_STRING`, of the format that this one is compatible
-- with, is taken to be the same text.
unfoldable pub encrypted_marker : Text
encrypted_marker = text "$encrypted$"

-- `ENCRYPTION_METHOD`
unfoldable pub encryption_method : Text
encryption_method = text "AESCBC"

abbrev pub ◌>>=◌ {ℓ κ} : {A : Type ℓ} {B : Type κ} → Option A → (A → Option B) → Option B
none >>= f = none
some a >>= f = f a

infixl 5 ◌>>=◌
-- `raw.split('$', 1)`, unpacked into two names: with no dollar sign a `ValueError`
unfoldable pub split_dollar : Text → Option (Text × Text)
split_dollar [] = none
split_dollar (c ∷ s) =
    let rest = split_dollar s in
    if c == b'$' then some ([], s) else rest >>= λ (a, b). some (c ∷ a, b)

module _ (C : Crypto) where
  -- `_Fernet256.__init__`
  abbrev pub signing_key : Text → Text
  signing_key key = take 32 (C.sha512 key)

  abbrev pub encryption_key : Text → Text
  encryption_key key = drop 32 (C.sha512 key)

  unfoldable pub encrypt_with_key : ℕ → C.Json → Text → Text
  encrypt_with_key iv value key =
      let encrypted = C.encrypt (signing_key key) (encryption_key key) iv (C.dumps value) in
      encrypted_marker ++ (text "UTF8$" ++ (encryption_method ++ b'$' ∷ C.b64encode encrypted))

  abbrev pub decrypt_parts : Text → Text × Text → Option C.Json
  decrypt_parts key (algo, b64data) =
      if text_eq algo encryption_method
      then (do
        encrypted ← C.b64decode b64data
        decrypted ← C.decrypt (signing_key key) (encryption_key key) encrypted
        C.loads decrypted)
      else none

  -- `decrypt_with_key`: none for an `InvalidToken` or a `ValueError`.
  unfoldable pub decrypt_with_key : Text → Text → Option C.Json
  decrypt_with_key value key = do
    raw ← strip_prefix encrypted_marker value
    parts ← split_dollar (or_default (strip_prefix (text "UTF8$") raw) raw)
    decrypt_parts key parts

  -- Decrypting with the key that a value was encrypted with gives the value back.
  pub decrypt_with_key-encrypt_with_key :
      IsLawful C
      → (iv : ℕ) (value : C.Json) (key : Text)
      → decrypt_with_key (encrypt_with_key iv value key) key ≡ some value
  unfolding decrypt_with_key encrypt_with_key encryption_method text split_dollar
  decrypt_with_key-encrypt_with_key L iv value key =
      rw
        (
          strip_prefix-append encrypted_marker,
          strip_prefix-append (text "UTF8$"),
          text_eq_refl (text "AESCBC"),
          L.b64decode-b64encode,
          L.decrypt-encrypt,
          L.loads-dumps,
        )
        refl
