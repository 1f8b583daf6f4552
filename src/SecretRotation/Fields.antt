-- ===== src/SecretRotation/Fields.antt =====
-- What a rotation does to the settings of an authenticator.
use jewel.Prelude.{
  ℕ, ◌≡◌, refl, false, Text, text_eq, text_eq_refl, Option, none, some, List, [], ◌∷◌, ◌++◌, All,
  ◌∙◌,
}
use jewel.Prelude.Dict.{Dict, lookup, insert, lookup-insert}
use jewel.SecretRotation.Encryption.{
  IsLawful, encrypt_with_key, decrypt_with_key, decrypt_with_key-encrypt_with_key,
}
use jewel.SecretRotation.{Raw, str, other, Env, Attempt, reencrypt_text}
use jewel.SecretRotation.Values.{ReadsJsonb, text_secret}
use jewel.SecretRotation.Handle.{set_field, reencrypt_field, reencrypt_fields}

module _ (E : Env) (pk : ℕ) where
  set_field-lookup :
      (g f : Text) (a : Attempt) (config : Dict Raw)
      → text_eq g f ≡ false
      → lookup f (set_field E g a config).table ≡ lookup f config
  set_field-lookup g f (none, skips) config h = refl
  set_field-lookup g f (some v, skips) config h = lookup-insert g f (str v) config ∙ rw h refl

  field-lookup :
      (g f : Text) (o : Option Raw) (config : Dict Raw)
      → text_eq g f ≡ false
      → lookup f (reencrypt_field E pk g o config).table ≡ lookup f config
  field-lookup g f (some (str val)) config h =
      set_field-lookup g f (reencrypt_text E (E.iv pk) val) config h
  field-lookup g f (some other) config h = refl
  field-lookup g f none config h = refl

  -- A setting that is not among the plugin's encrypted fields stays as it is.
  pub reencrypt_fields-lookup :
      (f : Text) (fields : List Text) (config : Dict Raw)
      → All (λ g. text_eq g f ≡ false) fields
      → lookup f (reencrypt_fields E pk fields config).table ≡ lookup f config
  unfolding reencrypt_fields
  reencrypt_fields-lookup f [] config h = refl
  reencrypt_fields-lookup f (g ∷ fields) config h =
      reencrypt_fields-lookup f fields (reencrypt_field E pk g (lookup g config) config).table h.1
      ∙ field-lookup g f (lookup g config) config h.0

  module _ (L : IsLawful E.crypto) (reads : ReadsJsonb E) where
    -- An encrypted field that the plugin names once, and that the old key decrypts to a value other
    -- than JSON's null, holds afterwards a text that the new key decrypts to the same value.
    pub reencrypt_fields_secret :
        (f val : Text) (c : E.crypto.Json) (before after : List Text) (config : Dict Raw)
        → All (λ g. text_eq g f ≡ false) before
        → All (λ g. text_eq g f ≡ false) after
        → lookup f config ≡ some (str val)
        → decrypt_with_key E.crypto val E.old_key ≡ some c
        → E.crypto.is_null c ≡ false
        → (new : Text) × (lookup f (reencrypt_fields E pk (before ++ f ∷ after) config).table
            ≡ some (str new))
          × (decrypt_with_key E.crypto new E.new_key ≡ some c)
    unfolding reencrypt_fields
    reencrypt_fields_secret f val c [] after config b a found clear set = (
      encrypt_with_key E.crypto (E.iv pk) c E.new_key,
      rw (found, text_secret E L reads (E.iv pk) val c clear set)
          (reencrypt_fields-lookup f after
              (insert f (str (encrypt_with_key E.crypto (E.iv pk) c E.new_key)) config) a
            ∙ (lookup-insert f f (str (encrypt_with_key E.crypto (E.iv pk) c E.new_key)) config
                ∙ rw (text_eq_refl f) refl)),
      decrypt_with_key-encrypt_with_key E.crypto L (E.iv pk) c E.new_key,
    )
    reencrypt_fields_secret f val c (g ∷ before) after config b a found clear set =
        reencrypt_fields_secret f val c before after
          (reencrypt_field E pk g (lookup g config) config).table b.1 a
          (field-lookup g f (lookup g config) config b.0 ∙ found) clear set
