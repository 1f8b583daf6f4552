-- ===== src/SecretRotation/Command.antt =====
-- What a run of the command does to the whole database.
use jewel.Prelude.{
  ◌≡◌, ◌∙◌, ◌≢◌, refl, Bool, true, false, Text, text_eq, text_eq_iff, Option, none, some, List, [],
  ◌∷◌, if◌then◌else◌, All, arith, Bool-cases, inl, inr, ap,
}
use jewel.Prelude.Dict.{Dict}
use jewel.SecretRotation.Encryption.{IsLawful}
use jewel.SecretRotation.{Raw, Table, Pass}
use jewel.SecretRotation.Sorted.{IsSorted}
use jewel.SecretRotation.Values.{
  ReadsJsonb, AllRotated, paginated_reencrypt_dry_run, paginated_reencrypt-AllRotated,
}
use jewel.SecretRotation.Handle.{
  Column, Authenticator, Database, Setup, rotated, usable_key, custom_or_error, choose_key, env,
  parse_config, reencrypt_fields, store_config, rotate_fields, rotate_parsed,
  rotate_authenticator_configs, column_pass, total, all_rotated, rotate_encrypted_fields,
  rotate_all, with_key, handle,
}

-- Every table is in the order of its primary key.
abbrev pub IsOrdered : Database → Type 0
IsOrdered db = All (λ c. IsSorted c.table) db.columns × IsSorted db.preferences

module _ {T : Type 0} where
  -- The first pass left what it was given, and has the totals of the second.
  abbrev pub IsDryOf : T → Pass T → Pass T → Type 0
  IsDryOf t p q = (p.table ≡ t) × (p.count ≡ q.count) × (p.skipped ≡ q.skipped)

module _ (S : Setup) (key : Text) where
  columns-dry :
      (columns : List Column)
      → All (λ c. IsSorted c.table) columns
      → (p q : Pass (List Column)) × (rotate_encrypted_fields S key true columns ≡ some p)
        × (rotate_encrypted_fields S key false columns ≡ some q)
        × (p.table ≡ columns)
        × (p.count ≡ q.count)
        × (p.skipped ≡ q.skipped)
  unfolding rotate_encrypted_fields
  columns-dry [] h = (_, _, refl, refl, refl, refl, refl)
  columns-dry (c ∷ columns) h =
      let (p, q, e, f, t, n, k) =
        paginated_reencrypt_dry_run (env S key c.label) c.is_jsonb c.table h.0 in
      let (p', q', e', f', t', n', k') = columns-dry columns h.1 in
      (
        column_pass S key true c p p',
        column_pass S key false c q q',
        rw (e, e') refl,
        rw (f, f') refl,
        rw (t, t') refl,
        rw (n, n') refl,
        rw (k, k') refl,
      )

  store_config-dry :
      (a : Authenticator) (p : Pass (Dict Raw))
      → IsDryOf a (store_config S key true a p) (store_config S key false a p)
  store_config-dry a p = (ground arith, refl, refl)

  fields-dry :
      (a : Authenticator) (fields : Option (List Text)) (config : Dict Raw)
      → IsDryOf a
          (rotate_fields S key true a fields config)
          (rotate_fields S key false a fields config)
  fields-dry a none config = (refl, refl, refl)
  fields-dry a (some fields) config =
      store_config-dry a (reencrypt_fields (env S key a.auth_type) a.pk fields config)

  parsed-dry :
      (a : Authenticator) (o : Option (Dict Raw))
      → IsDryOf a (rotate_parsed S key true a o) (rotate_parsed S key false a o)
  parsed-dry a none = (refl, refl, refl)
  parsed-dry a (some config) = fields-dry a (S.plugin_fields a.auth_type) config

  authenticators-dry :
      (rows : List Authenticator)
      → IsDryOf rows
          (rotate_authenticator_configs S key true rows)
          (rotate_authenticator_configs S key false rows)
  unfolding rotate_authenticator_configs
  authenticators-dry [] = (refl, refl, refl)
  authenticators-dry (a ∷ rows) =
      let (t, n, k) = parsed-dry a (parse_config S a.configuration) in
      let (t', n', k') = authenticators-dry rows in
      (rw (t, t') refl, rw (n, n') refl, rw (k, k') refl)

  -- What a run finds: the same rows, those of a column or of the preferences rotated.
  unfoldable pub ColumnsRotated :
      IsLawful S.crypto
      → ((label : Text) → ReadsJsonb (env S key label))
      → List Column
      → List Column
      → Type 0
  ColumnsRotated L reads [] [] = Unit
  ColumnsRotated L reads [] (d ∷ ds) = ⊥
  ColumnsRotated L reads (c ∷ cs) [] = ⊥
  ColumnsRotated L reads (c ∷ cs) (d ∷ ds) =
      ((d.label ≡ c.label)
        × AllRotated (env S key c.label) L (reads c.label) c.is_jsonb c.table d.table)
      × ColumnsRotated L reads cs ds

  columns-AllRotated :
      (L : IsLawful S.crypto) (reads : (label : Text) → ReadsJsonb (env S key label))
      (columns : List Column)
      → All (λ c. IsSorted c.table) columns
      → (q : Pass (List Column)) × (rotate_encrypted_fields S key false columns ≡ some q)
        × ColumnsRotated L reads columns q.table
  unfolding rotate_encrypted_fields ColumnsRotated
  columns-AllRotated L reads [] h = (record { count = 0; skipped = 0; table = [] }, refl, tt)
  columns-AllRotated L reads (c ∷ columns) h =
      let (q, e, r) =
        paginated_reencrypt-AllRotated (env S key c.label) L (reads c.label) c.is_jsonb c.table
          h.0 in
      let (q', e', r') = columns-AllRotated L reads columns h.1 in
      (column_pass S key false c q q', rw (e, e') refl, ((refl, r), r'))

module _ (S : Setup) (use_custom_key : Bool) (db : Database) where
  -- A dry run with a usable key ends, and changes nothing in the database, its cache included; the
  -- run that writes ends too, with the same key and the totals that the dry run reports.
  pub handle_dry_run :
      (key : Text)
      → choose_key S use_custom_key ≡ some key
      → IsOrdered db
      → (p q : Pass Database) × (handle S use_custom_key true db ≡ rotated key p)
        × (handle S use_custom_key false db ≡ rotated key q)
        × (p.table ≡ db)
        × (p.count ≡ q.count)
        × (p.skipped ≡ q.skipped)
  unfolding handle rotate_all
  handle_dry_run key chosen (columns, preferences) =
      let (p, q, e, f, t, n, k) = columns-dry S key db.columns columns in
      let (ta, na, ka) = authenticators-dry S key db.authenticators in
      let (r, s, er, fr, tr, nr, kr) =
        paginated_reencrypt_dry_run (env S key []) false db.preferences preferences in
      (
        total S key true db p (rotate_authenticator_configs S key true db.authenticators) r,
        total S key false db q (rotate_authenticator_configs S key false db.authenticators) s,
        rw (chosen, e, er) refl,
        rw (chosen, f, fr) refl,
        rw (t, ta, tr) refl,
        rw (n, na, nr) refl,
        rw (k, ka, kr) refl,
      )

  -- A run that writes, with a usable key, ends with the same rows. In every encrypted column and in
  -- the preferences, where the current key gave a clear value other than JSON's null, the new key
  -- gives the same one, and a row that the current key does not decrypt is as it was. The preference
  -- cache is empty if it could be cleared.
  pub handle-AllRotated :
      (L : IsLawful S.crypto) (reads : (key label : Text) → ReadsJsonb (env S key label))
      (key : Text)
      → choose_key S use_custom_key ≡ some key
      → IsOrdered db
      → (p : Pass Database) × (handle S use_custom_key false db ≡ rotated key p)
        × ColumnsRotated S key L (reads key) db.columns p.table.columns
        × AllRotated (env S key []) L (reads key []) false db.preferences p.table.preferences
        × (p.table.preference_cache ≡ (if S.cache_clears then [] else db.preference_cache))
  unfolding handle rotate_all
  handle-AllRotated L reads key chosen (columns, preferences) =
      let (q, e, r) = columns-AllRotated S key L (reads key) db.columns columns in
      let (s, f, t) =
        paginated_reencrypt-AllRotated (env S key []) L (reads key []) false db.preferences
          preferences in
      (
        total S key false db q (rotate_authenticator_configs S key false db.authenticators) s,
        rw (chosen, e, f) refl,
        r,
        t,
        refl,
      )

module _ (S : Setup) where
  -- Where the key comes from: the environment, where it is not empty, or the generator.
  abbrev pub IsSource : Bool → Text → Type 0
  IsSource true key = (S.custom_key ≡ some key) × (key ≢ [])
  IsSource false key = S.generated_key ≡ key

  usable : (k key : Text) → usable_key S k ≡ some key → (key ≢ S.secret_key) × (k ≡ key)
  usable k key h = elim (Bool-cases (text_eq k S.secret_key)) [
    | inl same ↦ cc (rw same at h)
    | inr other ↦
        let e : k ≡ key = cc (rw other at h) in
        (λ eq. ground (arith, other, e ∙ eq, text_eq_iff k S.secret_key), e)
  ]

  custom-IsSource :
      (o : Option Text) (key : Text)
      → S.custom_key ≡ o
      → custom_or_error S o ≡ some key
      → (key ≢ S.secret_key) × IsSource true key
  custom-IsSource none key e h = cc
  custom-IsSource (some []) key e h = cc
  custom-IsSource (some (c ∷ k)) key e h =
      let (fresh, same) = usable (c ∷ k) key h in
      (fresh, (e ∙ ap some same, λ empty. let bad = same ∙ empty in cc))

  chosen-IsSource :
      (use_custom_key : Bool) (key : Text)
      → choose_key S use_custom_key ≡ some key
      → (key ≢ S.secret_key) × IsSource use_custom_key key
  unfolding choose_key
  chosen-IsSource true key h = custom-IsSource S.custom_key key refl h
  chosen-IsSource false key h = usable S.generated_key key h

  all_rotated_key :
      (k key : Text) (dry_run : Bool) (db : Database) (p : Option (Pass (List Column)))
      (q : Pass (List Authenticator)) (r : Option (Pass Table)) (t : Pass Database)
      → all_rotated S k dry_run db p q r ≡ rotated key t
      → k ≡ key
  all_rotated_key k key dry_run db none q r t h = cc
  all_rotated_key k key dry_run db (some p) q none t h = cc
  all_rotated_key k key dry_run db (some p) q (some r) t h = cc

  key_of :
      (dry_run : Bool) (db : Database) (o : Option Text) (key : Text) (t : Pass Database)
      → with_key S dry_run db o ≡ rotated key t
      → o ≡ some key
  unfolding rotate_all
  key_of dry_run db none key t h = cc
  key_of dry_run db (some k) key t h = ap some (all_rotated_key k key dry_run db _ _ _ t h)

  -- A run that ends without an error uses a key that is not the current one; with the option for a
  -- custom key it is that of the environment and not empty, and else the generated one.
  pub handle_key :
      (use_custom_key dry_run : Bool) (db : Database) (key : Text) (t : Pass Database)
      → handle S use_custom_key dry_run db ≡ rotated key t
      → (key ≢ S.secret_key) × IsSource use_custom_key key
  unfolding handle
  handle_key use_custom_key dry_run db key t h =
      chosen-IsSource use_custom_key key (key_of dry_run db (choose_key S use_custom_key) key t h)
