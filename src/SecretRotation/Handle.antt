-- ===== src/SecretRotation/Handle.antt =====
-- `Command.handle` of rotate_secret_key.py: the choice of the key, and the passes over encrypted
-- columns, authenticator settings and preferences. The plugins and the JSON parser are parameters.
use jewel.Prelude.{
  ℕ, suc, ◌+◌, Bool, true, false, not, ◌&&◌, Text, text_eq, Option, none, some, List, [], ◌∷◌, ltb,
  if◌then◌else◌, length,
}
use jewel.Prelude.Dict.{Dict, lookup, insert}
use jewel.SecretRotation.Encryption.{Crypto}
use jewel.SecretRotation.{
  Raw, str, other, Table, Env, Pass, Attempt, reencrypt_text, and_then, paginated_reencrypt,
}

-- An encrypted field of a model.
pub record Column : Type 0 where
  pub label : Text
  pub is_jsonb : Bool
  pub table : Table

pub data Config : Type 0 where
  dict : Dict Raw → Config
  json_text : Text → Config
  unusable : Config

pub record Authenticator : Type 0 where
  pub pk : ℕ
  pub auth_type : Text
  pub configuration : Config

pub record Database : Type 0 where
  pub columns : List Column
  pub authenticators : List Authenticator
  pub preferences : Table
  pub preference_cache : Dict Text

pub record Setup : Type 1 where
  pub crypto : Crypto
  pub secret_key : Text
  -- GATEWAY_SECRET_KEY
  pub custom_key : Option Text
  pub generated_key : Text
  -- the randomness drawn for a row of a column, by its label
  pub iv : Text → ℕ → ℕ
  pub read_jsonb : Text → Raw
  -- none when the plugin cannot be loaded
  pub plugin_fields : Text → Option (List Text)
  -- `json.loads`, when it gives a dict
  pub loads_dict : Text → Option (Dict Raw)
  -- false when `manager.cache.clear` is missing or raises
  pub cache_clears : Bool

pub data Outcome : Type 0 where
  -- with the key that was used
  rotated : Text → Pass Database → Outcome
  command_error : Outcome
  out_of_fuel : Outcome

-- The key, or a `CommandError`.
abbrev pub usable_key : Setup → Text → Option Text
usable_key S key = if text_eq key S.secret_key then none else some key

abbrev pub custom_or_error : Setup → Option Text → Option Text
custom_or_error S none = none
custom_or_error S (some []) = none
custom_or_error S (some (c ∷ key)) = usable_key S (c ∷ key)

unfoldable pub choose_key : Setup → (use_custom_key : Bool) → Option Text
choose_key S true = custom_or_error S S.custom_key
choose_key S false = usable_key S S.generated_key

abbrev pub env : Setup → Text → Text → Env
env S key label = record {
  crypto = S.crypto;
  old_key = S.secret_key;
  new_key = key;
  iv = S.iv label;
  read_jsonb = S.read_jsonb;
}

-- `_parse_config`
abbrev pub parse_config : Setup → Config → Option (Dict Raw)
parse_config S (dict []) = none
parse_config S (dict (f ∷ config)) = some (f ∷ config)
parse_config S (json_text []) = none
parse_config S (json_text (c ∷ t)) = S.loads_dict (c ∷ t)
parse_config S unusable = none

module _ (E : Env) where
  abbrev pub set_field : Text → Attempt → Dict Raw → Pass (Dict Raw)
  set_field field (none, skips) config = record { count = 0; skipped = skips; table = config }
  set_field field (some v, skips) config = record {
    count = 1;
    skipped = skips;
    table = insert field (str v) config;
  }

  -- The body of the loop over the encrypted fields; a value that is no string is passed over.
  abbrev pub reencrypt_field : ℕ → Text → Option Raw → Dict Raw → Pass (Dict Raw)
  reencrypt_field pk field (some (str val)) config =
      set_field field (reencrypt_text E (E.iv pk) val) config
  reencrypt_field pk field (some other) config = set_field field (none, 0) config
  reencrypt_field pk field none config = set_field field (none, 0) config

  -- `_reencrypt_authenticator_fields`; `changed` is a positive count.
  unfoldable pub reencrypt_fields : ℕ → List Text → Dict Raw → Pass (Dict Raw)
  reencrypt_fields pk [] config = record { count = 0; skipped = 0; table = config }
  reencrypt_fields pk (field ∷ fields) config =
      let p = reencrypt_field pk field (lookup field config) config in
      and_then E p (reencrypt_fields pk fields p.table)

module _ (S : Setup) (key : Text) (dry_run : Bool) where
  abbrev pub store_config : Authenticator → Pass (Dict Raw) → Pass Authenticator
  store_config a p = record {
    count = p.count;
    skipped = p.skipped;
    table = if ltb 0 p.count && not dry_run then record a { configuration = dict p.table } else a;
  }

  abbrev pub skip {ℓ} : {T : Type ℓ} → T → Pass T
  skip t = record { count = 0; skipped = 0; table = t }

  abbrev pub rotate_fields : Authenticator → Option (List Text) → Dict Raw → Pass Authenticator
  rotate_fields a none config = skip a
  rotate_fields a (some fields) config =
      store_config a (reencrypt_fields (env S key a.auth_type) a.pk fields config)

  abbrev pub rotate_parsed : Authenticator → Option (Dict Raw) → Pass Authenticator
  rotate_parsed a none = skip a
  rotate_parsed a (some config) = rotate_fields a (S.plugin_fields a.auth_type) config

  -- `_rotate_authenticator_configs`
  unfoldable pub rotate_authenticator_configs : List Authenticator → Pass (List Authenticator)
  rotate_authenticator_configs [] = skip []
  rotate_authenticator_configs (a ∷ rows) =
      let p = rotate_parsed a (parse_config S a.configuration) in
      let rest = rotate_authenticator_configs rows in
      record {
        count = p.count + rest.count;
        skipped = p.skipped + rest.skipped;
        table = p.table ∷ rest.table;
      }

  -- A page holds at least one row, so a table needs no more pages than it has rows, and a last one.
  abbrev pub rotate_table : Text → Bool → Table → Option (Pass Table)
  rotate_table label is_jsonb t =
      paginated_reencrypt (env S key label) (suc (length t)) dry_run is_jsonb none t

  abbrev pub column_pass : Column → Pass Table → Pass (List Column) → Pass (List Column)
  column_pass c p q = record {
    count = p.count + q.count;
    skipped = p.skipped + q.skipped;
    table = record c { table = p.table } ∷ q.table;
  }

  abbrev pub cons_column :
      Column → Option (Pass Table) → Option (Pass (List Column)) → Option (Pass (List Column))
  cons_column c none rest = none
  cons_column c (some p) none = none
  cons_column c (some p) (some q) = some (column_pass c p q)

  -- `_rotate_encrypted_fields`
  unfoldable pub rotate_encrypted_fields : List Column → Option (Pass (List Column))
  rotate_encrypted_fields [] = some (skip [])
  rotate_encrypted_fields (c ∷ columns) =
      cons_column c (rotate_table c.label c.is_jsonb c.table) (rotate_encrypted_fields columns)

  -- `_flush_preference_cache`
  abbrev pub flush_preference_cache : Dict Text → Dict Text
  flush_preference_cache cache = if not dry_run && S.cache_clears then [] else cache

  abbrev pub total :
      Database → Pass (List Column) → Pass (List Authenticator) → Pass Table → Pass Database
  total db p q r = record {
    count = p.count + q.count + r.count;
    skipped = p.skipped + q.skipped + r.skipped;
    table = record {
      columns = p.table;
      authenticators = q.table;
      preferences = r.table;
      preference_cache = flush_preference_cache db.preference_cache;
    };
  }

  abbrev pub all_rotated :
      Database
      → Option (Pass (List Column))
      → Pass (List Authenticator)
      → Option (Pass Table)
      → Outcome
  all_rotated db none q r = out_of_fuel
  all_rotated db (some p) q none = out_of_fuel
  all_rotated db (some p) q (some r) = rotated key (total db p q r)

  unfoldable pub rotate_all : Database → Outcome
  rotate_all db =
      all_rotated db (rotate_encrypted_fields db.columns)
        (rotate_authenticator_configs db.authenticators) (rotate_table [] false db.preferences)

abbrev pub with_key : Setup → (dry_run : Bool) → Database → Option Text → Outcome
with_key S dry_run db none = command_error
with_key S dry_run db (some key) = rotate_all S key dry_run db

-- `handle`, in one transaction: an error leaves the database as it was.
unfoldable pub handle : Setup → (use_custom_key dry_run : Bool) → Database → Outcome
handle S use_custom_key dry_run db = with_key S dry_run db (choose_key S use_custom_key)
