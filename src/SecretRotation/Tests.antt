-- ===== src/SecretRotation/Tests.antt =====
-- A rotation at a cipher that prefixes the key, and the theorems at concrete tables.
use jewel.Prelude.{
  ℕ, ◌==◌, if◌then◌else◌, ◌≡◌, ◌≢◌, refl, Bool, true, false, Text, text, text_eq, strip_prefix,
  strip_prefix-append, has_part, Option, none, some, [], ◌∷◌, ◌++◌, keep, inr, arith,
}
use jewel.Prelude.Dict.{lookup, insert}
use jewel.SecretRotation.Encryption.{
  Crypto, IsLawful, encrypt_with_key, decrypt_with_key, encrypted_marker, encryption_method,
  split_dollar,
}
use jewel.SecretRotation.{
  Raw, str, Row, Table, Pass, select_page, update, last_pk, normalise_if_jsonb_value,
  reencrypt_value, reencrypt_rows, paginated_reencrypt,
}
use jewel.SecretRotation.Pages.{by_row, paginated_reencrypt-by_row}
use jewel.SecretRotation.Sorted.{IsSorted}
use jewel.SecretRotation.Values.{ReadsJsonb, AllRotated}
use jewel.SecretRotation.Handle.{
  Authenticator, dict, Database, Setup, Outcome, rotated, choose_key, env, handle, rotate_all,
  rotate_encrypted_fields, rotate_authenticator_configs, reencrypt_fields,
}
use jewel.SecretRotation.Fields.{reencrypt_fields_secret}
use jewel.SecretRotation.Command.{
  IsOrdered, ColumnsRotated, IsSource, handle_dry_run, handle-AllRotated, handle_key,
}

abbrev loads : Text → Option Text
loads [] = none
loads (c ∷ v) = if c == 34 then some v else none

abbrev crypto : Crypto
crypto = record {
  Json = Text;
  dumps = λ v. 34 ∷ v;
  loads = loads;
  is_null = λ v. false;
  of_str = λ v. v;
  as_str = some;
  sha512 = λ key. key;
  b64encode = λ s. s;
  b64decode = some;
  encrypt = λ s e iv t. s ++ t;
  decrypt = λ s e t. strip_prefix s t;
}

crypto-IsLawful : IsLawful crypto
crypto-IsLawful = record {
  loads-dumps = λ v. refl;
  as_str-of_str = λ s. refl;
  b64decode-b64encode = λ s. refl;
  decrypt-encrypt = λ s e iv t. strip_prefix-append s t;
  loads_dollar = λ s. refl;
}

abbrev cipher : Text → Text → Text
cipher key v = text "$encrypted$UTF8$AESCBC$" ++ (key ++ 34 ∷ v)

abbrev row : ℕ → Text → Row
row pk t = record { pk = pk; raw = str t }

-- One value under the old key, one plain, one under another key.
abbrev table : Table
table =
    row 3 (cipher (text "old") (text "a"))
    ∷ row 5 (text "plain")
    ∷ row 8 (cipher (text "x") (text "b"))
    ∷ []

abbrev after : Table
after =
    row 3 (cipher (text "new") (text "a"))
    ∷ row 5 (text "plain")
    ∷ row 8 (cipher (text "x") (text "b"))
    ∷ []

abbrev login : Authenticator
login = record {
  pk = 1;
  auth_type = text "ldap";
  configuration = dict ((text "password", str (cipher (text "old") (text "c"))) ∷ []);
}

abbrev db : Database
db = record {
  columns = record { label = text "ServiceKey.secret"; is_jsonb = false; table = table } ∷ [];
  authenticators = login ∷ [];
  preferences = table;
  preference_cache = (text "k", text "v") ∷ [];
}

abbrev setup : Setup
setup = record {
  crypto = crypto;
  secret_key = text "old";
  custom_key = some (text "new");
  generated_key = text "random";
  iv = λ label pk. pk;
  read_jsonb = str;
  plugin_fields = λ t. some (text "password" ∷ []);
  loads_dict = λ t. none;
  cache_clears = true;
}

run : Bool → Outcome
unfolding handle choose_key rotate_all rotate_encrypted_fields rotate_authenticator_configs
    reencrypt_fields paginated_reencrypt reencrypt_rows reencrypt_value normalise_if_jsonb_value
    select_page update last_pk keep lookup insert text text_eq strip_prefix has_part
    encrypt_with_key decrypt_with_key encrypted_marker encryption_method split_dollar
run dry_run = handle setup true dry_run db

counts : Outcome → ℕ × ℕ
counts (rotated key p) = (p.count, p.skipped)
counts _ = (0, 0)

counts-run : counts (run true) ≡ (3, 2)
unfolding run counts
counts-run = refl

paginated_reencrypt-by_row_example :
    paginated_reencrypt (env setup (text "new") []) 4 false false none table
    ≡ some (by_row (env setup (text "new") []) false false table)
paginated_reencrypt-by_row_example =
    paginated_reencrypt-by_row (env setup (text "new") []) false false 4 none table (omega arith)
      ((omega arith, (omega arith, tt)), (((omega arith, tt)), (tt, tt))) (refl, (refl, (refl, tt)))

reads : (key label : Text) → ReadsJsonb (env setup key label)
reads key label v = inr refl

table-IsSorted : IsSorted table
table-IsSorted = ((omega arith, (omega arith, tt)), ((omega arith, tt), (tt, tt)))

db-IsOrdered : IsOrdered db
db-IsOrdered = ((table-IsSorted, tt), table-IsSorted)

chosen : choose_key setup true ≡ some (text "new")
unfolding choose_key text text_eq
chosen = refl

handle_dry_run_example :
    (p q : Pass Database) × (handle setup true true db ≡ rotated (text "new") p)
    × (handle setup true false db ≡ rotated (text "new") q)
    × (p.table ≡ db)
    × (p.count ≡ q.count)
    × (p.skipped ≡ q.skipped)
handle_dry_run_example = handle_dry_run setup true db (text "new") chosen db-IsOrdered

handle-AllRotated_example :
    (p : Pass Database) × (handle setup true false db ≡ rotated (text "new") p)
    × ColumnsRotated setup
        (text "new")
        crypto-IsLawful
        (reads (text "new"))
        db.columns
        p.table.columns
    × AllRotated
        (env setup (text "new") [])
        crypto-IsLawful
        (reads (text "new") [])
        false
        db.preferences
        p.table.preferences
    × (p.table.preference_cache ≡ [])
handle-AllRotated_example =
    handle-AllRotated setup true db crypto-IsLawful reads (text "new") chosen db-IsOrdered

handle_key_example : (text "new" ≢ text "old") × IsSource setup true (text "new")
handle_key_example =
    handle_key setup true true db (text "new")
      (handle_dry_run setup true db (text "new") chosen db-IsOrdered).0
      (handle_dry_run setup true db (text "new") chosen db-IsOrdered).2

field_run : Option Raw
unfolding run
field_run =
    lookup (text "password")
      (reencrypt_fields (env setup (text "new") []) 1 (text "url" ∷ text "password" ∷ [])
        ((text "password", str (cipher (text "old") (text "c"))) ∷ [])).table

field_run-cipher : field_run ≡ some (str (cipher (text "new") (text "c")))
unfolding field_run
field_run-cipher = refl

reencrypt_fields_secret_example :
    (new : Text) × (lookup
        (text "password")
        (reencrypt_fields
          (env setup (text "new") [])
          1
          (text "url" ∷ text "password" ∷ [])
          ((text "password", str (cipher (text "old") (text "c"))) ∷ [])).table
      ≡ some (str new))
    × (decrypt_with_key crypto new (text "new") ≡ some (text "c"))
unfolding run
reencrypt_fields_secret_example =
    reencrypt_fields_secret (env setup (text "new") []) 1 crypto-IsLawful (reads (text "new") [])
      (text "password") (cipher (text "old") (text "c")) (text "c") (text "url" ∷ []) []
      ((text "password", str (cipher (text "old") (text "c"))) ∷ []) (refl, tt) tt refl refl refl
