-- ===== src/SecretRotation.antt =====
-- aap_gateway_api/management/commands/rotate_secret_key.py: the tables are lists in the order of the
-- primary key, and a row whose column is NULL, which no query returns, is not in them. Printing and
-- logging are left out.
pub mod Encryption
pub mod Sorted
pub mod Pages
pub mod Values
pub mod Handle
pub mod Command
pub mod Fields
mod Tests
use jewel.Prelude.{
  ℕ, zero, suc, ◌+◌, Bool, true, false, not, ◌&&◌, Text, text, text_eq, has_part, Option, none,
  some, List, [], ◌∷◌, ◌++◌, keep, take, ltb, ◌==◌, if◌then◌else◌, length,
}
use jewel.Prelude.Dict.{Dict, lookup, insert}
use jewel.SecretRotation.Encryption.{Crypto, encrypt_with_key, decrypt_with_key, encrypted_marker}

-- `_FETCH_BATCH_SIZE`
abbrev pub fetch_batch_size : ℕ
fetch_batch_size = 2000

-- What the driver returns for a column: a Python string, or another value.
pub data Raw : Type 0 where
  str : Text → Raw
  other : Raw

pub record Row : Type 0 where
  pub pk : ℕ
  pub raw : Raw

abbrev pub Table : Type 0
Table = List Row

-- The keys of a run, the cipher, and the randomness that a row's encryption draws.
pub record Env : Type 1 where
  pub crypto : Crypto
  pub old_key : Text
  pub new_key : Text
  pub iv : ℕ → ℕ
  -- what a `jsonb` column returns after a JSON text was written to it
  pub read_jsonb : Text → Raw

-- What a pass over rows did: values encrypted again, values skipped, and the table after it.
pub record Pass {ℓ} (T : Type ℓ) : Type ℓ where
  pub count : ℕ
  pub skipped : ℕ
  pub table : T

-- A new value, or none, and the number of skipped ones.
abbrev pub Attempt : Type 0
Attempt = Option Text × ℕ

-- `SELECT … WHERE pk > last ORDER BY pk LIMIT 2000`; the first query has no bound.
abbrev pub is_after : Option ℕ → ℕ → Bool
is_after none pk = true
is_after (some last) pk = ltb last pk

unfoldable pub select_page : Option ℕ → Table → Table
select_page last t = take fetch_batch_size (keep (λ r. is_after last r.pk) t)

-- `UPDATE … WHERE pk = …`
unfoldable pub update : ℕ → Raw → Table → Table
update pk v [] = []
update pk v (r ∷ t) = if r.pk == pk then record r { raw = v } ∷ t else r ∷ update pk v t

-- `rows[-1][0]`
unfoldable pub last_pk : Row → Table → ℕ
last_pk r [] = r.pk
last_pk r (s ∷ rows) = last_pk s rows

module _ (E : Env) where
  abbrev pub Json : Type 0
  Json = E.crypto.Json

  -- `_normalise_if_jsonb_value`
  abbrev pub unwrap : Text → Option Text → Text
  unwrap raw none = raw
  unwrap raw (some s) = s

  abbrev pub unwrap_json : Text → Option Json → Text
  unwrap_json raw none = raw
  unwrap_json raw (some parsed) = unwrap raw (E.crypto.as_str parsed)

  unfoldable pub normalise_if_jsonb_value : Raw → Option Text
  normalise_if_jsonb_value other = none
  normalise_if_jsonb_value (str raw) = some (unwrap_json raw (E.crypto.loads raw))

  -- What `_try_decrypt` counts, and the encryption with the new key. A clear value that is JSON's
  -- null is Python's None, and is taken for a failure that was counted.
  abbrev pub reencrypt_clear : ℕ → Option Json → Attempt
  reencrypt_clear iv none = (none, 1)
  reencrypt_clear iv (some clear) =
      if E.crypto.is_null clear
      then (none, 0)
      else (some (encrypt_with_key E.crypto iv clear E.new_key), 0)

  abbrev pub reencrypt_text : ℕ → Text → Attempt
  reencrypt_text iv raw =
      if has_part encrypted_marker raw
      then reencrypt_clear iv (decrypt_with_key E.crypto raw E.old_key)
      else (none, 0)

  -- `_reencrypt_value`
  unfoldable pub reencrypt_value : ℕ → Option Text → Attempt
  reencrypt_value iv none = (none, 0)
  reencrypt_value iv (some raw) = reencrypt_text iv raw

  -- The value that the column returns after a write.
  abbrev pub written : Bool → Text → Raw
  written false v = str v
  written true v = E.read_jsonb (E.crypto.dumps (E.crypto.of_str v))

  -- The body of the loop of `_reencrypt_rows` after the value is known.
  abbrev pub write_row : (dry_run is_jsonb : Bool) → ℕ → Attempt → Table → Pass Table
  write_row dry_run is_jsonb pk (none, skips) t = record { count = 0; skipped = skips; table = t }
  write_row dry_run is_jsonb pk (some v, skips) t = record {
    count = 1;
    skipped = skips;
    table = if dry_run then t else update pk (written is_jsonb v) t;
  }

  abbrev pub reencrypt_row : (dry_run is_jsonb : Bool) → Row → Table → Pass Table
  reencrypt_row dry_run is_jsonb r t =
      write_row dry_run is_jsonb r.pk (reencrypt_value (E.iv r.pk) (normalise_if_jsonb_value r.raw))
        t

  abbrev pub and_then {ℓ} : {T : Type ℓ} → Pass T → Pass T → Pass T
  and_then p q = record {
    count = p.count + q.count;
    skipped = p.skipped + q.skipped;
    table = q.table;
  }

  -- `_reencrypt_rows`
  unfoldable pub reencrypt_rows : (dry_run is_jsonb : Bool) → List Row → Table → Pass Table
  reencrypt_rows dry_run is_jsonb [] t = record { count = 0; skipped = 0; table = t }
  reencrypt_rows dry_run is_jsonb (r ∷ rows) t =
      let p = reencrypt_row dry_run is_jsonb r t in
      and_then p (reencrypt_rows dry_run is_jsonb rows p.table)

  abbrev pub add_pass : Pass Table → Option (Pass Table) → Option (Pass Table)
  add_pass p none = none
  add_pass p (some q) = some (and_then p q)

  -- A page of the loop: an empty one ends it.
  abbrev pub page_step :
      (dry_run is_jsonb : Bool)
      → List Row
      → (ℕ → Table → Option (Pass Table))
      → Table
      → Option (Pass Table)
  page_step dry_run is_jsonb [] next t = some (record { count = 0; skipped = 0; table = t })
  page_step dry_run is_jsonb (r ∷ rows) next t =
      let p = reencrypt_rows dry_run is_jsonb (r ∷ rows) t in
      add_pass p (next (last_pk r rows) p.table)

  -- The `while True` of `_paginated_reencrypt`, on fuel: none if the fuel runs out.
  unfoldable pub paginated_reencrypt :
      ℕ → (dry_run is_jsonb : Bool) → Option ℕ → Table → Option (Pass Table)
  paginated_reencrypt zero dry_run is_jsonb last t = none
  paginated_reencrypt (suc fuel) dry_run is_jsonb last t =
      page_step dry_run is_jsonb (select_page last t)
        (λ pk. paginated_reencrypt fuel dry_run is_jsonb (some pk)) t
