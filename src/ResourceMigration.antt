-- ===== src/ResourceMigration.antt =====
-- aap_gateway_api/management/commands/_migrate_service_data: resource_migration.py, with the flags of
-- superuser_sync.py in Superusers. Logging, progress output and the waits between attempts are left out.
pub mod Superusers
pub mod Consistency
pub mod Bulk
pub mod Page
pub mod Loop
pub mod Items
pub mod Delivery
pub mod Kept
mod Tests
use jewel.Prelude.{
  ℕ, zero, suc, ◌+◌, Bool, true, false, Text, text, text_eq, Option, none, some, List, [], ◌∷◌, ltb,
  ◌==◌, ◌||◌, if◌then◌else◌, length, keep, not, take, drop,
}
use jewel.ResourceMigration.Superusers.{Gateway, sync_user_superuser_flag}

-- A local resource that has the unique fields of an incoming one.
pub record Existing (D : Type 0) : Type 0 where
  pub ansible_id : Text
  pub service_id : Text
  pub local_data : D

-- The verdict of the serializer: validated data, or the fields with an error.
pub data Validation (D : Type 0) : Type 0 where
  valid : D → Validation D
  invalid : List Text → Validation D

pub record Resource (D : Type 0) : Type 0 where
  pub ansible_id : Text
  pub name : Text
  pub resource_data : Option D

-- `updated_service_resource`
pub record Patch (D : Type 0) : Type 0 where
  pub new_service_id : Option Text
  pub is_partially_migrated : Option Bool
  pub ansible_id : Option Text
  pub resource_data : Option D

-- An item of the bulk update.
pub record BulkItem (D : Type 0) : Type 0 where
  pub ansible_id : Text
  pub new_service_id : Option Text
  pub is_partially_migrated : Option Bool
  pub new_ansible_id : Option Text
  pub resource_data : Option D

-- The parsed body of a response: an object with its `updated` field, 0 if it is missing.
pub data Body : Type 0 where
  not_json : Body
  not_an_object : Body
  object : (updated : ℕ) → Body

-- What a bulk update request gives: an `HTTPError`, which may lack a response, another
-- `RequestException`, or a response.
pub data Reply : Type 0 where
  http_error : Option ℕ → Reply
  network_error : Reply
  response : (status_code : ℕ) → Body → Reply

pub record Env : Type 1 where
  pub gateway : Gateway
  pub service_type : Text
  pub service_id : Text
  pub system_username : Text
  pub validate : gateway.Data → Validation gateway.Data
  pub clear_email : gateway.Data → gateway.Data
  pub existing : gateway.State → gateway.Data → Option (Existing gateway.Data)
  -- `Resource.create_resource`: none when it raises
  pub create_resource : gateway.State → gateway.Data → Text → Option gateway.State
  -- the service: a page of the filtered list with its count, and a bulk update
  pub Service : Type 0
  pub list_resources : Service → List (Resource gateway.Data)
  pub bulk_update : Service → List (BulkItem gateway.Data) → Reply × Service

-- `TRANSIENT_STATUS_CODES`
unfoldable pub is_transient_status : ℕ → Bool
is_transient_status status = status == 502 || status == 503 || status == 504

abbrev pub max_bulk_chunk_size : ℕ
max_bulk_chunk_size = 1000

abbrev pub max_transient_retries : ℕ
max_transient_retries = 3

-- The parsed response or one of the two sentinels.
pub data Attempted : Type 0 where
  retry_sentinel : Attempted
  permanent_failure : Attempted
  parsed : Body → Attempted

-- `_should_retry`
unfoldable pub should_retry : ℕ → Bool
should_retry attempt = ltb (suc attempt) max_transient_retries

abbrev pub retry_or_fail : ℕ → Attempted
retry_or_fail attempt = if should_retry attempt then retry_sentinel else permanent_failure

-- `_handle_http_error`
unfoldable pub handle_http_error : ℕ → Option ℕ → Attempted
handle_http_error attempt none = permanent_failure
handle_http_error attempt (some status) =
    if is_transient_status status then retry_or_fail attempt else permanent_failure

abbrev pub parse_body : ℕ → Body → Attempted
parse_body attempt not_json = retry_or_fail attempt
parse_body attempt not_an_object = parsed not_an_object
parse_body attempt (object updated) = parsed (object updated)

-- `_try_bulk_update_once`, given what the request did.
unfoldable pub try_bulk_update_once : ℕ → Reply → Attempted
try_bulk_update_once attempt (http_error status) = handle_http_error attempt status
try_bulk_update_once attempt network_error = retry_or_fail attempt
try_bulk_update_once attempt (response status body) =
    if is_transient_status status
    then retry_or_fail attempt
    else if status == 200
    then parse_body attempt body
    else permanent_failure

-- `_process_bulk_response`
unfoldable pub process_bulk_response : Body → ℕ
process_bulk_response not_json = 0
process_bulk_response not_an_object = 0
process_bulk_response (object updated) = updated

module _ (E : Env) where
  abbrev pub Data : Type 0
  Data = E.gateway.Data

  abbrev pub Items : Type 0
  Items = List (BulkItem Data)

  -- A count, or none for a permanent failure.
  abbrev pub Sent : Type 0
  Sent = Option ℕ × E.Service

  abbrev pub after_attempt : Attempted → E.Service → (E.Service → Sent) → Sent
  after_attempt retry_sentinel s next = next s
  after_attempt permanent_failure s next = (none, s)
  after_attempt (parsed body) s next = (some (process_bulk_response body), s)

  -- The loop of `_send_bulk_update_chunk` from an attempt on, with the attempts that are left.
  unfoldable pub send_attempts : (left attempt : ℕ) → Items → E.Service → Sent
  send_attempts zero attempt chunk s = (none, s)
  send_attempts (suc left) attempt chunk s =
      let (reply, s') = E.bulk_update s chunk in
      after_attempt (try_bulk_update_once attempt reply) s' (send_attempts left (suc attempt) chunk)

  unfoldable pub send_bulk_update_chunk : Items → E.Service → Sent
  send_bulk_update_chunk = send_attempts max_transient_retries 0

  -- The slices of `_send_bulk_update`, on fuel.
  unfoldable pub chunks : ℕ → Items → List Items
  chunks zero items = []
  chunks (suc fuel) [] = []
  chunks (suc fuel) (i ∷ items) =
      take max_bulk_chunk_size (i ∷ items) ∷ chunks fuel (drop max_bulk_chunk_size (i ∷ items))

  abbrev pub add_sent : Sent → (E.Service → Sent) → Sent
  add_sent (none, s) next = (none, s)
  add_sent (some n, s) next =
      let (m, s') = next s in (elim m [ none ↦ none | some k ↦ some (n + k) ], s')

  unfoldable pub send_chunks : List Items → E.Service → Sent
  send_chunks [] s = (some 0, s)
  send_chunks (chunk ∷ rest) s = add_sent (send_bulk_update_chunk chunk s) (send_chunks rest)

  -- `_send_bulk_update`: none for the `RuntimeError`. There are at most as many chunks as items.
  unfoldable pub send_bulk_update : Items → E.Service → Sent
  send_bulk_update items = send_chunks (chunks (length items) items)
