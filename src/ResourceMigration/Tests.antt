-- ===== src/ResourceMigration/Tests.antt =====
-- A service with a number of resources left, and the theorems at concrete runs.
use jewel.Prelude.{
  is_member, ℕ, zero, suc, ◌<◌, ◌≡◌, refl, Bool, true, false, Text, text, text_eq, Option, none,
  some, List, [], ◌∷◌, keep, any, arith, if◌then◌else◌,
}
use jewel.ResourceMigration.Superusers.{Gateway, sync_user_superuser_flag}
use jewel.ResourceMigration.Consistency.{
  UserItem, ServiceApi, Checked, page_superusers, collect_controller_superusers, promote_all,
  ensure_controller_gateway_superusers, demote_page, demote_extra_superusers, controller_api,
  is_hub_or_eda, demote_in, ensure_superuser_consistency,
}
use jewel.ResourceMigration.{
  Resource, BulkItem, valid, Env, Reply, response, object, http_error, try_bulk_update_once,
  should_retry, process_bulk_response, is_transient_status, send_attempts, send_bulk_update_chunk,
  send_chunks, send_bulk_update, chunks,
}
use jewel.ResourceMigration.Page.{
  World, Migration, finished, build_bulk_update_item, deserialize_and_validate,
  reconcile_existing_resource, collect_page, create_resources, process_resource_page_batch,
  get_filtered_resources, migrate_loop, migrate_resource,
}
use jewel.ResourceMigration.Bulk.{SettledBy, send_bulk_update_chunk-SettledBy}
use jewel.ResourceMigration.Loop.{Shrinks, batch, Ends, migrate_resource-Ends}
use jewel.ResourceMigration.Delivery.{IsDelivered, process_resource_page_batch-IsDelivered}

-- A user's name and flag; the gateway has one user.
abbrev Data : Type 0
Data = Text × Bool

abbrev with_flag : Text → Option Bool
with_flag u = if text_eq u (text "ann") then some true else none

abbrev gateway : Gateway
gateway = record {
  State = Bool;
  Data = Data;
  get_user = λ s u. if text_eq u (text "ann") then some s else none;
  promote = λ s u. if text_eq u (text "ann") then true else s;
  username = λ d. d.0;
  is_superuser = λ d. d.1;
  set_superuser = λ b d. (d.0, b);
}

abbrev resource : Resource Data
resource = record {
  ansible_id = text "id";
  name = text "ann";
  resource_data = some (text "ann", true);
}

abbrev listed : ℕ → List (Resource Data)
listed zero = []
listed (suc n) = resource ∷ []

abbrev one_done : ℕ → Reply × ℕ
one_done zero = (http_error (some 503), 0)
one_done (suc n) = (response 200 (object 1), n)

abbrev env : Env
env = record {
  gateway = gateway;
  service_type = text "controller";
  service_id = text "gateway";
  system_username = text "_system";
  validate = valid;
  clear_email = λ d. d;
  existing = λ s d. none;
  create_resource = λ s d id. some s;
  Service = ℕ;
  list_resources = listed;
  bulk_update = λ n items. one_done n;
}

abbrev world : ℕ → World env false
world n = record { gateway_state = false; service = n }

run : ℕ → ℕ → Migration env false
unfolding migrate_loop get_filtered_resources process_resource_page_batch collect_page
    create_resources reconcile_existing_resource deserialize_and_validate build_bulk_update_item
    send_bulk_update send_chunks send_bulk_update_chunk send_attempts chunks try_bulk_update_once
    should_retry process_bulk_response is_transient_status sync_user_superuser_flag keep text
    text_eq
run fuel n = migrate_resource env false fuel (world n)

run-migrate_resource : run 5 2 ≡ finished 2 (world 0)
unfolding run
run-migrate_resource = refl

batch-Shrinks :
    (g : Bool) (n : ℕ)
    → Shrinks env false
        (λ w. w.service)
        (record { gateway_state = g; service = n })
        (batch env false (record { gateway_state = g; service = n }))
unfolding run
batch-Shrinks g zero = omega arith
batch-Shrinks g (suc n) = omega arith

migrate_resource-Ends_example : Ends env false (migrate_resource env false 9 (world 2))
migrate_resource-Ends_example =
    migrate_resource-Ends env false (λ w. w.service) (λ w. batch-Shrinks w.gateway_state w.service)
      9 (world 2) (omega arith)

abbrev item : BulkItem Data
item = record {
  ansible_id = text "id";
  new_service_id = none;
  is_partially_migrated = none;
  new_ansible_id = none;
  resource_data = none;
}

send_bulk_update_chunk-SettledBy_example :
    (k : ℕ) × (k < 3) × SettledBy env (item ∷ []) 0 k (send_bulk_update_chunk env (item ∷ []) 0)
send_bulk_update_chunk-SettledBy_example = send_bulk_update_chunk-SettledBy env (item ∷ []) 0

process_resource_page_batch-IsDelivered_example : IsDelivered env false (text "id" ∷ []) 1 1 0
unfolding run
process_resource_page_batch-IsDelivered_example =
    process_resource_page_batch-IsDelivered env false (resource ∷ []) (world 1) (world 0) 1 refl

abbrev superusers : Bool → List Text
superusers true = text "ann" ∷ []
superusers false = []

abbrev ann_item : UserItem Data
ann_item = record { ansible_id = text "id"; resource_data = (text "ann", true) }

abbrev apis : List (ServiceApi Data)
apis =
    record { service_type = text "controller"; pages = (ann_item ∷ []) ∷ [] }
    ∷ record { service_type = text "hub"; pages = (ann_item ∷ []) ∷ [] }
    ∷ []

consistency : Checked Bool Data
unfolding ensure_superuser_consistency ensure_controller_gateway_superusers
    collect_controller_superusers page_superusers promote_all demote_page demote_extra_superusers
    demote_in controller_api is_hub_or_eda is_member keep any text text_eq
consistency = ensure_superuser_consistency gateway superusers apis false

-- A user of the controller is promoted in the gateway and loses the flag in the hub.
promoted_and_demoted : consistency ≡ record {
  raised = false;
  state = true;
  demotions = record { ansible_id = text "id"; resource_data = (text "ann", false) } ∷ [];
}
unfolding consistency
promoted_and_demoted = refl
