-- ===== src/ResourceMigration/Page.antt =====
-- A page of resource_migration.py: validation, reconciliation with the gateway's resources, the
-- creation of missing ones and the bulk update; and the loop of `migrate_resource`.
use jewel.Prelude.{
  ℕ, zero, suc, ◌+◌, Bool, true, false, Text, text, text_eq, Option, none, some, List, [], ◌∷◌, leb,
  if◌then◌else◌, keep, not,
}
use jewel.ResourceMigration.Superusers.{sync_user_superuser_flag}
use jewel.ResourceMigration.{
  Existing, Validation, valid, invalid, Resource, Patch, BulkItem, Env, Items, send_bulk_update,
}

unfoldable pub is_email_only : List Text → Bool
is_email_only [] = false
is_email_only (field ∷ []) = text_eq field (text "email")
is_email_only (field ∷ other ∷ errors) = false

-- `_build_bulk_update_item`
unfoldable pub build_bulk_update_item : {D : Type 0} → Text → Patch D → BulkItem D
build_bulk_update_item ansible_id p = record {
  ansible_id = ansible_id;
  new_service_id = p.new_service_id;
  is_partially_migrated = p.is_partially_migrated;
  new_ansible_id = p.ansible_id;
  resource_data = p.resource_data;
}

module _ (E : Env) (is_user : Bool) where
  abbrev pub Data : Type 0
  Data = E.gateway.Data

  -- `_deserialize_and_validate_resource_data` with `update_resource_data`: the validated data and
  -- the data that the resource has after it; none for the `RuntimeError`.
  abbrev pub corrected : Data → List Text → Option (Data × Data)
  corrected d errors =
      let fixed = E.clear_email d in
      if is_user then (if is_email_only errors then some (fixed, fixed) else none) else none

  abbrev pub validated_or_corrected : Data → Validation Data → Option (Data × Data)
  validated_or_corrected d (valid v) = some (v, d)
  validated_or_corrected d (invalid errors) = corrected d errors

  unfoldable pub deserialize_and_validate : Data → Option (Data × Data)
  deserialize_and_validate d = validated_or_corrected d (E.validate d)

  -- `_reconcile_existing_resource` after `_initialize_resource_sync_payloads`: whether to create the
  -- resource, and what to send upstream.
  abbrev pub reconciled : Text → Option (Existing Data) → Bool × Patch Data
  reconciled ansible_id none = (
    true,
    record {
      new_service_id = some E.service_id;
      is_partially_migrated = none;
      ansible_id = none;
      resource_data = none;
    },
  )
  reconciled ansible_id (some e) = (
    false,
    record {
      new_service_id =
          if text_eq e.ansible_id ansible_id then some e.service_id else some E.service_id;
      is_partially_migrated = none;
      ansible_id = some e.ansible_id;
      resource_data = some e.local_data;
    },
  )

  unfoldable pub reconcile_existing_resource : E.gateway.State → Text → Data → Bool × Patch Data
  reconcile_existing_resource s ansible_id v = reconciled ansible_id (E.existing s v)

  -- What a page has collected: the resources to create, and the items to send.
  pub record Collected : Type 0 where
    pub create_operations : List (Data × Text)
    pub bulk_update_items : Items E

  abbrev pub collect : Text → Data → Bool × Patch Data → Collected → Collected
  collect ansible_id d (true, p) c = record {
    create_operations = (d, ansible_id) ∷ c.create_operations;
    bulk_update_items = build_bulk_update_item ansible_id p ∷ c.bulk_update_items;
  }
  collect ansible_id d (false, p) c = record c {
    bulk_update_items = build_bulk_update_item ansible_id p ∷ c.bulk_update_items;
  }

  -- The second validation, for users, sees the data with the flag.
  abbrev pub Prepared : Type 0
  Prepared = Option (Data × Data) × E.gateway.State

  abbrev pub prepare_user : Option (Data × Data) → E.gateway.State → Prepared
  prepare_user none s = (none, s)
  prepare_user (some (v, d)) s =
      let (s', flagged) = sync_user_superuser_flag E.gateway E.service_type s d v in
      (deserialize_and_validate flagged, s')

  abbrev pub prepare : Option Data → E.gateway.State → Prepared
  prepare none s = (none, s)
  prepare (some d) s =
      if is_user
      then prepare_user (deserialize_and_validate d) s
      else (deserialize_and_validate d, s)

  abbrev pub Collecting : Type 0
  Collecting = Option Collected × E.gateway.State

  abbrev pub add_collected : Text → Data → Bool × Patch Data → Collecting → Collecting
  add_collected ansible_id d r (none, s) = (none, s)
  add_collected ansible_id d r (some c, s) = (some (collect ansible_id d r c), s)

  abbrev pub collect_prepared : Text → Prepared → (E.gateway.State → Collecting) → Collecting
  collect_prepared ansible_id (none, s) rest = (none, s)
  collect_prepared ansible_id (some (v, d), s) rest =
      add_collected ansible_id d (reconcile_existing_resource s ansible_id v) (rest s)

  -- The loop over the page: none when an item raises.
  unfoldable pub collect_page : List (Resource Data) → E.gateway.State → Collecting
  collect_page [] s = (some (record { create_operations = []; bulk_update_items = [] }), s)
  collect_page (r ∷ results) s =
      collect_prepared r.ansible_id (prepare r.resource_data s) (collect_page results)

  -- The creations, in one transaction.
  abbrev pub create_next :
      (E.gateway.State → Option E.gateway.State) → Option E.gateway.State → Option E.gateway.State
  create_next rest none = none
  create_next rest (some s) = rest s

  unfoldable pub create_resources : List (Data × Text) → E.gateway.State → Option E.gateway.State
  create_resources [] s = some s
  create_resources ((d, ansible_id) ∷ operations) s =
      create_next (create_resources operations) (E.create_resource s d ansible_id)

  pub record World : Type 0 where
    pub gateway_state : E.gateway.State
    pub service : E.Service

  -- A page's count of updated items, or none for an exception.
  abbrev pub Batch : Type 0
  Batch = Option ℕ × World

  abbrev pub send_items : Items E → E.gateway.State → E.Service → Batch
  send_items [] g s = (some 0, record { gateway_state = g; service = s })
  send_items (i ∷ items) g s =
      let (sent, s') = send_bulk_update E (i ∷ items) s in
      (sent, record { gateway_state = g; service = s' })

  abbrev pub created : Items E → E.gateway.State → E.Service → Option E.gateway.State → Batch
  created items g s none = (none, record { gateway_state = g; service = s })
  created items g s (some g') = send_items items g' s

  abbrev pub collected : E.Service → Collecting → Batch
  collected s (none, g) = (none, record { gateway_state = g; service = s })
  collected s (some c, g) = created c.bulk_update_items g s (create_resources c.create_operations g)

  -- `_process_resource_page_batch`
  unfoldable pub process_resource_page_batch : List (Resource Data) → World → Batch
  process_resource_page_batch results w = collected w.service (collect_page results w.gateway_state)

  -- `_get_filtered_resources`
  unfoldable pub get_filtered_resources : World → List (Resource Data)
  get_filtered_resources w =
      if is_user
      then keep (λ r. not (text_eq r.name E.system_username)) (E.list_resources w.service)
      else E.list_resources w.service

  abbrev pub max_zero_progress_pages : ℕ
  max_zero_progress_pages = 3

  pub data Migration : Type 0 where
    -- with the number of resources that were processed
    finished : ℕ → World → Migration
    -- an exception from a page
    failed : World → Migration
    stalled : World → Migration
    out_of_fuel : Migration

  -- The end of an iteration: the count of pages in a row without progress.
  abbrev pub next_page :
      (stalls processed : ℕ) → Batch → ((stalls processed : ℕ) → World → Migration) → Migration
  next_page stalls processed (none, w) continue = failed w
  next_page stalls processed (some zero, w) continue =
      if leb max_zero_progress_pages (suc stalls)
      then stalled w
      else continue (suc stalls) processed w
  next_page stalls processed (some (suc n), w) continue = continue 0 (processed + suc n) w

  abbrev pub page_or_end :
      (stalls processed : ℕ)
      → List (Resource Data)
      → World
      → ((stalls processed : ℕ) → World → Migration)
      → Migration
  page_or_end stalls processed [] w continue = finished processed w
  page_or_end stalls processed (r ∷ results) w continue =
      next_page stalls processed (process_resource_page_batch (r ∷ results) w) continue

  -- The `while True` of `migrate_resource`, on fuel.
  unfoldable pub migrate_loop : (fuel stalls processed : ℕ) → World → Migration
  migrate_loop zero stalls processed w = out_of_fuel
  migrate_loop (suc fuel) stalls processed w =
      page_or_end stalls processed (get_filtered_resources w) w (migrate_loop fuel)

  abbrev pub migrate_resource : (fuel : ℕ) → World → Migration
  migrate_resource fuel = migrate_loop fuel 0 0
