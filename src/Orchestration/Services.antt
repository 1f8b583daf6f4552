-- ===== src/Orchestration/Services.antt =====
-- The services of the command, one after the other, and `handle`.
use jewel.Prelude.{
  Bool, true, false, not, ◌&&◌, Text, text_eq, add_member, Option, none, some, List, [], ◌∷◌, ◌++◌,
  keep, length, ◌==◌, if◌then◌else◌,
}
use jewel.UserMerge.Groups.{service_type_order}
use jewel.Orchestration.{
  ServiceApi, Listing, Metadata, Phases, Settings, get_service_type_name, own_then_all,
}

module _ (P : Phases) (C : Settings) where
  abbrev pub State : Type 0
  State = P.State

  abbrev pub and_then : Bool × State → (State → Bool × State) → Bool × State
  and_then (false, s) next = (false, s)
  and_then (true, s) next = next s

  -- The objects of a page that is the only one: none for an error status or a further page.
  abbrev pub only_page : Option (Listing P.Results) → Option P.Results
  only_page none = none
  only_page (some l) =
      if l.status == 200 then (if l.has_next then none else some l.results) else none

  abbrev pub load_page :
      Option P.Results → (P.Results → State → Bool × State) → State → Bool × State
  load_page none load s = (false, s)
  load_page (some results) load s = load results s

  -- The `try` of `load_types_and_permissions`
  abbrev pub load_service : ServiceApi → State → Bool × State
  load_service api s =
      and_then (load_page (only_page (P.list_role_types api s)) P.load_types s)
        (λ s'. load_page (only_page (P.list_role_permissions api s')) P.load_permissions s')

  abbrev pub add_failure : Text → Bool → List Text × State → List Text × State
  add_failure slug loaded (failed, s) = (if loaded then failed else slug ∷ failed, s)

  -- The services whose types failed to load.
  unfoldable pub load_types_and_permissions : List ServiceApi → State → List Text × State
  load_types_and_permissions [] s = ([], s)
  load_types_and_permissions (api ∷ apis) s =
      let (loaded, s') = load_service api s in
      add_failure api.api_slug loaded (load_types_and_permissions apis s')

  -- `_is_service_already_synced`: none if a request raises
  abbrev pub is_service_already_synced : ServiceApi → Text → State → Option Bool
  is_service_already_synced api service_id s =
      own_then_all C (P.list_own_resources api service_id s) (P.list_resources api s)

  unfoldable pub migrate_resources : ServiceApi → List Text → State → Bool × State
  migrate_resources api [] s = (true, s)
  migrate_resources api (t ∷ types) s =
      and_then (P.migrate_resource api t s) (migrate_resources api types)

  abbrev pub unless_synced : ServiceApi → Option Bool → State → Bool × State
  unless_synced api none s = (false, s)
  unless_synced api (some true) s = (true, s)
  unless_synced api (some false) s = migrate_resources api C.resource_types s

  -- A service of a type that may be migrated and that is the configured one.
  abbrev pub migrate_known : ServiceApi → Text → Text → State → Bool × State
  migrate_known api service_id name s = and_then (P.save_service_id api service_id s) (λ s1.
      and_then (unless_synced api (is_service_already_synced api service_id s1) s1)
        (λ s2. P.migrate_role_assignments api name s2))

  abbrev pub migrate_described : ServiceApi → Option Metadata → State → Bool × State
  migrate_described api none s = (false, s)
  migrate_described api (some m) s =
      let name = get_service_type_name m.service_type in
      if P.has_service_type name s && text_eq name api.service_type
      then migrate_known api m.service_id name s
      else (false, s)

  -- `_migrate_single_service`: false for an exception and for a refusal
  unfoldable pub migrate_single_service : ServiceApi → State → Bool × State
  migrate_single_service api s = migrate_described api (P.get_service_metadata api s) s

  -- The two results of `_process_all_services`, by their slugs.
  pub record Processed : Type 0 where
    pub successful : List Text
    pub failed : List Text
    pub state : State

  abbrev pub add_result : Text → Bool → Processed → Processed
  add_result slug true p = record p { successful = slug ∷ p.successful }
  add_result slug false p = record p { failed = add_member slug p.failed }

  unfoldable pub process_all_services : List ServiceApi → State → Processed
  process_all_services [] s = record { successful = []; failed = []; state = s }
  process_all_services (api ∷ apis) s =
      let (success, s') = migrate_single_service api s in
      add_result api.api_slug success (process_all_services apis s')

  -- `filter(service_type__name__in=…).order_by(…)`
  unfoldable pub in_order : List Text → List ServiceApi → List ServiceApi
  in_order [] apis = []
  in_order (t ∷ types) apis = keep (λ api. text_eq api.service_type t) apis ++ in_order types apis

  -- `has_ran`, and the rest of the state.
  pub record Run : Type 0 where
    pub returned : Bool
    pub has_ran : Bool
    pub state : State

  abbrev pub raise_with : Bool → State → Run
  raise_with has_ran s = record { returned = false; has_ran = has_ran; state = s }

  abbrev pub or_raise : Bool → Bool × State → (State → Run) → Run
  or_raise has_ran (false, s) next = raise_with has_ran s
  or_raise has_ran (true, s) next = next s

  -- `_report_migration_summary` raises if a service failed.
  abbrev pub report_migration_summary : Processed → Bool × State
  report_migration_summary p = (length p.failed == 0, p.state)

  -- `mark_migration_completed`
  abbrev pub mark_migration_completed : State → Run
  mark_migration_completed s = record { returned = true; has_ran = true; state = s }

  abbrev pub check_superusers : List ServiceApi → Bool → State → Run
  check_superusers apis has_ran s =
      or_raise has_ran (P.ensure_superuser_consistency apis s) mark_migration_completed

  abbrev pub process_services : List ServiceApi → Bool → State → Run
  process_services apis has_ran s =
      or_raise has_ran (report_migration_summary (process_all_services apis s))
        (check_superusers apis has_ran)

  abbrev pub merge_users : List ServiceApi → Bool → State → Run
  merge_users apis has_ran s =
      or_raise has_ran (P.merge_partially_migrated_users apis s) (process_services apis has_ran)

  -- What `handle` does with the services, from the loading of types on.
  abbrev pub migrate_services : List ServiceApi → Bool → State → Run
  migrate_services apis has_ran s =
      or_raise has_ran (P.delete_legacy_authenticators (load_types_and_permissions apis s).1)
        (merge_users apis has_ran)

  -- `handle`, where `completed` is what `has_migration_completed` says.
  unfoldable pub handle :
      (completed rerun : Bool)
      → (username : Text) → List ServiceApi
      → (has_ran : Bool) → State
      → Run
  handle completed rerun username configured has_ran s =
      let apis = in_order service_type_order configured in
      if completed && not rerun
      then record { returned = true; has_ran = has_ran; state = s }
      else if P.has_resource_types s && (P.has_user username s && not (length apis == 0))
      then migrate_services apis has_ran s
      else raise_with has_ran s
