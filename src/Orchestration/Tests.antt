-- ===== src/Orchestration/Tests.antt =====
-- Phases that write down what they do, and the theorem at a concrete run.
use jewel.Prelude.{
  ℕ, zero, suc, Option, strip_prefix, ◌≡◌, refl, ◌⊎◌, Bool, true, false, Text, text, text_eq, lower,
  is_member, none, some, List, [], ◌∷◌, keep, if◌then◌else◌,
}
use mathlib.Core.Path.{subst}
use mathlib.Core.Option.{some-injective}
use jewel.Orchestration.{ServiceApi, Phases, Settings, get_service_type_name, has_own_resources}
use jewel.UserMerge.Groups.{service_type_order}
use jewel.Orchestration.Services.{
  load_types_and_permissions, migrate_resources, migrate_single_service, process_all_services,
  in_order, handle,
}
use jewel.Orchestration.Completion.{IsComplete, handle-IsComplete}
use jewel.Prelude.Dict.{lookup, insert}
use jewel.Orchestration.Parts.{
  Parts, migrate_resources_of, merge_users, migrate_assignments, whole_phases,
}
use jewel.Orchestration.Composition.{IsLawful, handle-IsOwn}
use jewel.UserMerge.{User, Tables, Env as MergeEnv, deleted, migrate_account, update_originals}
use jewel.UserMerge.Groups.{
  group_by_type, service_id_to_type, correlate_types, correlate_users, base_username, merge_groups,
  merge_conflicts, merge_into, merge_partially_migrated_users,
}
use jewel.UserMerge.Whole.{IsOwn}
use jewel.ResourceMigration.{
  Resource, valid, Env as ResourceEnv, Reply, response, network_error, object, try_bulk_update_once,
  should_retry, process_bulk_response, is_transient_status, send_attempts, send_bulk_update_chunk,
  send_chunks, send_bulk_update, chunks,
}
use jewel.ResourceMigration.Page.{
  build_bulk_update_item, deserialize_and_validate, reconcile_existing_resource, collect_page,
  create_resources, process_resource_page_batch, get_filtered_resources, migrate_loop,
}
use jewel.RoleAssignments.{get_role_definitions_to_exclude}
use jewel.RoleAssignments.Cursor.{replied, saved_pk, paginate_and_create, migrate_role_assignments}

abbrev hub : ServiceApi
hub = record { api_slug = text "galaxy"; service_type = text "hub" }

abbrev controller : ServiceApi
controller = record { api_slug = text "controller"; service_type = text "controller" }

abbrev did : Text → List Text → Bool × List Text
did what s = (true, what ∷ s)

-- A hub whose role assignments fail unless `healthy`.
abbrev pub phases : (healthy : Bool) → Phases
phases healthy = record {
  State = List Text;
  Results = Unit {0};
  list_role_types = λ api s. some (record { status = 200; has_next = false; results = tt });
  list_role_permissions = λ api s. none;
  load_types = λ results s. did (text "types") s;
  load_permissions = λ results s. did (text "permissions") s;
  get_service_metadata = λ api s. some (record {
    service_id = text "id";
    service_type = if text_eq api.service_type (text "hub") then text "Galaxy" else text "awx";
  });
  has_service_type = λ name s. true;
  save_service_id = λ api id s. (true, s);
  list_own_resources = λ api id s. some (record { count = 0; results = [] });
  list_resources = λ api s. some (record { count = 1; results = [] });
  migrate_resource = λ api type s. did type s;
  migrate_role_assignments =
      λ api name s. (if text_eq name (text "hub") then healthy else true, name ∷ s);
  has_resource_types = λ s. true;
  has_user = λ username s. true;
  delete_legacy_authenticators = λ s. (true, s);
  merge_partially_migrated_users = λ apis s. did (text "merge") s;
  ensure_superuser_consistency = λ apis s. did (text "superusers") s;
}

abbrev pub settings : Settings
settings = record {
  system_username = some (text "_system");
  shared_user = text "shared.user";
  resource_types = text "shared.organization" ∷ [];
}

abbrev pub services : List ServiceApi
services = hub ∷ controller ∷ []

healthy_run :
    (handle (phases true) settings false false (text "admin") services false []).has_ran ≡ true
unfolding handle in_order load_types_and_permissions process_all_services migrate_single_service
    migrate_resources get_service_type_name has_own_resources lower is_member keep text text_eq
healthy_run = refl

handle-IsComplete_example :
    (false ≡ true)
    ⊎ IsComplete
        (phases true)
        settings
        (in_order (phases true) settings service_type_order services)
        (handle (phases true) settings false false (text "admin") services false []).state
handle-IsComplete_example =
    handle-IsComplete (phases true) settings false false (text "admin") services false []
      healthy_run

-- The controller goes first, and the failure of a hub leaves the flag and the superusers alone.
failed_run :
    (handle (phases false) settings false false (text "admin") services false []).state
    ≡ text "hub" ∷ text "controller" ∷ text "merge" ∷ text "types" ∷ text "types" ∷ []
unfolding handle in_order load_types_and_permissions process_all_services migrate_single_service
    migrate_resources get_service_type_name has_own_resources lower is_member keep text text_eq
failed_run = refl

failed_flag :
    (handle (phases false) settings false false (text "admin") services false []).has_ran ≡ false
unfolding handle in_order load_types_and_permissions process_all_services migrate_single_service
    migrate_resources get_service_type_name has_own_resources lower is_member keep text text_eq
failed_flag = refl

-- The same services, with one user of the controller's and one of the gateway's.
abbrev member : ℕ → Text → Text → User
member pk username service_id = record {
  pk = pk;
  username = username;
  first_name = [];
  last_name = [];
  email = [];
  ansible_id = username;
  service_id = service_id;
  is_partially_migrated = true;
}

abbrev merging : MergeEnv
merging = record {
  Services = Unit {0};
  gateway_id = text "gw";
  has_route = λ cluster. true;
  delete_resource = λ cluster id w. (deleted, w);
  update_resource = λ cluster id body w. (true, w);
}

-- The controller has a user to migrate, whom the gateway then creates as its own.
abbrev created : Tables → Text → Tables
created t username = record t { users = member 3 username (text "gw") ∷ t.users }

abbrev listed : ℕ → List (Resource Text)
listed zero = []
listed (suc n) =
    record { ansible_id = text "eve"; name = text "eve"; resource_data = some (text "eve") } ∷ []

abbrev one_done : ℕ → Reply × ℕ
one_done zero = (network_error, 0)
one_done (suc n) = (response 200 (object 1), n)

abbrev resources : ResourceEnv
resources = record {
  gateway = record {
    State = Tables;
    Data = Text;
    get_user = λ t u. none;
    promote = λ t u. t;
    username = λ d. d;
    is_superuser = λ d. false;
    set_superuser = λ b d. d;
  };
  service_type = text "controller";
  service_id = text "gw";
  system_username = text "_system";
  validate = valid;
  clear_email = λ d. d;
  existing = λ t d. none;
  create_resource = λ t d id. some (created t d);
  Service = ℕ;
  list_resources = listed;
  bulk_update = λ n items. one_done n;
}

-- The tables of users, and the number of users that are to be migrated.
abbrev rest : Phases
rest = record {
  State = Tables × ℕ;
  Results = Unit {0};
  list_role_types = λ api s. some (record { status = 200; has_next = false; results = tt });
  list_role_permissions = λ api s. none;
  load_types = λ results s. (true, s);
  load_permissions = λ results s. (true, s);
  get_service_metadata = λ api s. some (record {
    service_id = text "id";
    service_type = if text_eq api.service_type (text "hub") then text "Galaxy" else text "awx";
  });
  has_service_type = λ name s. true;
  save_service_id = λ api id s. (true, s);
  list_own_resources = λ api id s. some (record { count = 2; results = [] });
  list_resources = λ api s. some (record { count = 1; results = [] });
  migrate_resource = λ api type s. (false, s);
  migrate_role_assignments = λ api name s. (false, s);
  has_resource_types = λ s. true;
  has_user = λ username s. true;
  delete_legacy_authenticators = λ s. (true, s);
  merge_partially_migrated_users = λ apis s. (false, s);
  ensure_superuser_consistency = λ apis s. (true, s);
}

abbrev parts : Parts
parts = record {
  rest = rest;
  merging = merging;
  tables = λ s. s.0;
  services = λ s. tt;
  write_merged = λ t w s. (t, s.1);
  resources = λ api type. resources;
  is_user = λ type. false;
  world = λ api type s. record { gateway_state = s.0; service = s.1 };
  write_world = λ api type w s. (w.gateway_state, w.service);
  assignments = λ slug. record {
    fetch = λ kind exclude after. replied 200 [];
    loads = λ kind. true;
    saves = λ kind pk. true;
  };
  store = λ s. record {
    db = record { roles = []; resources = []; object_roles = []; assignments = [] };
    cursors = [];
  };
  write_store = λ st s. s;
  cluster_id = λ api s. some api.api_slug;
  resource_fuel = 4;
  fuel = 1;
}

abbrev whole : Tables × ℕ
whole = (
  record {
    users = member 1 (text "ann") (text "gw") ∷ member 2 (text "bob") (text "controller") ∷ [];
    original_accounts = [];
    authenticator_users = [];
  },
  1,
)

created-IsOwn :
    (t t' : Tables) (username : Text)
    → ◌≡◌ {A = Option Tables} (some (created t username)) (some t')
    → IsOwn merging t
    → IsOwn merging t'
created-IsOwn t t' username e h = subst (IsOwn merging) (some-injective _ _ e) (refl, h)

parts-IsLawful : IsLawful parts
parts-IsLawful = record {
  merged = λ t w s. refl;
  stored = λ st s. refl;
  identified = λ api id s own. own;
  gateway_tables = λ api type t. t;
  world = λ api type s. refl;
  write_world = λ api type w s. refl;
  creates = λ api type t t' d id e h. created-IsOwn t t' d e h;
  promotes = λ api type t u h. h;
  checks = λ apis s own. own;
}

whole_run : Text → Bool
unfolding handle in_order load_types_and_permissions process_all_services migrate_single_service
    migrate_resources get_service_type_name has_own_resources lower is_member keep text text_eq
    merge_users migrate_assignments merge_partially_migrated_users group_by_type service_id_to_type
    correlate_types correlate_users base_username merge_groups merge_conflicts merge_into
    migrate_account update_originals migrate_role_assignments paginate_and_create
    get_role_definitions_to_exclude saved_pk lookup insert strip_prefix migrate_resources_of
    migrate_loop get_filtered_resources process_resource_page_batch collect_page create_resources
    reconcile_existing_resource deserialize_and_validate build_bulk_update_item send_bulk_update
    send_chunks send_bulk_update_chunk send_attempts chunks try_bulk_update_once should_retry
    process_bulk_response is_transient_status
whole_run username =
    (handle (whole_phases parts) settings false false username services false whole).has_ran

whole_run_marks :
    (handle (whole_phases parts) settings false false (text "admin") services false whole).has_ran
    ≡ true
unfolding whole_run
whole_run_marks = refl

-- The new user is in the table.
whole_run_creates :
    (handle (whole_phases parts) settings false false (text "admin") services false whole).state.1
    ≡ 0
unfolding whole_run
whole_run_creates = refl

handle-IsOwn_example :
    IsOwn merging
      (handle (whole_phases parts) settings false false (text "admin") services false whole).state.0
handle-IsOwn_example =
    handle-IsOwn parts settings parts-IsLawful false false (text "admin") services whole
      whole_run_marks
