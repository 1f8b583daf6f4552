-- ===== src/RoleAssignments/Tests.antt =====
-- A service with two user assignments and a team assignment, and the theorems at concrete runs.
use jewel.Prelude.{
  ◌<◌, IsIncreasing, is_some, ◌≡◌, refl, Bool, true, false, Text, text, text_eq, none, some, List,
  [], ◌∷◌, ◌||◌, keep, any, take, length, above, All, arith, inl, inr, is_member, show,
}
use jewel.RoleAssignments.{
  Kind, user, team, Item, RoleDefinition, Resource, Assignment, Database, same_assignment,
  collect_unique_ids, role_of, resource_of, resolve_single_assignment, resolve_all, resolve_page,
  get_role_definitions_to_exclude,
}
use jewel.RoleAssignments.Create.{
  insert_new, existing_global, bulk_create_global_assignments, object_role_keys,
  bulk_create_object_assignments, bulk_resolve_and_create_page,
}
use jewel.RoleAssignments.Cursor.{
  Env, Store, replied, saved_pk, upsert, last_id, paginate_and_create, migrate_role_assignments,
}
use jewel.RoleAssignments.Grants.{granted, wanted, granted-bulk_resolve_and_create_page}
use jewel.RoleAssignments.Runs.{id_of, IsService, IsCovered}
use jewel.RoleAssignments.Migration.{
  IsReached, start, run, changed, StaysDone, IsMigrated, store_of, IsReached-IsCovered,
  migrate_role_assignments-IsMigrated,
}

abbrev reader : RoleDefinition
reader = record { id = 4; name = text "Reader"; content_type_id = some 9 }

abbrev admin : RoleDefinition
admin = record { id = 5; name = text "Admin"; content_type_id = none }

abbrev ann : Resource
ann = record { ansible_id = text "a1"; object_id = 31 }

abbrev project : Resource
project = record { ansible_id = text "p1"; object_id = 77 }

abbrev db : Database
db = record {
  roles = reader ∷ admin ∷ [];
  resources = ann ∷ project ∷ [];
  object_roles = [];
  assignments = [];
}

abbrev ann_reads : Item
ann_reads = record {
  id = some 3;
  role_definition = some (text "Reader");
  actor_ansible_id = some (text "a1");
  object_ansible_id = some (text "p1");
  object_id = none;
}

abbrev ann_admin : Item
ann_admin = record {
  id = some 8;
  role_definition = some (text "Admin");
  actor_ansible_id = some (text "a1");
  object_ansible_id = none;
  object_id = none;
}

abbrev unknown : Item
unknown = record {
  id = some 2;
  role_definition = some (text "Admin");
  actor_ansible_id = some (text "zz");
  object_ansible_id = none;
  object_id = none;
}

abbrev listed : Kind → List Item
listed user = ann_reads ∷ ann_admin ∷ []
listed team = unknown ∷ []

abbrev global_admin : Assignment
global_admin = record { kind = user; actor = 31; role_definition_id = 5; object_role = none }

granted-bulk_resolve_and_create_page_example :
    granted global_admin (bulk_resolve_and_create_page user (listed user) db).1.assignments
    ≡ granted global_admin (wanted user (listed user) db) || granted global_admin []
granted-bulk_resolve_and_create_page_example =
    granted-bulk_resolve_and_create_page user (listed user) db global_admin

abbrev env : (saves : Bool) → Env
env saves = record {
  fetch = λ kind exclude after. replied 200 (take 1 (above id_of after (listed kind)));
  loads = λ kind. true;
  saves = λ kind pk. saves;
}

abbrev down : Env
down = record {
  fetch = λ kind exclude after. replied 503 [];
  loads = λ kind. false;
  saves = λ kind pk. true;
}

hub_exclude : List Text
hub_exclude = get_role_definitions_to_exclude (text "hub")

positive : (kind : Kind) → All (λ i. 0 < id_of i) (listed kind)
positive user = (omega arith, (omega arith, tt))
positive team = (omega arith, tt)

env-IsService : (saves : Bool) (exclude : List Text) → IsService (env saves) exclude listed 0
env-IsService saves exclude = record {
  pages = λ kind after. inr refl;
  positive = positive;
  increasing = λ kind. elim kind as (λ kind. IsIncreasing id_of (listed kind)) [
    | user ↦ ((omega arith, tt), (tt, tt))
    | team ↦ (tt, tt)
  ];
  with_id = λ kind. elim kind as (λ kind. All (λ i. is_some i.id ≡ true) (listed kind)) [
    | user ↦ (refl, (refl, tt))
    | team ↦ (refl, tt)
  ];
}

down-IsService : (exclude : List Text) → IsService down exclude listed 0
down-IsService exclude = record {
  pages = λ kind after. inl refl;
  positive = positive;
  increasing = (env-IsService true exclude).increasing;
  with_id = (env-IsService true exclude).with_id;
}

abbrev empty_store : Store
empty_store = record { db = db; cursors = [] }

abbrev once : Store
once = store_of (migrate_role_assignments (env true) 1 (text "hub") (text "hub") empty_store)

-- The first run stops after one page, and the next ones meet a service that is down.
once-IsReached : IsReached (text "hub") (text "hub") listed once
unfolding saved_pk
once-IsReached =
    run empty_store (start empty_store (λ kind. refl)) (env true) 0 1 (env-IsService true _)

IsReached-IsCovered_example : IsCovered (text "hub") listed once
IsReached-IsCovered_example =
    IsReached-IsCovered (text "hub") (text "hub") listed once positive once-IsReached

-- Another role is loaded before the next run.
abbrev auditor : RoleDefinition
auditor = record { id = 6; name = text "Auditor"; content_type_id = none }

abbrev reloaded : Store
reloaded = record once { db = record (once.db) { roles = auditor ∷ once.db.roles } }

reloaded-IsReached : IsReached (text "hub") (text "hub") listed reloaded
unfolding resolve_single_assignment role_of resource_of text text_eq migrate_role_assignments
    get_role_definitions_to_exclude paginate_and_create last_id upsert bulk_resolve_and_create_page
    bulk_create_global_assignments bulk_create_object_assignments
reloaded-IsReached = changed once reloaded once-IsReached refl (λ kind.
    elim kind
      as (λ kind.
        All (StaysDone (text "hub") (text "hub") listed kind once reloaded) (listed kind)) [
          | user ↦ ((λ below r e. (e, (λ g. g))), ((λ below r e. (e, (λ g. g))), tt))
          | team ↦ ((λ below r e. (e, (λ g. g))), tt)
        ])

enough : (kind : Kind) → length (listed kind) < 3
enough user = omega arith
enough team = omega arith

migrate_role_assignments-IsMigrated_example :
    IsMigrated
      (text "hub")
      (text "hub")
      listed
      ⊥
      (migrate_role_assignments (env false) 3 (text "hub") (text "hub") reloaded)
migrate_role_assignments-IsMigrated_example =
    migrate_role_assignments-IsMigrated (text "hub") (text "hub") listed reloaded (env false) 0 3
      reloaded-IsReached (env-IsService false _) enough

-- The run before stopped with the first user assignment created and its id saved.
saved_example : saved_pk (text "hub") user once.cursors ≡ 3
unfolding migrate_role_assignments get_role_definitions_to_exclude text text_eq paginate_and_create
    last_id upsert saved_pk bulk_resolve_and_create_page resolve_page resolve_all
    resolve_single_assignment collect_unique_ids role_of resource_of bulk_create_global_assignments
    bulk_create_object_assignments existing_global object_role_keys insert_new same_assignment keep
    any is_member show
saved_example = refl

page_example : (bulk_resolve_and_create_page user (listed user) db).0 ≡ 2
unfolding migrate_role_assignments get_role_definitions_to_exclude text text_eq paginate_and_create
    last_id upsert saved_pk bulk_resolve_and_create_page resolve_page resolve_all
    resolve_single_assignment collect_unique_ids role_of resource_of bulk_create_global_assignments
    bulk_create_object_assignments existing_global object_role_keys insert_new same_assignment keep
    any is_member show
page_example = refl
