-- ===== src/Orchestration/Parts.antt =====
-- The phases of the command with the parts that have modules of their own: the merge of users, the
-- migration of resources and that of role assignments. All phases read and write one state, the
-- database and the services.
use jewel.Prelude.{Bool, true, false, Text, is_some, Option, List, map, ℕ}
use jewel.Orchestration.{ServiceApi, Phases}
use jewel.UserMerge.{Tables, Env as MergeEnv}
use jewel.UserMerge.Groups.{ServiceApi as MergedApi, Merged, merge_partially_migrated_users}
use jewel.ResourceMigration.{Env as ResourceEnv}
use jewel.ResourceMigration.Page.{
  World, Migration, finished, failed, stalled, out_of_fuel, migrate_resource,
}
use jewel.RoleAssignments.Cursor.{
  Env as PageEnv, Store, Outcome, completed, aborted, endless, migrate_role_assignments,
}

-- The other phases, whose state is that of all; what the three parts read of it and write to it; the
-- services as they meet them; whether a type is that of users; the id of a service's cluster; and fuel
-- for the pages of resources and of role assignments.
pub record Parts : Type 1 where
  pub rest : Phases
  pub merging : MergeEnv
  pub tables : rest.State → Tables
  pub services : rest.State → merging.Services
  pub write_merged : Tables → merging.Services → rest.State → rest.State
  pub resources : ServiceApi → Text → ResourceEnv
  pub is_user : Text → Bool
  pub world :
      (api : ServiceApi) (type : Text) → rest.State → World (resources api type) (is_user type)
  pub write_world :
      (api : ServiceApi) (type : Text)
      → World (resources api type) (is_user type)
      → rest.State
      → rest.State
  pub assignments : Text → PageEnv
  pub store : rest.State → Store
  pub write_store : Store → rest.State → rest.State
  pub cluster_id : ServiceApi → rest.State → Option Text
  pub resource_fuel : ℕ
  pub fuel : ℕ

module _ (Q : Parts) where
  abbrev pub State : Type 0
  State = Q.rest.State

  abbrev pub merged_api : State → ServiceApi → MergedApi
  merged_api s api = record { service_id = Q.cluster_id api s; service_type = api.service_type }

  abbrev pub with_merged : State → Merged Q.merging → Bool × State
  with_merged s (merged, tables, services) = (is_some merged, Q.write_merged tables services s)

  abbrev pub with_outcome : State → Outcome → Bool × State
  with_outcome s (completed rebuilt store) = (true, Q.write_store store s)
  with_outcome s (aborted rebuilt store) = (false, Q.write_store store s)
  with_outcome s (endless store) = (false, Q.write_store store s)

  abbrev pub with_migration :
      (api : ServiceApi) (type : Text)
      → State
      → Migration (Q.resources api type) (Q.is_user type)
      → Bool × State
  with_migration api type s (finished n w) = (true, Q.write_world api type w s)
  with_migration api type s (failed w) = (false, Q.write_world api type w s)
  with_migration api type s (stalled w) = (false, Q.write_world api type w s)
  with_migration api type s out_of_fuel = (false, s)

  unfoldable pub migrate_resources_of : ServiceApi → Text → State → Bool × State
  migrate_resources_of api type s = with_migration api type s (
      migrate_resource (Q.resources api type) (Q.is_user type) Q.resource_fuel (Q.world api type s))

  unfoldable pub merge_users : List ServiceApi → State → Bool × State
  merge_users apis s = with_merged s (
      merge_partially_migrated_users Q.merging (map (merged_api s) apis) (Q.tables s)
        (Q.services s))

  unfoldable pub migrate_assignments : ServiceApi → Text → State → Bool × State
  migrate_assignments api name s =
      with_outcome s
        (migrate_role_assignments (Q.assignments api.api_slug) Q.fuel api.api_slug name (Q.store s))

  abbrev pub whole_phases : Phases
  whole_phases = record (Q.rest) {
    migrate_resource = migrate_resources_of;
    migrate_role_assignments = migrate_assignments;
    merge_partially_migrated_users = merge_users;
  }
