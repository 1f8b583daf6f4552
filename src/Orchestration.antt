-- ===== src/Orchestration.antt =====
-- aap_gateway_api/management/commands/migrate_service_data.py and
-- _migrate_service_data/service_orchestration.py: the command as a whole. Its phases are operations on
-- a state, behind an interface; `false` stands for an exception.
pub mod Services
pub mod Completion
pub mod Parts
pub mod Composition
mod Tests
use jewel.Prelude.{
  ℕ, Bool, true, false, not, ◌&&◌, ◌||◌, Text, text, text_eq, lower, is_member, Option, none, some,
  List, [], ◌∷◌, ◌++◌, keep, length, ltb, ◌==◌, if◌then◌else◌,
}

-- A `ServiceAPIRoute` with the name of its cluster's type.
pub record ServiceApi : Type 0 where
  pub api_slug : Text
  pub service_type : Text

-- A page of a listing: its status, whether it has a next one, and the results.
pub record Listing (A : Type 0) : Type 0 where
  pub status : ℕ
  pub has_next : Bool
  pub results : A

pub record Metadata : Type 0 where
  pub service_id : Text
  pub service_type : Text

-- An entry of a listing of resources.
pub record ResourceItem : Type 0 where
  pub resource_type : Option Text
  pub name : Option Text

-- What a query for resources returns.
pub record Resources : Type 0 where
  pub count : ℕ
  pub results : List ResourceItem

-- The phases of the command: the requests to a service and the parts of the migration. The resource
-- types are by name; `none` and `false` stand for an exception.
pub record Phases : Type 1 where
  pub State : Type 0
  pub Results : Type 0
  pub list_role_types : ServiceApi → State → Option (Listing Results)
  pub list_role_permissions : ServiceApi → State → Option (Listing Results)
  pub load_types : Results → State → Bool × State
  pub load_permissions : Results → State → Bool × State
  pub get_service_metadata : ServiceApi → State → Option Metadata
  pub has_service_type : Text → State → Bool
  pub save_service_id : ServiceApi → Text → State → Bool × State
  pub list_own_resources : ServiceApi → Text → State → Option Resources
  pub list_resources : ServiceApi → State → Option Resources
  pub migrate_resource : ServiceApi → Text → State → Bool × State
  pub migrate_role_assignments : ServiceApi → Text → State → Bool × State
  pub has_resource_types : State → Bool
  pub has_user : Text → State → Bool
  pub delete_legacy_authenticators : State → Bool × State
  pub merge_partially_migrated_users : List ServiceApi → State → Bool × State
  pub ensure_superuser_consistency : List ServiceApi → State → Bool × State

-- `settings.SYSTEM_USERNAME`, if it is set, and the library's names of resource types: that of users,
-- and the keys of `resource_types_to_migrate` in their order.
pub record Settings : Type 0 where
  pub system_username : Option Text
  pub shared_user : Text
  pub resource_types : List Text

-- `get_service_type_name`
unfoldable pub get_service_type_name : Text → Text
get_service_type_name service_type =
    if text_eq (lower service_type) (text "awx")
    then text "controller"
    else if text_eq (lower service_type) (text "galaxy")
    then text "hub"
    else service_type

abbrev pub is_text : Text → Option Text → Bool
is_text t none = false
is_text t (some u) = text_eq u t

-- The entry of the system user
abbrev pub is_system_user : Settings → ResourceItem → Bool
is_system_user C r =
    is_text C.shared_user r.resource_type && is_system_name C.system_username r.name
  where
    is_system_name : Option Text → Option Text → Bool
    is_system_name none name = false
    is_system_name (some system) name = is_text system name

-- Whether resources of the service's own id are left to migrate.
unfoldable pub has_own_resources : Settings → Resources → Bool
has_own_resources C r =
    ltb 0 r.count
    && (not (length (keep (λ i. not (is_system_user C i)) r.results) == 0)
        || ltb (length r.results) r.count)

abbrev pub is_registry_filled : Option Resources → Option Bool
is_registry_filled none = none
is_registry_filled (some r) = some (not (r.count == 0))

abbrev pub own_then_all : Settings → Option Resources → Option Resources → Option Bool
own_then_all C none everything = none
own_then_all C (some own) everything =
    if has_own_resources C own then some false else is_registry_filled everything
