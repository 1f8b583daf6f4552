-- ===== src/RoleAssignments.antt =====
-- aap_gateway_api/management/commands/_migrate_service_data/role_assignments.py: a page of role
-- assignments, resolved in bulk and created. The tables of the permission library hold what the
-- code reads and writes of them; a primary key is a number, and the service writes ids as texts.
pub mod Create
pub mod Cursor
pub mod Grants
pub mod Rows
pub mod Lookups
pub mod Saved
pub mod Runs
pub mod Migration
mod Tests
use jewel.Prelude.{
  ℕ, Bool, true, false, not, ◌&&◌, ◌||◌, Text, text, text_eq, is_member, add_member, show, Option,
  none, some, List, [], ◌∷◌, ◌++◌, map, keep, any, length, ◌==◌, ◌+◌, if◌then◌else◌,
}

-- `assignment_type`
pub data Kind : Type 0 where
  user : Kind
  team : Kind

-- An item of the service's list, with the actor's id under the field of the list's type. An absent
-- or null field is none, and so is an empty text but for `object_id`.
pub record Item : Type 0 where
  pub id : Option ℕ
  pub role_definition : Option Text
  pub actor_ansible_id : Option Text
  pub object_ansible_id : Option Text
  pub object_id : Option Text

pub record RoleDefinition : Type 0 where
  pub id : ℕ
  pub name : Text
  pub content_type_id : Option ℕ

pub record Resource : Type 0 where
  pub ansible_id : Text
  pub object_id : ℕ

-- An `ObjectRole`; its three columns are unique together.
pub record ObjectRole : Type 0 where
  pub role_definition_id : ℕ
  pub content_type_id : Option ℕ
  pub object_id : Text

-- A row of `RoleUserAssignment` or `RoleTeamAssignment`, with the object role that it refers to.
pub record Assignment : Type 0 where
  pub kind : Kind
  pub actor : ℕ
  pub role_definition_id : ℕ
  pub object_role : Option ObjectRole

pub record Database : Type 0 where
  pub roles : List RoleDefinition
  pub resources : List Resource
  pub object_roles : List ObjectRole
  pub assignments : List Assignment

-- The tuple of a resolved item: global if it has no object.
pub record Resolved : Type 0 where
  pub actor : ℕ
  pub role : RoleDefinition
  pub object_id : Option Text

abbrev pub same_kind : Kind → Kind → Bool
same_kind user user = true
same_kind user team = false
same_kind team user = false
same_kind team team = true

abbrev pub same_number : Option ℕ → Option ℕ → Bool
same_number none none = true
same_number none (some n) = false
same_number (some m) none = false
same_number (some m) (some n) = m == n

abbrev pub same_object_role : ObjectRole → ObjectRole → Bool
same_object_role a b =
    a.role_definition_id == b.role_definition_id
    && (same_number a.content_type_id b.content_type_id && text_eq a.object_id b.object_id)

abbrev pub same_object : Option ObjectRole → Option ObjectRole → Bool
same_object none none = true
same_object none (some b) = false
same_object (some a) none = false
same_object (some a) (some b) = same_object_role a b

unfoldable pub same_assignment : Assignment → Assignment → Bool
same_assignment a b =
    same_kind a.kind b.kind
    && (a.actor == b.actor
        && (a.role_definition_id == b.role_definition_id
            && same_object a.object_role b.object_role))

abbrev pub default_exclusion_set : List Text
default_exclusion_set =
    text "Organization Admin"
    ∷ text "Organization Member"
    ∷ text "Platform Auditor"
    ∷ text "Team Admin"
    ∷ text "Team Member"
    ∷ []

-- `_get_role_definitions_to_exclude`, sorted
unfoldable pub get_role_definitions_to_exclude : Text → List Text
get_role_definitions_to_exclude service_type =
    if text_eq service_type (text "controller")
    then []
    else if text_eq service_type (text "hub")
    then keep (λ r. not (text_eq r (text "Team Member"))) default_exclusion_set
    else default_exclusion_set

-- The three sets of `_collect_unique_ids`.
pub record UniqueIds : Type 0 where
  pub role_names : List Text
  pub actor_ansible_ids : List Text
  pub object_ansible_ids : List Text

abbrev pub add_some : Option Text → List Text → List Text
add_some none us = us
add_some (some u) us = add_member u us

unfoldable pub collect_unique_ids : List Item → UniqueIds
collect_unique_ids [] = record { role_names = []; actor_ansible_ids = []; object_ansible_ids = [] }
collect_unique_ids (i ∷ items) =
    let ids = collect_unique_ids items in
    record {
      role_names = add_some i.role_definition ids.role_names;
      actor_ansible_ids = add_some i.actor_ansible_id ids.actor_ansible_ids;
      object_ansible_ids = add_some i.object_ansible_id ids.object_ansible_ids;
    }

-- `.get` on the dict of the role definitions by name, and on that of the resources by id.
unfoldable pub role_of : Text → List RoleDefinition → Option RoleDefinition
role_of name [] = none
role_of name (r ∷ roles) = if text_eq r.name name then some r else role_of name roles

unfoldable pub resource_of : Text → List Resource → Option Resource
resource_of id [] = none
resource_of id (r ∷ resources) =
    if text_eq r.ansible_id id then some r else resource_of id resources

-- The end of `_resolve_single_assignment`, once role and actor are known.
abbrev pub resolve_found : ℕ → RoleDefinition → Option Resource → Option Resolved
resolve_found actor role none = none
resolve_found actor role (some r) =
    some (record { actor = actor; role = role; object_id = some (show r.object_id) })

abbrev pub resolve_object :
    ℕ → RoleDefinition → Option Text → Option Text → List Resource → Option Resolved
resolve_object actor role (some id) object_id objects =
    resolve_found actor role (resource_of id objects)
resolve_object actor role none object_id objects =
    some (record { actor = actor; role = role; object_id = object_id })

abbrev pub resolve_actor : Item → RoleDefinition → Option Resource → List Resource → Option Resolved
resolve_actor i role none objects = none
resolve_actor i role (some r) objects =
    resolve_object r.object_id role i.object_ansible_id i.object_id objects

abbrev pub resolve_role :
    Item → Text → Option RoleDefinition → (actors objects : List Resource) → Option Resolved
resolve_role i actor none actors objects = none
resolve_role i actor (some role) actors objects =
    resolve_actor i role (resource_of actor actors) objects

abbrev pub resolve_names :
    Item
    → Option Text
    → Option Text
    → List RoleDefinition
    → (actors objects : List Resource) → Option Resolved
resolve_names i none name roles actors objects = none
resolve_names i (some actor) none roles actors objects = none
resolve_names i (some actor) (some name) roles actors objects =
    resolve_role i actor (role_of name roles) actors objects

-- `_resolve_single_assignment`: none for an item that is skipped.
unfoldable pub resolve_single_assignment :
    Item → List RoleDefinition → (actors objects : List Resource) → Option Resolved
resolve_single_assignment i roles actors objects =
    resolve_names i i.actor_ansible_id i.role_definition roles actors objects

abbrev pub cons_some {ℓ} : {A : Type ℓ} → Option A → List A → List A
cons_some none rest = rest
cons_some (some a) rest = a ∷ rest

unfoldable pub resolve_all :
    List Item → List RoleDefinition → (actors objects : List Resource) → List Resolved
resolve_all [] roles actors objects = []
resolve_all (i ∷ items) roles actors objects =
    cons_some (resolve_single_assignment i roles actors objects)
      (resolve_all items roles actors objects)

-- The page's items, resolved with one query for each table.
unfoldable pub resolve_page : List Item → Database → List Resolved
resolve_page items db =
    let ids = collect_unique_ids items in
    resolve_all items (keep (λ r. is_member r.name ids.role_names) db.roles)
      (keep (λ r. is_member r.ansible_id ids.actor_ansible_ids) db.resources)
      (keep (λ r. is_member r.ansible_id ids.object_ansible_ids) db.resources)

abbrev pub is_global_object : Option Text → Bool
is_global_object none = true
is_global_object (some o) = false

abbrev pub is_global : Resolved → Bool
is_global r = is_global_object r.object_id

-- `rd.id`, `rd.content_type_id` and the object
abbrev pub object_role_of : Resolved → Option Text → Option ObjectRole
object_role_of r none = none
object_role_of r (some o) = some (record {
  role_definition_id = r.role.id;
  content_type_id = r.role.content_type_id;
  object_id = o;
})

-- The row that a resolved item stands for.
abbrev pub assignment_of : Kind → Resolved → Assignment
assignment_of kind r = record {
  kind = kind;
  actor = r.actor;
  role_definition_id = r.role.id;
  object_role = object_role_of r r.object_id;
}
