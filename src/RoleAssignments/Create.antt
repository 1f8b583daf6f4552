-- ===== src/RoleAssignments/Create.antt =====
-- aap_gateway_api/management/commands/_migrate_service_data/role_assignments.py: the rows that a page
-- of resolved assignments creates.
use jewel.Prelude.{
  ℕ, Bool, false, not, ◌&&◌, Option, none, some, List, [], ◌∷◌, map, keep, any, length, ◌==◌, ◌+◌,
  if◌then◌else◌,
}
use jewel.RoleAssignments.{
  Kind, Item, ObjectRole, Assignment, Database, Resolved, same_kind, same_object_role, same_object,
  same_assignment, is_global, object_role_of, assignment_of, cons_some, resolve_page,
}

-- `bulk_create(…, ignore_conflicts=True)`: actor and object role are unique together, and NULL is
-- never in conflict.
abbrev pub in_conflict : Option ObjectRole → Assignment → List Assignment → Bool
in_conflict none a rows = false
in_conflict (some o) a rows = any (same_assignment a) rows

-- The rows that a conflict does not keep out, one after the other.
unfoldable pub insert_new {ℓ} : {A : Type ℓ} → (A → List A → Bool) → List A → List A → List A
insert_new conflict [] rows = rows
insert_new conflict (a ∷ new) rows =
    insert_new conflict new (if conflict a rows then rows else a ∷ rows)

abbrev pub bulk_create : List Assignment → List Assignment → List Assignment
bulk_create = insert_new (λ a. in_conflict a.object_role a)

abbrev pub bulk_create_object_roles : List ObjectRole → List ObjectRole → List ObjectRole
bulk_create_object_roles = insert_new (λ o. any (same_object_role o))

-- A global assignment of the desired ones that is in the table.
unfoldable pub existing_global : Kind → List Resolved → List Assignment → List Assignment
existing_global kind desired = keep (λ a.
    same_kind kind a.kind
    && (same_object none a.object_role
        && (any (λ r. r.actor == a.actor) desired
            && any (λ r. r.role.id == a.role_definition_id) desired)))

-- `_bulk_create_global_assignments`: the rows, and the number of objects given to `bulk_create`.
unfoldable pub bulk_create_global_assignments :
    Kind → List Resolved → List Assignment → ℕ × List Assignment
bulk_create_global_assignments kind desired rows =
    let existing = existing_global kind desired rows in
    let new =
      keep (λ r. not (any (λ a. r.actor == a.actor && r.role.id == a.role_definition_id) existing))
        desired in
    (length new, bulk_create (map (assignment_of kind) new) rows)

-- The key of each object assignment of the page.
unfoldable pub object_role_keys : List Resolved → List ObjectRole
object_role_keys [] = []
object_role_keys (r ∷ rs) = cons_some (object_role_of r r.object_id) (object_role_keys rs)

-- The set `unique_or_keys`
abbrev pub unique_object_roles : List Resolved → List ObjectRole
unique_object_roles rs = insert_new (λ o. any (same_object_role o)) (object_role_keys rs) []

-- An assignment whose object role is not in the table after the creation is left out.
abbrev pub has_object_role : List ObjectRole → Option ObjectRole → Bool
has_object_role rows none = false
has_object_role rows (some o) = any (same_object_role o) rows

-- `_bulk_create_object_assignments`: the number of objects given to `bulk_create`, and the tables.
unfoldable pub bulk_create_object_assignments : Kind → List Resolved → Database → ℕ × Database
bulk_create_object_assignments kind rs db =
    let object_roles = bulk_create_object_roles (unique_object_roles rs) db.object_roles in
    let new = keep (λ r. has_object_role object_roles (object_role_of r r.object_id)) rs in
    (
      length new,
      record db {
        object_roles = object_roles;
        assignments = bulk_create (map (assignment_of kind) new) db.assignments;
      },
    )

-- Globals first, then the others. With an empty list neither part does anything.
abbrev pub create_both : Kind → List Resolved → Database → ℕ × Database
create_both kind rs db =
    let (n, rows) = bulk_create_global_assignments kind (keep is_global rs) db.assignments in
    let (m, db') =
      bulk_create_object_assignments kind (keep (λ r. not (is_global r)) rs)
        (record db { assignments = rows }) in
    (n + m, db')

-- `_bulk_resolve_and_create_page`: the number created, and the tables.
unfoldable pub bulk_resolve_and_create_page : Kind → List Item → Database → ℕ × Database
bulk_resolve_and_create_page kind items db = create_both kind (resolve_page items db) db
