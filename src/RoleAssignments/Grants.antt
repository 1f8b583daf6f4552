-- ===== src/RoleAssignments/Grants.antt =====
-- Bulk creation as insertion into the set of granted roles.
use jewel.Prelude.{
  All-keep, ◌≡◌, refl, Bool, true, false, not, ◌&&◌, ◌||◌, Text, All-mono, Option, none, some, List,
  [], ◌∷◌, map, keep, any, ◌==◌, arith, All,
}
use jewel.RoleAssignments.{
  Kind, Item, ObjectRole, Assignment, Database, Resolved, same_kind, same_object_role, same_object,
  same_assignment, is_global, is_global_object, object_role_of, assignment_of, cons_some,
  resolve_all, resolve_page,
}
use jewel.RoleAssignments.Create.{
  in_conflict, bulk_create, bulk_create_object_roles, existing_global,
  bulk_create_global_assignments, object_role_keys, unique_object_roles, has_object_role,
  bulk_create_object_assignments, create_both, bulk_resolve_and_create_page,
}
use jewel.RoleAssignments.Lookups.{resolve_page-whole}
use jewel.RoleAssignments.Rows.{
  same_assignment_sound, same_object_role_sound, same_object_role_refl, and_true, or_true, or_swap,
  keep-All, any_mono, has-insert_new, has-keep, has-split,
}

object_role_of-global :
    (r : Resolved) (o : Option Text) → is_global_object o ≡ true → object_role_of r o ≡ none
object_role_of-global r none h = refl
object_role_of-global r (some o) h = cc

-- A global assignment that is not created is one of the existing rows.
matched :
    (kind : Kind) (r : Resolved) (a : Assignment) (rest : Bool)
    → is_global r ≡ true
    → (same_kind kind a.kind && (same_object none a.object_role && rest)) ≡ true
    → (r.actor == a.actor && r.role.id == a.role_definition_id) ≡ true
    → same_assignment (assignment_of kind r) a ≡ true
unfolding same_assignment
matched kind r a rest glob h k =
    let (of_kind, h') = and_true (same_kind kind a.kind) _ h in
    let (of_none, h'') = and_true (same_object none a.object_role) rest h' in
    let (of_actor, of_role) = and_true (r.actor == a.actor) (r.role.id == a.role_definition_id) k in
    rw (object_role_of-global r r.object_id glob, of_kind, of_none, of_actor, of_role) refl

flip_false : (b : Bool) → not b ≡ false → b ≡ true
flip_false b h = ground arith

in_conflict-any :
    (o : Option ObjectRole) (a : Assignment) (rows : List Assignment)
    → in_conflict o a rows ≡ true
    → any (same_assignment a) rows ≡ true
in_conflict-any none a rows h = cc
in_conflict-any (some o) a rows h = h

abbrev pub granted : Assignment → List Assignment → Bool
granted g rows = any (same_assignment g) rows

granted-bulk_create :
    (g : Assignment) (new rows : List Assignment)
    → granted g (bulk_create new rows) ≡ granted g new || granted g rows
granted-bulk_create =
    has-insert_new same_assignment same_assignment_sound (λ a. in_conflict a.object_role a)
      (λ a. in_conflict-any a.object_role a)

keys_step :
    (r : Resolved) (o : Option Text) (keys S : List ObjectRole)
    → not (is_global_object o) ≡ true
    → ((k : ObjectRole)
        → any (same_object_role k) (cons_some (object_role_of r o) keys) ≡ true
        → any (same_object_role k) S ≡ true)
    → (has_object_role S (object_role_of r o) ≡ true)
      × ((k : ObjectRole)
          → any (same_object_role k) keys ≡ true
          → any (same_object_role k) S ≡ true)
unfolding any
keys_step r none keys S object h = cc
keys_step r (some o) keys S object h =
    let key : ObjectRole = record {
      role_definition_id = r.role.id;
      content_type_id = r.role.content_type_id;
      object_id = o;
    } in
    (
      h key (rw (same_object_role_refl key) refl),
      (λ k there. h k (rw there (or_true (same_object_role k key)))),
    )

created_roles :
    (S : List ObjectRole) (rs : List Resolved)
    → All (λ r. not (is_global r) ≡ true) rs
    → ((k : ObjectRole)
        → any (same_object_role k) (object_role_keys rs) ≡ true
        → any (same_object_role k) S ≡ true)
    → All (λ r. has_object_role S (object_role_of r r.object_id) ≡ true) rs
unfolding object_role_keys
created_roles S [] objects h = tt
created_roles S (r ∷ rs) objects h =
    let (there, rest) = keys_step r r.object_id (object_role_keys rs) S objects.0 h in
    (there, created_roles S rs objects.1 rest)

bulk_create-object_role :
    (rs : List Resolved) (rows : List ObjectRole) (k : ObjectRole)
    → any (same_object_role k) (object_role_keys rs) ≡ true
    → any (same_object_role k) (bulk_create_object_roles (unique_object_roles rs) rows) ≡ true
bulk_create-object_role rs rows k h =
    let inserted =
      has-insert_new same_object_role same_object_role_sound (λ o. any (same_object_role o))
        (λ o rows there. there) k in
    rw (inserted (unique_object_roles rs) rows, inserted (object_role_keys rs) [], h) refl

module _ (kind : Kind) (g : Assignment) where
  existing_granted :
      (rs : List Resolved) (rows : List Assignment) (r : Resolved)
      → is_global r ≡ true
      → not (
          any
            (λ a. r.actor == a.actor && r.role.id == a.role_definition_id)
            (existing_global kind rs rows))
        ≡ false
      → granted (assignment_of kind r) rows ≡ true
  unfolding existing_global
  existing_granted rs rows r glob h =
      any_mono _ _ (same_assignment (assignment_of kind r))
        (λ a of_none same. matched kind r a _ glob of_none same) rows (flip_false _ h)

  granted-global :
      (rs : List Resolved) (rows : List Assignment)
      → All (λ r. is_global r ≡ true) rs
      → granted g (bulk_create_global_assignments kind rs rows).1
        ≡ granted g (map (assignment_of kind) rs) || granted g rows
  unfolding bulk_create_global_assignments
  granted-global rs rows glob = rw (granted-bulk_create g _ rows) (
      has-keep same_assignment same_assignment_sound (assignment_of kind) _ g rs rows
        (All-mono _ _ (existing_granted rs rows) rs glob))

  granted-object :
      (rs : List Resolved) (db : Database)
      → All (λ r. not (is_global r) ≡ true) rs
      → granted g (bulk_create_object_assignments kind rs db).1.assignments
        ≡ granted g (map (assignment_of kind) rs) || granted g db.assignments
  unfolding bulk_create_object_assignments
  granted-object rs db objects =
      let S = bulk_create_object_roles (unique_object_roles rs) db.object_roles in
      rw (keep-All _ rs (created_roles S rs objects (bulk_create-object_role rs db.object_roles)))
        (granted-bulk_create g (map (assignment_of kind) rs) db.assignments)

  granted-create_both :
      (rs : List Resolved) (db : Database)
      → granted g (create_both kind rs db).1.assignments
        ≡ granted g (map (assignment_of kind) rs) || granted g db.assignments
  granted-create_both rs db =
      let globs = keep is_global rs in
      let objects = keep (λ r. not (is_global r)) rs in
      rw
        (
          granted-object objects _ (All-keep (λ r. not (is_global r)) rs),
          granted-global globs db.assignments (All-keep is_global rs),
        )
        rw (← has-split same_assignment same_assignment_sound (assignment_of kind) is_global g rs)
        (or_swap (granted g (map (assignment_of kind) objects))
          (granted g (map (assignment_of kind) globs)) (granted g db.assignments))

-- What a page is to grant: the resolution of each of its items by the whole tables.
abbrev pub wanted : Kind → List Item → Database → List Assignment
wanted kind items db =
    map (assignment_of kind) (resolve_all items db.roles db.resources db.resources)

-- After a page the table grants what it granted before and what the page's items stand for when they
-- are looked up in the whole tables, each item by itself, and nothing else.
pub granted-bulk_resolve_and_create_page :
    (kind : Kind) (items : List Item) (db : Database) (g : Assignment)
    → granted g (bulk_resolve_and_create_page kind items db).1.assignments
      ≡ granted g (wanted kind items db) || granted g db.assignments
unfolding bulk_resolve_and_create_page
granted-bulk_resolve_and_create_page kind items db g =
    rw (granted-create_both kind g (resolve_page items db) db, resolve_page-whole items db) refl
