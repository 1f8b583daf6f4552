-- ===== src/RoleAssignments/Lookups.antt =====
-- The lookups of a page answer like the whole tables.
use jewel.Prelude.{
  ℕ, ◌≡◌, refl, true, Text, text_eq, text_eq_iff, text_eq_refl, is_member, is_member-add_member,
  Option, none, some, List, [], ◌∷◌, keep, inl, inr, Bool-cases,
}
use jewel.RoleAssignments.{
  Item, RoleDefinition, Resource, Database, add_some, collect_unique_ids, role_of, resource_of,
  resolve_object, resolve_actor, resolve_role, resolve_names, resolve_single_assignment,
  resolve_all, resolve_page,
}
use jewel.RoleAssignments.Rows.{or_true}

role_of-keep :
    (name : Text) (names : List Text) (roles : List RoleDefinition)
    → is_member name names ≡ true
    → role_of name (keep (λ r. is_member r.name names) roles) ≡ role_of name roles
unfolding role_of keep
role_of-keep name names [] h = refl
role_of-keep name names (r ∷ roles) h =
    let ih = role_of-keep name names roles h in
    elim (Bool-cases (text_eq r.name name)) [
      | inl same ↦
          let e = (text_eq_iff r.name name).0 same in
          let there : is_member r.name names ≡ true = rw e h in rw (there, same) refl
      | inr other ↦ elim (Bool-cases (is_member r.name names)) [
        | inl there ↦ rw (there, other) ih
        | inr gone ↦ rw (gone, other) ih
      ]
    ]

resource_of-keep :
    (id : Text) (ids : List Text) (resources : List Resource)
    → is_member id ids ≡ true
    → resource_of id (keep (λ r. is_member r.ansible_id ids) resources) ≡ resource_of id resources
unfolding resource_of keep
resource_of-keep id ids [] h = refl
resource_of-keep id ids (r ∷ resources) h =
    let ih = resource_of-keep id ids resources h in
    elim (Bool-cases (text_eq r.ansible_id id)) [
      | inl same ↦
          let e = (text_eq_iff r.ansible_id id).0 same in
          let there : is_member r.ansible_id ids ≡ true = rw e h in rw (there, same) refl
      | inr other ↦ elim (Bool-cases (is_member r.ansible_id ids)) [
        | inl there ↦ rw (there, other) ih
        | inr gone ↦ rw (gone, other) ih
      ]
    ]

-- A value that is present is among the collected ones.
abbrev Has : List Text → Option Text → Type 0
Has us none = Unit
Has us (some u) = is_member u us ≡ true

module _ (names actor_ids object_ids : List Text) (db : Database) where
  abbrev roles : List RoleDefinition
  roles = keep (λ r. is_member r.name names) db.roles

  abbrev actors : List Resource
  actors = keep (λ r. is_member r.ansible_id actor_ids) db.resources

  abbrev objects : List Resource
  objects = keep (λ r. is_member r.ansible_id object_ids) db.resources

  object_whole :
      (actor : ℕ) (role : RoleDefinition) (o id : Option Text)
      → Has object_ids o
      → resolve_object actor role o id objects ≡ resolve_object actor role o id db.resources
  object_whole actor role none id h = refl
  object_whole actor role (some o) id h = rw (resource_of-keep o object_ids db.resources h) refl

  actor_whole :
      (i : Item) (role : RoleDefinition) (r : Option Resource)
      → Has object_ids i.object_ansible_id
      → resolve_actor i role r objects ≡ resolve_actor i role r db.resources
  actor_whole i role none h = refl
  actor_whole i role (some r) h = object_whole r.object_id role i.object_ansible_id i.object_id h

  role_whole :
      (i : Item) (actor : Text) (role : Option RoleDefinition)
      → is_member actor actor_ids ≡ true
      → Has object_ids i.object_ansible_id
      → resolve_role i actor role actors objects
        ≡ resolve_role i actor role db.resources db.resources
  role_whole i actor none a h = refl
  role_whole i actor (some role) a h =
      rw (resource_of-keep actor actor_ids db.resources a)
        (actor_whole i role (resource_of actor db.resources) h)

  names_whole :
      (i : Item) (actor name : Option Text)
      → Has names name
      → Has actor_ids actor
      → Has object_ids i.object_ansible_id
      → resolve_names i actor name roles actors objects
        ≡ resolve_names i actor name db.roles db.resources db.resources
  names_whole i none name n a h = refl
  names_whole i (some actor) none n a h = refl
  names_whole i (some actor) (some name) n a h =
      rw (role_of-keep name names db.roles n) (role_whole i actor (role_of name db.roles) a h)

-- What is in a collected set is in a set above it.
abbrev Below : List Text → List Text → Type 0
Below us vs = (u : Text) → is_member u us ≡ true → is_member u vs ≡ true

add_some-Below :
    (o : Option Text) (us vs : List Text) → Below (add_some o us) vs → Has vs o × Below us vs
add_some-Below none us vs h = (tt, h)
add_some-Below (some v) us vs h = (
  h v (rw (is_member-add_member v v us, text_eq_refl v) refl),
  (λ u there. h u (rw (is_member-add_member u v us, there) (or_true (text_eq v u)))),
)

module _ (names actor_ids object_ids : List Text) (db : Database) where
  resolve_all-whole :
      (items : List Item)
      → Below (collect_unique_ids items).role_names names
      → Below (collect_unique_ids items).actor_ansible_ids actor_ids
      → Below (collect_unique_ids items).object_ansible_ids object_ids
      → resolve_all items
          (roles names actor_ids object_ids db)
          (actors names actor_ids object_ids db)
          (objects names actor_ids object_ids db)
        ≡ resolve_all items db.roles db.resources db.resources
  unfolding resolve_all collect_unique_ids resolve_single_assignment
  resolve_all-whole [] n a o = refl
  resolve_all-whole (i ∷ items) n a o =
      let ids = collect_unique_ids items in
      let (n0, n1) = add_some-Below i.role_definition ids.role_names names n in
      let (a0, a1) = add_some-Below i.actor_ansible_id ids.actor_ansible_ids actor_ids a in
      let (o0, o1) = add_some-Below i.object_ansible_id ids.object_ansible_ids object_ids o in
      rw
        (
          names_whole names actor_ids object_ids db i i.actor_ansible_id i.role_definition n0 a0 o0,
          resolve_all-whole items n1 a1 o1,
        )
        refl

pub resolve_page-whole :
    (items : List Item) (db : Database)
    → resolve_page items db ≡ resolve_all items db.roles db.resources db.resources
unfolding resolve_page
resolve_page-whole items db =
    let ids = collect_unique_ids items in
    resolve_all-whole ids.role_names ids.actor_ansible_ids ids.object_ansible_ids db items
      (λ u h. h) (λ u h. h) (λ u h. h)
