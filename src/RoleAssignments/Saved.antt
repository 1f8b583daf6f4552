-- ===== src/RoleAssignments/Saved.antt =====
-- What is saved by a run of the role assignment migration: the cursor, and the grants of a page.
use jewel.Prelude.{
  ℕ, ◌≡◌, refl, ◌∙◌, true, false, Text, text_eq, text_eq_refl, Option, none, some, List, [], ◌∷◌,
  map, any, inl, inr, Bool-cases, All, All-mono,
}
use jewel.RoleAssignments.{
  Kind, Item, RoleDefinition, Resource, Assignment, Database, Resolved, same_kind, same_assignment,
  assignment_of, cons_some, resolve_single_assignment, resolve_all,
}
use jewel.RoleAssignments.Create.{bulk_resolve_and_create_page, bulk_create_object_assignments}
use jewel.RoleAssignments.Cursor.{CursorRow, is_row, saved_pk, upsert}
use jewel.RoleAssignments.Rows.{
  and_true, or_true, same_kind_sound, same_kind_refl, same_assignment_refl,
}
use jewel.RoleAssignments.Grants.{granted, wanted, granted-bulk_resolve_and_create_page}

pub saved_pk-upsert :
    (slug : Text) (kind : Kind) (pk : ℕ) (cursors : List CursorRow)
    → saved_pk slug kind (upsert slug kind pk cursors) ≡ pk
unfolding saved_pk upsert
saved_pk-upsert slug kind pk [] = rw (text_eq_refl slug, same_kind_refl kind) refl
saved_pk-upsert slug kind pk (c ∷ cursors) = elim (Bool-cases (is_row slug kind c)) [
  | inl same ↦ rw (same, saved_pk, same) refl
  | inr other ↦ rw (other, saved_pk, other) (saved_pk-upsert slug kind pk cursors)
]

one_kind :
    (slug : Text) (kind k : Kind) (c : CursorRow)
    → same_kind kind k ≡ false
    → is_row slug kind c ≡ true
    → is_row slug k c ≡ false
one_kind slug kind k c other same =
    let (of_slug, of_kind) =
      and_true (text_eq c.service_slug slug) (same_kind c.assignment_type kind) same in
    rw (of_slug, same_kind_sound c.assignment_type kind of_kind) other

pub saved_pk-upsert_other :
    (slug : Text) (kind k : Kind) (pk : ℕ) (cursors : List CursorRow)
    → same_kind kind k ≡ false
    → saved_pk slug k (upsert slug kind pk cursors) ≡ saved_pk slug k cursors
unfolding saved_pk upsert
saved_pk-upsert_other slug kind k pk [] h = rw (text_eq_refl slug, h) refl
saved_pk-upsert_other slug kind k pk (c ∷ cursors) h = elim (Bool-cases (is_row slug kind c)) [
  | inl same ↦ let far = one_kind slug kind k c h same in rw (same, saved_pk, far) refl
  | inr other ↦ rw (other, saved_pk, saved_pk-upsert_other slug kind k pk cursors h) refl
]

-- What an item stands for, if it can be resolved, is granted.
abbrev pub IsGranted : Kind → Database → Item → Type 0
IsGranted kind db i =
    (r : Resolved)
    → resolve_single_assignment i db.roles db.resources db.resources ≡ some r
    → granted (assignment_of kind r) db.assignments ≡ true

-- The tables that items are resolved by are the same, and what was granted still is.
abbrev pub Grows : Database → Database → Type 0
Grows db db' =
    (db'.roles ≡ db.roles)
    × (db'.resources ≡ db.resources)
    × ((g : Assignment) → granted g db.assignments ≡ true → granted g db'.assignments ≡ true)

pub Grows-refl : (db : Database) → Grows db db
Grows-refl db = (refl, refl, (λ g h. h))

pub Grows-trans : (a b c : Database) → Grows a b → Grows b c → Grows a c
Grows-trans a b c h k = (k.0 ∙ h.0, k.1 ∙ h.1, (λ g there. k.2 g (h.2 g there)))

pub Grows-IsGranted :
    (kind : Kind) (db db' : Database)
    → Grows db db'
    → (i : Item) → IsGranted kind db i
    → IsGranted kind db' i
Grows-IsGranted kind db db' grows i h r e = grows.2 _ (h r (rw (grows.0, grows.1) at e))

pub page-Grows :
    (kind : Kind) (items : List Item) (db : Database)
    → Grows db (bulk_resolve_and_create_page kind items db).1
unfolding bulk_resolve_and_create_page bulk_create_object_assignments
page-Grows kind items db = (
  refl,
  refl,
  (λ g there.
      rw (granted-bulk_resolve_and_create_page kind items db g, there)
        (or_true (granted g (wanted kind items db)))),
)

module _ (kind : Kind) (roles : List RoleDefinition) (resources : List Resource) where
  abbrev Reaches : List Resolved → List Assignment → Type 0
  Reaches rs S =
      (g : Assignment) → granted g (map (assignment_of kind) rs) ≡ true → granted g S ≡ true

  Reaches-cons_some :
      (o : Option Resolved) (rs : List Resolved) (S : List Assignment)
      → Reaches (cons_some o rs) S
      → ((r : Resolved) → o ≡ some r → granted (assignment_of kind r) S ≡ true) × Reaches rs S
  unfolding any
  Reaches-cons_some none rs S h = ((λ r e. cc), h)
  Reaches-cons_some (some r) rs S h = (
    (λ r' e.
        let e' : r ≡ r' = cc in
        rw (← e')
          (h (assignment_of kind r) (rw (same_assignment_refl (assignment_of kind r)) refl))),
    (λ g there. h g (rw there (or_true (same_assignment g (assignment_of kind r))))),
  )

  resolve_all-Reaches :
      (items : List Item) (S : List Assignment)
      → Reaches (resolve_all items roles resources resources) S
      → All
          (λ i.
            (r : Resolved)
            → resolve_single_assignment i roles resources resources ≡ some r
            → granted (assignment_of kind r) S ≡ true)
          items
  unfolding resolve_all
  resolve_all-Reaches [] S h = tt
  resolve_all-Reaches (i ∷ items) S h =
      let (here, rest) =
        Reaches-cons_some (resolve_single_assignment i roles resources resources)
          (resolve_all items roles resources resources) S h in
      (here, resolve_all-Reaches items S rest)

-- After a page, what its items stand for is granted.
pub page-IsGranted :
    (kind : Kind) (items : List Item) (db : Database)
    → All (IsGranted kind (bulk_resolve_and_create_page kind items db).1) items
page-IsGranted kind items db =
    let db' = (bulk_resolve_and_create_page kind items db).1 in
    let grows = page-Grows kind items db in
    All-mono _ (IsGranted kind db') (λ i h r e. h r (rw (grows.0, grows.1) at e)) items
      (resolve_all-Reaches kind db.roles db.resources items db'.assignments
        (λ g there. rw (granted-bulk_resolve_and_create_page kind items db g, there) refl))
