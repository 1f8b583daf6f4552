-- ===== src/RoleAssignments/Cursor.antt =====
-- aap_gateway_api/management/commands/_migrate_service_data/role_assignments.py and cursor_store.py:
-- the loop over a service's pages of role assignments, and the cursor that it saves. The service is
-- a function of the query, and whether a statement on the cursor table succeeds is a function too.
use jewel.Prelude.{
  ℕ, zero, suc, Bool, false, not, ◌&&◌, Text, text_eq, Option, none, some, List, [], ◌∷◌, ◌==◌, ◌+◌,
  if◌then◌else◌,
}
use jewel.RoleAssignments.{
  Kind, user, team, Item, Database, same_kind, get_role_definitions_to_exclude,
}
use jewel.RoleAssignments.Create.{bulk_resolve_and_create_page}

-- A row of the table `migrate_service_data_role_cursor`
pub record CursorRow : Type 0 where
  pub service_slug : Text
  pub assignment_type : Kind
  pub last_pk : ℕ

-- An answer to a request for a page: its status and results, or an exception of the client.
pub data Reply : Type 0 where
  replied : ℕ → List Item → Reply
  raised : Reply

-- `list_user_assignments` and `list_team_assignments` by the names of `not__role_definition__name__in`
-- and by `id__gt`, and the success of the statements that load and save the cursor.
pub record Env : Type 0 where
  pub fetch : Kind → List Text → ℕ → Reply
  pub loads : Kind → Bool
  pub saves : Kind → ℕ → Bool

pub record Store : Type 0 where
  pub db : Database
  pub cursors : List CursorRow

abbrev pub is_row : Text → Kind → CursorRow → Bool
is_row slug kind c = text_eq c.service_slug slug && same_kind c.assignment_type kind

-- `_SQL_LOAD`, and 0 if there is no row
unfoldable pub saved_pk : Text → Kind → List CursorRow → ℕ
saved_pk slug kind [] = 0
saved_pk slug kind (c ∷ cursors) =
    if is_row slug kind c then c.last_pk else saved_pk slug kind cursors

-- `CursorStore._load`
abbrev pub load : Bool → Text → Kind → List CursorRow → ℕ
load success slug kind cursors = if success then saved_pk slug kind cursors else 0

-- `_SQL_UPSERT`
unfoldable pub upsert : Text → Kind → ℕ → List CursorRow → List CursorRow
upsert slug kind pk [] = record { service_slug = slug; assignment_type = kind; last_pk = pk } ∷ []
upsert slug kind pk (c ∷ cursors) =
    if is_row slug kind c
    then record c { last_pk = pk } ∷ cursors
    else c ∷ upsert slug kind pk cursors

-- `CursorStore.advance`
abbrev pub advance : Bool → Text → Kind → ℕ → List CursorRow → List CursorRow
advance success slug kind pk cursors = if success then upsert slug kind pk cursors else cursors

-- How `_paginate_and_create` ends: with the number created, or with an exception.
pub data Paged : Type 0 where
  finished : (created : ℕ) → Store → Paged
  failed : Store → Paged
  out_of_fuel : Store → Paged

-- `results[-1].get('id')`
unfoldable pub last_id : Item → List Item → Option ℕ
last_id i [] = i.id
last_id i (j ∷ items) = last_id j items

module _ (E : Env) (slug : Text) (kind : Kind) where
  abbrev pub next_page : Option ℕ → (created : ℕ) → Store → (ℕ → ℕ → Store → Paged) → Paged
  next_page none created s continue = failed s
  next_page (some pk) created s continue =
      continue pk created (record s { cursors = advance (E.saves kind pk) slug kind pk s.cursors })

  abbrev pub page_or_end : List Item → (created : ℕ) → Store → (ℕ → ℕ → Store → Paged) → Paged
  page_or_end [] created s continue = finished created s
  page_or_end (i ∷ items) created s continue =
      let (n, db) = bulk_resolve_and_create_page kind (i ∷ items) s.db in
      next_page (last_id i items) (created + n) (record s { db = db }) continue

  abbrev pub on_reply : Reply → (created : ℕ) → Store → (ℕ → ℕ → Store → Paged) → Paged
  on_reply raised created s continue = failed s
  on_reply (replied status items) created s continue =
      if status == 200 then page_or_end items created s continue else failed s

  -- The `while True` of `_paginate_and_create`, on fuel.
  unfoldable pub paginate_and_create : (fuel : ℕ) → List Text → (last created : ℕ) → Store → Paged
  paginate_and_create zero exclude last created s = out_of_fuel s
  paginate_and_create (suc fuel) exclude last created s =
      on_reply (E.fetch kind exclude last) created s (paginate_and_create fuel exclude)

  -- One round of the `for` of `migrate_role_assignments`.
  abbrev pub migrate_kind : (fuel : ℕ) → List Text → Store → Paged
  migrate_kind fuel exclude s =
      paginate_and_create fuel exclude (load (E.loads kind) slug kind s.cursors) 0 s

-- How `migrate_role_assignments` ends, and whether its `finally` has rebuilt the RBAC cache.
pub data Outcome : Type 0 where
  completed : (rebuilt : Bool) → Store → Outcome
  aborted : (rebuilt : Bool) → Store → Outcome
  endless : Store → Outcome

abbrev pub is_nonzero : ℕ → Bool
is_nonzero n = not (n == 0)

abbrev pub after_team : (total_created : ℕ) → Paged → Outcome
after_team total (finished n s) = completed (is_nonzero (total + n)) s
after_team total (failed s) = aborted (is_nonzero total) s
after_team total (out_of_fuel s) = endless s

abbrev pub after_user : Env → (fuel : ℕ) → Text → List Text → Paged → Outcome
after_user E fuel slug exclude (finished n s) =
    after_team n (migrate_kind E slug team fuel exclude s)
after_user E fuel slug exclude (failed s) = aborted false s
after_user E fuel slug exclude (out_of_fuel s) = endless s

unfoldable pub migrate_role_assignments :
    Env → (fuel : ℕ) → (service_slug service_type_name : Text) → Store → Outcome
migrate_role_assignments E fuel slug service_type s =
    let exclude = get_role_definitions_to_exclude service_type in
    after_user E fuel slug exclude (migrate_kind E slug user fuel exclude s)
