-- ===== src/RoleAssignments/Migration.antt =====
-- `migrate_role_assignments` as a whole, run again until it completes.
use jewel.Prelude.{
  ℕ, ◌≤◌, ◌<◌, ◌≡◌, ◌⊎◌, inl, inr, ltb, Bool, true, false, Text, List, length, length-keep-le, All,
  UpTo, UpTo-past, All-mono, All-both, some, arith,
}
use jewel.RoleAssignments.{
  Kind, user, team, Item, Resolved, assignment_of, resolve_single_assignment,
  get_role_definitions_to_exclude,
}
use jewel.RoleAssignments.Grants.{granted}
use jewel.RoleAssignments.Cursor.{
  Env, Store, saved_pk, load, Paged, finished, failed, out_of_fuel, migrate_kind, Outcome,
  completed, aborted, endless, after_team, after_user, migrate_role_assignments,
}
use jewel.RoleAssignments.Saved.{IsGranted}
use jewel.RoleAssignments.Runs.{
  id_of, IsService, IsCovered, Settles, Granted-Grows, paginate_and_create-Settles, left,
}

abbrev pub store_of : Outcome → Store
store_of (completed rebuilt s) = s
store_of (aborted rebuilt s) = s
store_of (endless s) = s

module _ (slug service_type : Text) (listed : Kind → List Item) where
  abbrev pub exclude : List Text
  exclude = get_role_definitions_to_exclude service_type

  -- A change of the tables leaves an item that the cursor is past as it is: the item cannot be resolved,
  -- unless it was resolved in the same way before, and then what it was granted is still granted.
  abbrev pub StaysDone : Kind → Store → Store → Item → Type 0
  StaysDone kind s s' i =
      ltb (saved_pk slug kind s.cursors) (id_of i) ≡ false
      → (r : Resolved)
      → resolve_single_assignment i s'.db.roles s'.db.resources s'.db.resources ≡ some r
      → (resolve_single_assignment i s.db.roles s.db.resources s.db.resources ≡ some r)
        × (granted (assignment_of kind r) s.db.assignments ≡ true
            → granted (assignment_of kind r) s'.db.assignments ≡ true)

  -- The stores that runs lead to, from one with no cursor for the service. A run may stop at any
  -- page: a failure of the service, or no more fuel. A statement on the cursors may fail. Between two
  -- runs the tables may change, roles and resources too, but not so that an item that the cursor is
  -- past becomes resolvable, or loses its grant.
  pub data IsReached : Store → Type 1 where
    start : (s : Store) → ((kind : Kind) → saved_pk slug kind s.cursors ≡ 0) → IsReached s
    run :
        (s : Store)
        → IsReached s
        → (E : Env) (page_size fuel : ℕ) → IsService E exclude listed page_size
        → IsReached (store_of (migrate_role_assignments E fuel slug service_type s))
    changed :
        (s s' : Store)
        → IsReached s
        → s'.cursors ≡ s.cursors
        → ((kind : Kind) → All (StaysDone kind s s') (listed kind))
        → IsReached s'

  -- How a run ends: all items granted if it completes, and covered cursors in any case.
  abbrev pub IsMigrated : Type 0 → Outcome → Type 0
  IsMigrated Short (completed rebuilt s) =
      IsCovered slug listed s × ((kind : Kind) → All (IsGranted kind s.db) (listed kind))
  IsMigrated Short (aborted rebuilt s) = IsCovered slug listed s
  IsMigrated Short (endless s) = IsCovered slug listed s × Short

  -- Too little fuel for one of the lists.
  abbrev pub IsShort : ℕ → Kind → Type 0
  IsShort fuel kind = fuel ≤ length (listed kind)

  module _ (E : Env) (page_size fuel : ℕ) (S : IsService E exclude listed page_size) where
    load-UpTo :
        (kind : Kind) (s : Store)
        → IsCovered slug listed s
        → UpTo id_of (IsGranted kind s.db) (load (E.loads kind) slug kind s.cursors) (listed kind)
    load-UpTo kind s covered = go (E.loads kind)
      where
        go :
            (success : Bool)
            → UpTo id_of (IsGranted kind s.db) (load success slug kind s.cursors) (listed kind)
        go true = covered kind
        go false = UpTo-past id_of (IsGranted kind s.db) 0 (listed kind) (S.positive kind)

    kind-Settles :
        (kind : Kind) (s : Store)
        → IsCovered slug listed s
        → Settles slug listed kind
            (fuel
              ≤ left slug listed E exclude page_size S kind
                  (load (E.loads kind) slug kind s.cursors))
            s
            (migrate_kind E slug kind fuel exclude s)
    kind-Settles kind s covered =
        paginate_and_create-Settles slug listed E exclude page_size S kind fuel _ 0 s covered
          (load-UpTo kind s covered)

    abbrev Short : Type 0
    Short = IsShort fuel user ⊎ IsShort fuel team

    short :
        (kind : Kind) (last : ℕ)
        → fuel ≤ left slug listed E exclude page_size S kind last
        → IsShort fuel kind
    short kind last h = omega (arith, h, length-keep-le (λ i. ltb last (id_of i)) (listed kind))

    after_team-IsMigrated :
        (total last : ℕ) (s : Store) (r : Paged)
        → All (IsGranted user s.db) (listed user)
        → Settles slug listed team (fuel ≤ left slug listed E exclude page_size S team last) s r
        → IsMigrated Short (after_team total r)
    after_team-IsMigrated total last s (finished n t) users h = (
      h.0,
      (λ kind. elim kind as (λ kind. All (IsGranted kind t.db) (listed kind)) [
        | user ↦ Granted-Grows slug listed user s.db t.db h.1.0 users
        | team ↦ h.1.1
      ]),
    )
    after_team-IsMigrated total last s (failed t) users h = h.0
    after_team-IsMigrated total last s (out_of_fuel t) users h = (h.0, inr (short team last h.1.1))

    after_user-IsMigrated :
        (last : ℕ) (s : Store) (r : Paged)
        → Settles slug listed user (fuel ≤ left slug listed E exclude page_size S user last) s r
        → IsMigrated Short (after_user E fuel slug exclude r)
    after_user-IsMigrated last s (finished n t) h =
        after_team-IsMigrated n (load (E.loads team) slug team t.cursors) t
          (migrate_kind E slug team fuel exclude t) h.1.1 (kind-Settles team t h.0)
    after_user-IsMigrated last s (failed t) h = h.0
    after_user-IsMigrated last s (out_of_fuel t) h = (h.0, inl (short user last h.1.1))

    run-IsMigrated :
        (s : Store)
        → IsCovered slug listed s
        → IsMigrated Short (migrate_role_assignments E fuel slug service_type s)
    unfolding migrate_role_assignments
    run-IsMigrated s covered =
        after_user-IsMigrated (load (E.loads user) slug user s.cursors) s
          (migrate_kind E slug user fuel exclude s) (kind-Settles user s covered)

  store_of-IsCovered :
      (Ends : Type 0) (o : Outcome) → IsMigrated Ends o → IsCovered slug listed (store_of o)
  store_of-IsCovered Ends (completed rebuilt s) h = h.0
  store_of-IsCovered Ends (aborted rebuilt s) h = h
  store_of-IsCovered Ends (endless s) h = h.0

  start-UpTo :
      (kind : Kind) (s : Store)
      → All (λ i. 0 < id_of i) (listed kind)
      → saved_pk slug kind s.cursors ≡ 0
      → UpTo id_of (IsGranted kind s.db) (saved_pk slug kind s.cursors) (listed kind)
  start-UpTo kind s positive e =
      rw e (UpTo-past id_of (IsGranted kind s.db) 0 (listed kind) positive)

  changed-UpTo :
      (kind : Kind) (s s' : Store)
      → s'.cursors ≡ s.cursors
      → All (StaysDone kind s s') (listed kind)
      → UpTo id_of (IsGranted kind s.db) (saved_pk slug kind s.cursors) (listed kind)
      → UpTo id_of (IsGranted kind s'.db) (saved_pk slug kind s'.cursors) (listed kind)
  changed-UpTo kind s s' same stays covered = rw same (
      All-mono _ _
        (λ i h below r e. let (before, keeps) = h.0 below r e in keeps (h.1 below r before))
        (listed kind) (All-both _ _ (listed kind) stays covered))

  -- However often the migration has been run, and wherever its runs stopped, each item of the lists
  -- up to the saved cursor is granted, if it can be resolved. The tables may change between the runs,
  -- but not so that an item that the cursor is past becomes resolvable or loses its grant.
  pub IsReached-IsCovered :
      (s : Store)
      → ((kind : Kind) → All (λ i. 0 < id_of i) (listed kind))
      → IsReached s
      → IsCovered slug listed s
  IsReached-IsCovered _ positive (start s e) = λ kind. start-UpTo kind s (positive kind) (e kind)
  IsReached-IsCovered _ positive (run s before E page_size fuel S) =
      store_of-IsCovered _ _
        (run-IsMigrated E page_size fuel S s (IsReached-IsCovered s positive before))
  IsReached-IsCovered _ positive (changed s s' before same stays) =
      λ kind. changed-UpTo kind s s' same (stays kind) (IsReached-IsCovered s positive before kind)

  IsMigrated-mono : (P Q : Type 0) (o : Outcome) → (P → Q) → IsMigrated P o → IsMigrated Q o
  IsMigrated-mono P Q (completed rebuilt s) f h = h
  IsMigrated-mono P Q (aborted rebuilt s) f h = h
  IsMigrated-mono P Q (endless s) f h = (h.0, f h.1)

  -- With more fuel than each of the lists has items, a run against a service that lists its items by
  -- increasing positive ids and answers each query by a page or by a failure ends. If it completes,
  -- each item of the two lists that can be resolved is granted, and if it fails, the items up to the
  -- saved cursor are; also after any runs before. Between the runs the tables may change, but not so
  -- that an item that the cursor is past becomes resolvable or loses its grant.
  pub migrate_role_assignments-IsMigrated :
      (s : Store) (E : Env) (page_size fuel : ℕ)
      → IsReached s
      → IsService E exclude listed page_size
      → ((kind : Kind) → length (listed kind) < fuel)
      → IsMigrated ⊥ (migrate_role_assignments E fuel slug service_type s)
  migrate_role_assignments-IsMigrated s E page_size fuel reached S enough =
      IsMigrated-mono (Short E page_size fuel S) ⊥
        (migrate_role_assignments E fuel slug service_type s)
        (λ short. elim short [
          | inl few ↦ omega (arith, few, enough user)
          | inr few ↦ omega (arith, few, enough team)
        ])
        (run-IsMigrated E page_size fuel S s (IsReached-IsCovered s S.positive reached))
