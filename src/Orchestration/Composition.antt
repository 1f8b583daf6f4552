-- ===== src/Orchestration/Composition.antt =====
-- What the command leaves of the users when its parts are put together.
use jewel.Prelude.{
  ◌≡◌, refl, sym, inl, inr, Bool, true, false, ◌&&◌, Text, text, ap, text_eq, text_eq_iff,
  is_member, Option, none, some, List, [], ◌∷◌, map, keep, All, All-append, All-mono, All-keep,
  if◌then◌else◌,
}
use mathlib.Core.Path.{subst}
use jewel.Orchestration.{ServiceApi, Metadata, Settings, get_service_type_name}
use jewel.Orchestration.Services.{
  in_order, handle, and_then, unless_synced, is_service_already_synced, migrate_resources,
  migrate_known, migrate_described, migrate_single_service,
}
use jewel.Orchestration.Completion.{AreMigrated, handle-IsComplete}
use jewel.UserMerge.{Tables}
use jewel.UserMerge.Groups.{service_type_order, Merged}
use jewel.UserMerge.Merges.{IsDone}
use jewel.UserMerge.Whole.{IsOwn, merge_partially_migrated_users-IsOwn}
use jewel.RoleAssignments.Cursor.{Store, Outcome, completed, aborted, endless}
use jewel.ResourceMigration.Page.{World, Migration, finished, failed, stalled, out_of_fuel}
use jewel.ResourceMigration.Kept.{Ends, migrate_loop-keeps}
use jewel.Orchestration.Parts.{
  Parts, State, merged_api, with_merged, with_migration, with_outcome, migrate_resources_of,
  merge_users, migrate_assignments, whole_phases,
}

module _ (Q : Parts) where
  abbrev pub IsOrdered : Text → Type 0
  IsOrdered t = is_member t service_type_order ≡ true

  typed-All :
      (t : Text) (apis : List ServiceApi)
      → IsOrdered t
      → All (λ api. IsOrdered api.service_type) (keep (λ api. text_eq api.service_type t) apis)
  typed-All t apis h =
      All-mono _ _ (λ api e. subst IsOrdered (sym ((text_eq_iff api.service_type t).0 e)) h)
        (keep (λ api. text_eq api.service_type t) apis)
        (All-keep (λ api. text_eq api.service_type t) apis)

  in_order-All :
      (C : Settings) (types : List Text) (apis : List ServiceApi)
      → All IsOrdered types
      → All (λ api. IsOrdered api.service_type) (in_order (whole_phases Q) C types apis)
  unfolding in_order
  in_order-All C [] apis h = tt
  in_order-All C (t ∷ types) apis h =
      All-append _ (keep (λ api. text_eq api.service_type t) apis)
        (in_order (whole_phases Q) C types apis) (typed-All t apis h.0)
        (in_order-All C types apis h.1)

  order-All : All IsOrdered service_type_order
  unfolding is_member text text_eq
  order-All = (refl, (refl, (refl, (refl, tt))))

  -- Every user of the gateway is its own.
  abbrev pub Own : State Q → Type 0
  Own s = IsOwn Q.merging (Q.tables s)

  -- The phase leaves no user of another service, if there was none.
  abbrev pub KeepsOwn : (State Q → Bool × State Q) → Type 0
  KeepsOwn f = (s : State Q) → Own s → Own (f s).1

  -- What the parts are taken to do to the users' table. The merge writes its own tables, and role
  -- assignments and the ids of service clusters stand in others. The migration of a type of resources
  -- sees the users' table as it is; `Resource.create_resource`, which is not given a service, makes a
  -- resource of the gateway's; and a save of a user, by this migration or by the pass over superusers,
  -- leaves the service of its resource.
  pub record IsLawful : Type 1 where
    pub merged :
        (t : Tables) (w : Q.merging.Services) (s : State Q) → Q.tables (Q.write_merged t w s) ≡ t
    pub stored : (st : Store) (s : State Q) → Q.tables (Q.write_store st s) ≡ Q.tables s
    pub identified : (api : ServiceApi) (id : Text) → KeepsOwn (Q.rest.save_service_id api id)
    pub gateway_tables :
        (api : ServiceApi) (type : Text) → (Q.resources api type).gateway.State → Tables
    pub world :
        (api : ServiceApi) (type : Text) (s : State Q)
        → gateway_tables api type (Q.world api type s).gateway_state ≡ Q.tables s
    pub write_world :
        (api : ServiceApi) (type : Text) (w : World (Q.resources api type) (Q.is_user type))
        (s : State Q)
        → Q.tables (Q.write_world api type w s) ≡ gateway_tables api type w.gateway_state
    pub creates :
        (api : ServiceApi) (type : Text) (g g' : (Q.resources api type).gateway.State)
        (d : (Q.resources api type).gateway.Data) (id : Text)
        → (Q.resources api type).create_resource g d id ≡ some g'
        → IsOwn Q.merging (gateway_tables api type g)
        → IsOwn Q.merging (gateway_tables api type g')
    pub promotes :
        (api : ServiceApi) (type : Text) (g : (Q.resources api type).gateway.State) (u : Text)
        → IsOwn Q.merging (gateway_tables api type g)
        → IsOwn Q.merging (gateway_tables api type ((Q.resources api type).gateway.promote g u))
    pub checks : (apis : List ServiceApi) → KeepsOwn (Q.rest.ensure_superuser_consistency apis)

  module _ (C : Settings) (L : IsLawful) where
    and_then-KeepsOwn :
        (r : Bool × State Q) (next : State Q → Bool × State Q)
        → Own r.1
        → KeepsOwn next
        → Own (and_then (whole_phases Q) C r next).1
    and_then-KeepsOwn (false, s) next own h = own
    and_then-KeepsOwn (true, s) next own h = h s own

    store-KeepsOwn : (st : Store) (s : State Q) → Own s → Own (Q.write_store st s)
    store-KeepsOwn st s own = subst (IsOwn Q.merging) (sym (L.stored st s)) own

    with_outcome-KeepsOwn : (s : State Q) (o : Outcome) → Own s → Own (with_outcome Q s o).1
    with_outcome-KeepsOwn s (completed rebuilt store) own = store-KeepsOwn store s own
    with_outcome-KeepsOwn s (aborted rebuilt store) own = store-KeepsOwn store s own
    with_outcome-KeepsOwn s (endless store) own = store-KeepsOwn store s own

    assignments-KeepsOwn :
        (api : ServiceApi) (name : Text) → KeepsOwn (migrate_assignments Q api name)
    unfolding migrate_assignments
    assignments-KeepsOwn api name s own = with_outcome-KeepsOwn s _ own

    abbrev OwnIn : (api : ServiceApi) (type : Text) → (Q.resources api type).gateway.State → Type 0
    OwnIn api type g = IsOwn Q.merging (L.gateway_tables api type g)

    with_migration-KeepsOwn :
        (api : ServiceApi) (type : Text) (s : State Q)
        (m : Migration (Q.resources api type) (Q.is_user type))
        → Own s
        → Ends
            (Q.resources api type)
            (Q.is_user type)
            (OwnIn api type)
            (L.creates api type)
            (L.promotes api type)
            m
        → Own (with_migration Q api type s m).1
    with_migration-KeepsOwn api type s (finished n w) own h =
        subst (IsOwn Q.merging) (sym (L.write_world api type w s)) h
    with_migration-KeepsOwn api type s (failed w) own h =
        subst (IsOwn Q.merging) (sym (L.write_world api type w s)) h
    with_migration-KeepsOwn api type s (stalled w) own h =
        subst (IsOwn Q.merging) (sym (L.write_world api type w s)) h
    with_migration-KeepsOwn api type s out_of_fuel own h = own

    resource-KeepsOwn :
        (api : ServiceApi) (type : Text) → KeepsOwn (migrate_resources_of Q api type)
    unfolding migrate_resources_of
    resource-KeepsOwn api type s own = with_migration-KeepsOwn api type s _ own (
        migrate_loop-keeps (Q.resources api type) (Q.is_user type) (OwnIn api type)
          (L.creates api type) (L.promotes api type) Q.resource_fuel 0 0 (Q.world api type s)
          (subst (IsOwn Q.merging) (sym (L.world api type s)) own))

    resources-KeepsOwn :
        (api : ServiceApi) (types : List Text)
        → KeepsOwn (migrate_resources (whole_phases Q) C api types)
    unfolding migrate_resources
    resources-KeepsOwn api [] s own = own
    resources-KeepsOwn api (t ∷ types) s own =
        and_then-KeepsOwn (migrate_resources_of Q api t s)
          (migrate_resources (whole_phases Q) C api types) (resource-KeepsOwn api t s own)
          (resources-KeepsOwn api types)

    unless_synced-KeepsOwn :
        (api : ServiceApi) (o : Option Bool) → KeepsOwn (unless_synced (whole_phases Q) C api o)
    unless_synced-KeepsOwn api none s own = own
    unless_synced-KeepsOwn api (some true) s own = own
    unless_synced-KeepsOwn api (some false) s own = resources-KeepsOwn api C.resource_types s own

    known-KeepsOwn :
        (api : ServiceApi) (id name : Text)
        → KeepsOwn (migrate_known (whole_phases Q) C api id name)
    known-KeepsOwn api id name s own =
        and_then-KeepsOwn (Q.rest.save_service_id api id s) _ (L.identified api id s own)
          (λ s1 own1.
            and_then-KeepsOwn
              (unless_synced (whole_phases Q) C api
                (is_service_already_synced (whole_phases Q) C api id s1) s1)
              (migrate_assignments Q api name)
              (unless_synced-KeepsOwn api (is_service_already_synced (whole_phases Q) C api id s1)
                s1 own1)
              (assignments-KeepsOwn api name))

    if-KeepsOwn :
        (b : Bool) (r : Bool × State Q) (s : State Q)
        → Own r.1
        → Own s
        → Own (if b then r else (false, s)).1
    if-KeepsOwn true r s h own = h
    if-KeepsOwn false r s h own = own

    described-KeepsOwn :
        (api : ServiceApi) (m : Option Metadata)
        → KeepsOwn (migrate_described (whole_phases Q) C api m)
    described-KeepsOwn api none s own = own
    described-KeepsOwn api (some m) s own =
        let name = get_service_type_name m.service_type in
        if-KeepsOwn (Q.rest.has_service_type name s && text_eq name api.service_type)
          (migrate_known (whole_phases Q) C api m.service_id name s) s
          (known-KeepsOwn api m.service_id name s own) own

    single-KeepsOwn : (api : ServiceApi) → KeepsOwn (migrate_single_service (whole_phases Q) C api)
    unfolding migrate_single_service
    single-KeepsOwn api s own = described-KeepsOwn api (Q.rest.get_service_metadata api s) s own

    AreMigrated-KeepsOwn :
        (apis : List ServiceApi) (s s' : State Q)
        → AreMigrated (whole_phases Q) C apis s s'
        → Own s
        → Own s'
    AreMigrated-KeepsOwn [] s s' e own = subst Own e own
    AreMigrated-KeepsOwn (api ∷ apis) s s' (s1, e, rest) own =
        AreMigrated-KeepsOwn apis s1 s' rest
          (subst Own (ap (λ r. r.1) e) (single-KeepsOwn api s own))

    with_merged-IsOwn :
        (s s' : State Q) (m : Merged Q.merging)
        → IsDone Q.merging (IsOwn Q.merging) m
        → with_merged Q s m ≡ (true, s')
        → Own s'
    with_merged-IsOwn s s' (none, t, w) h e = cc (ap (λ r. r.0) e)
    with_merged-IsOwn s s' (some n, t, w) h e =
        subst Own (ap (λ r. r.1) e) (subst (IsOwn Q.merging) (sym (L.merged t w s)) h)

    All-merged :
        (s : State Q) (apis : List ServiceApi)
        → All (λ api. IsOrdered api.service_type) apis
        → All (λ api. IsOrdered api.service_type) (map (merged_api Q s) apis)
    All-merged s [] h = tt
    All-merged s (api ∷ apis) h = (h.0, All-merged s apis h.1)

    merged-IsOwn :
        (configured : List ServiceApi) (s s' : State Q)
        → merge_users Q (in_order (whole_phases Q) C service_type_order configured) s ≡ (true, s')
        → Own s'
    unfolding merge_users
    merged-IsOwn configured s s' e =
        let apis = in_order (whole_phases Q) C service_type_order configured in
        with_merged-IsOwn s s' _
          (merge_partially_migrated_users-IsOwn Q.merging (map (merged_api Q s) apis) (Q.tables s)
            (Q.services s)
            (All-merged s apis (in_order-All C service_type_order configured order-All)))
          e

    -- When the command has marked the migration as completed, and it was not before, every user of
    -- the gateway is the gateway's own: none is left with the id of another service, and the
    -- migration of resources after the merge has created none. It is taken that the library gives a
    -- resource that is created without a service that of the gateway, and that role assignments and
    -- the saves of users and of clusters' ids leave the services of the users' resources.
    pub handle-IsOwn :
        (ran rerun : Bool) (username : Text) (configured : List ServiceApi) (s : State Q)
        → (handle (whole_phases Q) C ran rerun username configured false s).has_ran ≡ true
        → Own (handle (whole_phases Q) C ran rerun username configured false s).state
    handle-IsOwn ran rerun username configured s h =
        elim (handle-IsComplete (whole_phases Q) C ran rerun username configured false s h) [
          | inl before ↦ cc
          | inr (s1, s2, s3, merged, migrated, checked) ↦
              let own = merged-IsOwn configured s1 s2 merged in
              subst Own (ap (λ r. r.1) checked)
                (L.checks _ s3 (AreMigrated-KeepsOwn _ s2 s3 migrated own))
        ]
