-- ===== src/Orchestration/Completion.antt =====
-- When the command marks the migration as completed.
use jewel.Prelude.{
  ◌≡◌, refl, ap, ◌⊎◌, inl, inr, Bool, true, false, not, ◌&&◌, Text, is_member, add_member, List, [],
  ◌∷◌, length, ◌==◌, Bool-cases, arith,
}
use mathlib.Core.Path.{subst}
use jewel.Orchestration.{ServiceApi, Phases, Settings}
use jewel.UserMerge.Groups.{service_type_order}
use jewel.Orchestration.Services.{
  load_types_and_permissions, migrate_single_service, add_result, process_all_services, in_order,
  Run, or_raise, report_migration_summary, merge_users, process_services, check_superusers,
  mark_migration_completed, migrate_services, handle,
}

length-add_member : (u : Text) (us : List Text) → (length (add_member u us) == 0) ≡ false
unfolding is_member
length-add_member u [] = ground arith
length-add_member u (v ∷ us) = elim (Bool-cases (is_member u (v ∷ us))) [
  | inl e ↦ rw e (ground arith)
  | inr e ↦ rw e (ground arith)
]

module _ (P : Phases) (C : Settings) where
  -- Each of the services, in their order, has been migrated with success.
  abbrev pub AreMigrated : List ServiceApi → P.State → P.State → Type 0
  AreMigrated [] s s' = s ≡ s'
  AreMigrated (api ∷ apis) s s' =
      (s1 : P.State) × (migrate_single_service P C api s ≡ (true, s1)) × AreMigrated apis s1 s'

  process-AreMigrated :
      (apis : List ServiceApi) (s : P.State)
      → (length (process_all_services P C apis s).failed == 0) ≡ true
      → AreMigrated apis s (process_all_services P C apis s).state
  unfolding process_all_services
  process-AreMigrated [] s h = refl
  process-AreMigrated (api ∷ apis) s h =
      next (migrate_single_service P C api s) refl h (process-AreMigrated apis)
    where
      next :
          (r : Bool × P.State)
          → migrate_single_service P C api s ≡ r
          → (length (add_result P C api.api_slug r.0 (process_all_services P C apis r.1)).failed
              == 0)
            ≡ true
          → ((s : P.State)
              → (length (process_all_services P C apis s).failed == 0) ≡ true
              → AreMigrated apis s (process_all_services P C apis s).state)
          → AreMigrated
              (api ∷ apis)
              s
              (add_result P C api.api_slug r.0 (process_all_services P C apis r.1)).state
      next (true, s1) e h rest = (s1, e, rest s1 h)
      next (false, s1) e h rest =
          let never = length-add_member api.api_slug (process_all_services P C apis s1).failed in cc

  -- What a run has done that marks the migration as completed and ends in a state: the users were merged, then every
  -- service was migrated with success, then the superusers were made consistent.
  abbrev pub IsComplete : List ServiceApi → P.State → Type 0
  IsComplete apis final =
      (s1 s2 s3 : P.State) × (P.merge_partially_migrated_users apis s1 ≡ (true, s2))
      × AreMigrated apis s2 s3
      × (P.ensure_superuser_consistency apis s3 ≡ (true, final))

  -- The flag of a run is the old one, or the next phases have succeeded.
  or_raise-marks :
      (G : P.State → Type 0) (has_ran : Bool) (r : Bool × P.State) (next : P.State → Run P C)
      → ((s : P.State)
          → r ≡ (true, s)
          → (next s).has_ran ≡ true
          → (has_ran ≡ true) ⊎ G (next s).state)
      → (or_raise P C has_ran r next).has_ran ≡ true
      → (has_ran ≡ true) ⊎ G (or_raise P C has_ran r next).state
  or_raise-marks G has_ran (true, s) next f h = f s refl h
  or_raise-marks G has_ran (false, s) next f h = inl h

  migrate_services-marks :
      (apis : List ServiceApi) (has_ran : Bool) (s : P.State)
      → (migrate_services P C apis has_ran s).has_ran ≡ true
      → (has_ran ≡ true) ⊎ IsComplete apis (migrate_services P C apis has_ran s).state
  migrate_services-marks apis has_ran s =
      let merge = P.merge_partially_migrated_users apis in
      or_raise-marks G has_ran
        (P.delete_legacy_authenticators (load_types_and_permissions P C apis s).1)
        (merge_users P C apis has_ran)
        (λ s1 e1. or_raise-marks G has_ran (merge s1) (process_services P C apis has_ran) (λ s2 e2.
          or_raise-marks G has_ran (report s2) (check_superusers P C apis has_ran) (λ s3 e3.
            or_raise-marks G has_ran (P.ensure_superuser_consistency apis s3)
              (mark_migration_completed P C)
              (λ s4 e4 marked. inr (s1, s2, s3, e2, processed s2 s3 e3, e4)))))
    where
      G : P.State → Type 0
      G = IsComplete apis

      report : P.State → Bool × P.State
      report s2 = report_migration_summary P C (process_all_services P C apis s2)

      processed :
          (s2 s3 : P.State)
          → report_migration_summary P C (process_all_services P C apis s2) ≡ (true, s3)
          → AreMigrated apis s2 s3
      processed s2 s3 e3 =
          let p = process_all_services P C apis s2 in
          let none_failed : (length p.failed == 0) ≡ true = ap (λ r. r.0) e3 in
          let state : p.state ≡ s3 = ap (λ r. r.1) e3 in
          subst (AreMigrated apis s2) state (process-AreMigrated apis s2 none_failed)

  -- After the command the migration is marked as completed only if it was so before, or if in this run
  -- the partially migrated users were merged, then every configured service was migrated with success,
  -- controllers first, then hubs, EDA and metrics, and then the superusers were made consistent.
  pub handle-IsComplete :
      (completed rerun : Bool) (username : Text) (configured : List ServiceApi) (has_ran : Bool)
      (s : P.State)
      → (handle P C completed rerun username configured has_ran s).has_ran ≡ true
      → (has_ran ≡ true)
        ⊎ IsComplete
            (in_order P C service_type_order configured)
            (handle P C completed rerun username configured has_ran s).state
  unfolding handle
  handle-IsComplete completed rerun username configured has_ran s h =
      let apis = in_order P C service_type_order configured in
      elim (Bool-cases (completed && not rerun)) [
        | inl skipped ↦ inl (rw skipped at h)
        | inr runs ↦
            elim (Bool-cases
              (P.has_resource_types s && (P.has_user username s && not (length apis == 0)))) [
                | inl ready ↦
                    rw (runs, ready) (migrate_services-marks apis has_ran s (rw (runs, ready) at h))
                | inr refused ↦ inl (rw (runs, refused) at h)
              ]
      ]
