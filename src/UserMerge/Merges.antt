-- ===== src/UserMerge/Merges.antt =====
-- The merge of each group by `_merge_partially_migrated_users` settles its accounts.
use jewel.Prelude.{
  ℕ, suc, ◌≡◌, ◌≢◌, ◌⊎◌, refl, inl, inr, Bool, true, false, Option, none, some, List, [], ◌∷◌, ◌==◌,
  ==_iff, ◌+◌, Bool-cases, All, All-mono,
}
use mathlib.Core.Path.{subst}
use jewel.Prelude.Dict.{Dict}
use jewel.UserMerge.{
  User, Tables, Env, Outcome, can_accounts_be_merged, migrate_account, link_account,
}
use jewel.UserMerge.Groups.{
  count_conflict, merge_conflicts, Merged, after_migrate, after_link, merge_into, merge_user_group,
  after_group, merge_groups,
}
use jewel.UserMerge.Grouped.{AllGroups}
use jewel.UserMerge.Accounts.{
  unless_cases, Preserves, Settled, Preserves-Settled, link_account-Settled,
  migrate_account-Settled,
}

count_none : (o : Option Bool) → count_conflict o none ≡ none
count_none none = refl
count_none (some b) = refl

can_cases :
    (main u : User) (t : Tables)
    → (can_accounts_be_merged main u t ≡ none) ⊎ (can_accounts_be_merged main u t ≡ some true)
unfolding can_accounts_be_merged
can_cases main u t = unless_cases _

module _ (E : Env) where
  -- What holds of the tables if no exception is raised.
  abbrev pub IsDone {ℓ} : (Tables → Type ℓ) → Merged E → Type ℓ
  IsDone P (none, t, w) = Unit
  IsDone P (some n, t, w) = P t

  abbrev pub IsForeign : User → Type 0
  IsForeign u = u.service_id ≢ E.gateway_id

  -- The tables after a group: its accounts are settled.
  abbrev Settles : List User → Tables → Tables → Type 1
  Settles users t t' = Preserves E t t' × All (λ u. Settled E t' u.pk) users

  Preserves-trans : (a b c : Tables) → Preserves E a b → Preserves E b c → Preserves E a c
  Preserves-trans a b c h k R f all = k R f (h R f all)

  pub IsDone-mono {ℓ ℓ'} :
      (P : Tables → Type ℓ) (Q : Tables → Type ℓ') (m : Merged E)
      → ((t : Tables) → P t → Q t)
      → IsDone P m
      → IsDone Q m
  IsDone-mono P Q (none, t, w) f h = tt
  IsDone-mono P Q (some n, t, w) f h = f t h

  after_link-IsDone :
      (P : Tables → Type 1) (o : Outcome E.Services) (next : Tables → E.Services → Merged E)
      → (o.returned ≡ true → IsDone P (next o.tables o.services))
      → IsDone P (after_link E o next)
  after_link-IsDone P o next h = elim (Bool-cases o.returned) [
    | inl ok ↦ rw ok (h ok)
    | inr not_ok ↦ rw not_ok tt
  ]

  after_migrate-IsDone :
      (P : Tables → Type 1) (n : ℕ) (o : Outcome E.Services)
      → (o.returned ≡ true → P o.tables)
      → IsDone P (after_migrate E n o)
  after_migrate-IsDone P n o h = elim (Bool-cases o.returned) [
    | inl ok ↦ rw ok (h ok)
    | inr not_ok ↦ rw not_ok tt
  ]

  module _ (main : User) (foreign : IsForeign main) where
    abbrev Merges : List User → Tables → Tables → Type 1
    Merges others t t' =
        Preserves E t t' × (Settled E t' main.pk × All (λ u. Settled E t' u.pk) others)

    merge_into-Merges :
        (others : List User) (n : ℕ) (t : Tables) (w : E.Services)
        → IsDone (Merges others t) (merge_into E main others n t w)
    unfolding merge_into
    merge_into-Merges [] n t w =
        after_migrate-IsDone (Merges [] t) (suc n) (migrate_account E main t w) (λ ok.
          let (preserves, settled) = migrate_account-Settled E main t w ok in
          (preserves, (settled foreign, tt)))
    merge_into-Merges (u ∷ others) n t w =
        let o = link_account E main u false none t w in
        after_link-IsDone (Merges (u ∷ others) t) o (merge_into E main others (suc n)) (λ ok.
          let (preserves, settled) = link_account-Settled E main u false none t w ok in
          IsDone-mono (Merges others o.tables) (Merges (u ∷ others) t)
            (merge_into E main others (suc n) o.tables o.services)
            (λ t' h. (
              Preserves-trans t o.tables t' preserves h.0,
              (
                h.1.0,
                (
                  elim (Bool-cases (main.pk == u.pk)) [
                    | inl same ↦ subst (Settled E t') ((==_iff main.pk u.pk).0 same) h.1.0
                    | inr other ↦
                        Preserves-Settled E o.tables t' u.pk h.0
                          (settled (λ same. cc ((==_iff main.pk u.pk).1 same)))
                  ],
                  h.1.1,
                ),
              ),
            ))
            (merge_into-Merges others (suc n) o.tables o.services))

  -- The check of a group raises or finds no conflict.
  merge_conflicts_cases :
      (main : User) (others : List User) (t : Tables)
      → (merge_conflicts main others t ≡ none) ⊎ (merge_conflicts main others t ≡ some 0)
  unfolding merge_conflicts
  merge_conflicts_cases main [] t = inr refl
  merge_conflicts_cases main (u ∷ others) t = elim (merge_conflicts_cases main others t) [
    | inl e ↦ inl (rw e (count_none (can_accounts_be_merged main u t)))
    | inr e ↦ elim (can_cases main u t) [
      | inl raises ↦ inl (rw (e, raises) refl)
      | inr mergeable ↦ inr (rw (e, mergeable) refl)
    ]
  ]

  group-Settles :
      (accounts : List User) (t : Tables) (w : E.Services)
      → All IsForeign accounts
      → IsDone (Settles accounts t) (merge_user_group E accounts t w)
  group-Settles [] t w foreign = tt
  group-Settles (main ∷ others) t w foreign = elim (merge_conflicts_cases main others t) [
    | inl e ↦ rw e tt
    | inr e ↦ rw e (
        IsDone-mono (Merges main foreign.0 others t) (Settles (main ∷ others) t)
          (merge_into E main others 0 t w) (λ t' h. (h.0, (h.1.0, h.1.1)))
          (merge_into-Merges main foreign.0 others 0 t w))
  ]

  abbrev pub GroupsSettle : Dict (List User) → Tables → Tables → Type 1
  GroupsSettle groups t t' = Preserves E t t' × AllGroups (λ u. Settled E t' u.pk) groups

  pub groups-Settle :
      (groups : Dict (List User)) (total : ℕ) (t : Tables) (w : E.Services)
      → AllGroups IsForeign groups
      → IsDone (GroupsSettle groups t) (merge_groups E groups total t w)
  unfolding merge_groups
  groups-Settle [] total t w foreign = ((λ R f h. h), tt)
  groups-Settle ((name, accounts) ∷ groups) total t w foreign =
      next (merge_user_group E accounts t w) (group-Settles accounts t w foreign.0)
        (λ n t1 w1. groups-Settle groups (total + n) t1 w1 foreign.1)
    where
      next :
          (m : Merged E)
          → IsDone (Settles accounts t) m
          → ((n : ℕ) (t1 : Tables) (w1 : E.Services)
              → IsDone (GroupsSettle groups t1) (merge_groups E groups (total + n) t1 w1))
          → IsDone
              (GroupsSettle ((name, accounts) ∷ groups) t)
              (after_group E m (λ n. merge_groups E groups (total + n)))
      next (none, t1, w1) h rest = tt
      next (some n, t1, w1) h rest =
          IsDone-mono (GroupsSettle groups t1) (GroupsSettle ((name, accounts) ∷ groups) t)
            (merge_groups E groups (total + n) t1 w1)
            (λ t' k. (
              Preserves-trans t t1 t' h.0 k.0,
              (
                All-mono (λ u. Settled E t1 u.pk) (λ u. Settled E t' u.pk)
                    (λ u s. Preserves-Settled E t1 t' u.pk k.0 s) accounts h.1,
                k.1,
              ),
            ))
            (rest n t1 w1)
