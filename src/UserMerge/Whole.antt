-- ===== src/UserMerge/Whole.antt =====
-- What `_merge_partially_migrated_users` leaves when it returns.
use jewel.Prelude.{
  ℕ, ◌≡◌, ◌⊎◌, refl, inl, inr, true, not, text_eq, text_eq_iff, none, some, List, [], ◌∷◌, length,
  ◌==◌, Bool-cases, Option-cases, All, All-mono, All-keep, All-diagonal, All-of_keep, arith,
}
use jewel.UserMerge.{User, Tables, Env}
use jewel.UserMerge.Groups.{
  ServiceApi, service_id_to_type, group_by_type, correlate_users_across_services, Merged,
  merge_groups, check_total, merge_typed, partially_migrated, merge_partially_migrated_users,
}
use jewel.UserMerge.Grouped.{correlated-AllGroups}
use jewel.UserMerge.Correlation.{IsOrdered, All-correlated}
use jewel.UserMerge.Accounts.{Settled}
use jewel.UserMerge.Merges.{IsDone, IsDone-mono, IsForeign, GroupsSettle, groups-Settle}

module _ (E : Env) where
  own_or_Settled :
      (t t' : Tables)
      → All (λ u. Settled E t' u.pk) (partially_migrated E t.users)
      → All (λ u. (u.service_id ≡ E.gateway_id) ⊎ Settled E t' u.pk) t.users
  own_or_Settled t t' h =
      All-mono _ _
        (λ u f. elim (Bool-cases (text_eq u.service_id E.gateway_id)) [
          | inl own ↦ inl ((text_eq_iff u.service_id E.gateway_id).0 own)
          | inr other ↦ inr (f (rw other refl))
        ])
        t.users (All-of_keep _ _ t.users h)

  All-const : (P : Type 0) (users : List User) → P → All (λ u. P) users
  All-const P [] h = tt
  All-const P (u ∷ users) h = (h, All-const P users h)

  Settled-IsOwn :
      (t' : Tables)
      → All (λ u. (u.service_id ≡ E.gateway_id) ⊎ Settled E t' u.pk) t'.users
      → All (λ u. u.service_id ≡ E.gateway_id) t'.users
  Settled-IsOwn t' h =
      All-mono (λ u. (u.service_id ≡ E.gateway_id) ⊎ (u.pk ≡ u.pk → u.service_id ≡ E.gateway_id)) _
        (λ u k. elim k [ inl own ↦ own | inr f ↦ f refl ]) t'.users
        (All-diagonal
          (λ u r. (u.service_id ≡ E.gateway_id) ⊎ (r.pk ≡ u.pk → r.service_id ≡ E.gateway_id))
          t'.users
          (All-mono _ _
            (λ u k. elim k [
              | inl own ↦
                  All-mono _ _ (λ r o. inl o) t'.users
                    (All-const (u.service_id ≡ E.gateway_id) t'.users own)
              | inr settled ↦ All-mono _ _ (λ r f. inr f) t'.users settled
            ])
            t'.users h))

  check_total-IsDone :
      (P : Tables → Type 0) (n : ℕ) (m : Merged E) → IsDone E P m → IsDone E P (check_total E n m)
  check_total-IsDone P n (none, t, w) h = tt
  check_total-IsDone P n (some total, t, w) h = elim (Bool-cases (total == n)) [
    | inl same ↦ rw same h
    | inr other ↦ rw other tt
  ]

  All-empty : (P : User → Type 0) (users : List User) → (length users == 0) ≡ true → All P users
  All-empty P [] h = tt
  All-empty P (u ∷ users) h = ground arith

  -- The users of the tables are all the gateway's.
  abbrev pub IsOwn : Tables → Type 0
  IsOwn t = All (λ u. u.service_id ≡ E.gateway_id) t.users

  typed-IsOwn :
      (apis : List ServiceApi) (t : Tables) (w : E.Services) (n : ℕ)
      → All (λ api. IsOrdered api.service_type) apis
      → IsDone E IsOwn (
          merge_typed E
            (group_by_type (service_id_to_type apis []) (partially_migrated E t.users) [])
            n
            t
            w)
  typed-IsOwn apis t w n ordered =
      let users = partially_migrated E t.users in
      let types = service_id_to_type apis [] in
      let foreign =
        All-mono (λ u. not (text_eq u.service_id E.gateway_id) ≡ true) (IsForeign E)
          (λ u other own. let same = (text_eq_iff u.service_id E.gateway_id).1 own in ground arith)
          users (All-keep (λ u. not (text_eq u.service_id E.gateway_id)) t.users) in
      elim (Option-cases (group_by_type types users [])) [
        | inl unknown ↦ rw unknown tt
        | inr (all_users, e) ↦
            let groups = correlate_users_across_services all_users in
            rw e (
              check_total-IsDone IsOwn n (merge_groups E groups 0 t w) (
                IsDone-mono E (GroupsSettle E groups t) IsOwn (merge_groups E groups 0 t w)
                  (λ t' h. Settled-IsOwn t' (
                    h.0 (λ u. (u.service_id ≡ E.gateway_id) ⊎ Settled E t' u.pk) (λ u. inl refl)
                      (own_or_Settled t t' (
                        All-correlated (λ u. Settled E t' u.pk) apis users all_users ordered e
                          h.1))))
                  (groups-Settle E groups 0 t w
                    (correlated-AllGroups (IsForeign E) types users all_users foreign e))))
      ]

  -- If the merge of the partially migrated users returns, then no user of the gateway is partially
  -- migrated any more: each has the gateway's id, provided that the types of the services are those
  -- that the migration goes through.
  pub merge_partially_migrated_users-IsOwn :
      (apis : List ServiceApi) (t : Tables) (w : E.Services)
      → All (λ api. IsOrdered api.service_type) apis
      → IsDone E IsOwn (merge_partially_migrated_users E apis t w)
  unfolding merge_partially_migrated_users
  merge_partially_migrated_users-IsOwn apis t w ordered =
      elim (Bool-cases (length (partially_migrated E t.users) == 0)) [
        | inl empty ↦ rw empty (
            Settled-IsOwn t (own_or_Settled t t (All-empty _ (partially_migrated E t.users) empty)))
        | inr some_left ↦ rw some_left (typed-IsOwn apis t w _ ordered)
      ]
