-- ===== src/UserMerge/Accounts.antt =====
-- What merging and migrating single accounts leaves in the tables.
use jewel.Prelude.{
  ℕ, ◌≡◌, ◌≢◌, refl, sym, ◌⊎◌, inl, inr, Bool, true, false, not, text_eq, text_eq_iff, Option, none,
  some, List, [], ◌∷◌, keep, ◌==◌, ==_iff, if◌then◌else◌, Bool-cases, All, All-keep_sub,
}
use mathlib.Core.Path.{subst}
use jewel.UserMerge.{
  User, Tables, Env, Outcome, set_migrated, save_migrated, link_tables, atomic, migrate_account,
  link_account,
}

-- The answer of the check by whether it finds a conflict.
abbrev pub unless : Bool → Option Bool
unless b = if b then none else some true

pub unless_cases : (b : Bool) → (unless b ≡ none) ⊎ (unless b ≡ some true)
unless_cases true = inl refl
unless_cases false = inr refl

pub of_unless : (b : Bool) → unless b ≡ some true → b ≡ false
of_unless true h = cc
of_unless false h = refl

-- Whether a transaction has been committed.
abbrev pub IsAtomic : (E : Env) (before after : Tables) → Outcome E.Services → Type 0
IsAtomic E before after o =
    ((o.returned ≡ true) × (o.tables ≡ after)) ⊎ ((o.returned ≡ false) × (o.tables ≡ before))

atomic-IsAtomic :
    (E : Env) (before after : Tables) (r : Bool × E.Services)
    → IsAtomic E before after (atomic E before after r)
atomic-IsAtomic E before after (true, w) = inl (refl, refl)
atomic-IsAtomic E before after (false, w) = inr (refl, refl)

module _ (E : Env) where
  -- Linking an account to another one gives its original accounts to that one, its authenticators too
  -- if they are to be preserved, and removes the user; or, if it raises, it changes nothing in the tables.
  pub link_account-IsAtomic :
      (main to_merge : User) (preserve : Bool) (services : Option (List ℕ)) (t : Tables)
      (w : E.Services)
      → (main.pk == to_merge.pk) ≡ false
      → IsAtomic E t
          (link_tables main to_merge preserve t)
          (link_account E main to_merge preserve services t w)
  unfolding link_account
  link_account-IsAtomic main to_merge preserve services t w other =
      rw other (atomic-IsAtomic E t (link_tables main to_merge preserve t) _)

  migrate_account-IsAtomic :
      (u : User) (t : Tables) (w : E.Services)
      → text_eq u.service_id E.gateway_id ≡ false
      → IsAtomic E t
          (record t { users = save_migrated E.gateway_id u.pk t.users })
          (migrate_account E u t w)
  unfolding migrate_account
  migrate_account-IsAtomic u t w other =
      rw other
        (atomic-IsAtomic E t (record t { users = save_migrated E.gateway_id u.pk t.users }) _)

  -- What is true of a migrated user, and was true of every user, still is.
  abbrev pub Preserves : Tables → Tables → Type 1
  Preserves t t' =
      (R : User → Type 0)
      → ((u : User) → R (set_migrated E.gateway_id u))
      → All R t.users
      → All R t'.users

  -- The users with a key are the gateway's.
  abbrev pub Settled : Tables → ℕ → Type 0
  Settled t pk = All (λ r. r.pk ≡ pk → r.service_id ≡ E.gateway_id) t.users

  pub Preserves-Settled : (t t' : Tables) (pk : ℕ) → Preserves t t' → Settled t pk → Settled t' pk
  Preserves-Settled t t' pk preserves = preserves _ (λ u same. refl)

  save_migrated-All :
      (R : User → Type 0) (pk : ℕ) (users : List User)
      → ((u : User) → R (set_migrated E.gateway_id u))
      → All R users
      → All R (save_migrated E.gateway_id pk users)
  save_migrated-All R pk [] f h = tt
  save_migrated-All R pk (u ∷ users) f h = elim (Bool-cases (u.pk == pk)) [
    | inl same ↦ rw same (f u, save_migrated-All R pk users f h.1)
    | inr other ↦ rw other (h.0, save_migrated-All R pk users f h.1)
  ]

  save_migrated-Settled :
      (pk : ℕ) (users : List User)
      → All (λ r. r.pk ≡ pk → r.service_id ≡ E.gateway_id) (save_migrated E.gateway_id pk users)
  save_migrated-Settled pk [] = tt
  save_migrated-Settled pk (u ∷ users) = elim (Bool-cases (u.pk == pk)) [
    | inl same ↦ rw same ((λ e. refl), save_migrated-Settled pk users)
    | inr other ↦ rw other ((λ e. cc ((==_iff u.pk pk).1 e)), save_migrated-Settled pk users)
  ]

  gone-Settled :
      (pk : ℕ) (users : List User)
      → All (λ r. r.pk ≡ pk → r.service_id ≡ E.gateway_id) (keep (λ u. not (u.pk == pk)) users)
  unfolding keep
  gone-Settled pk [] = tt
  gone-Settled pk (u ∷ users) = elim (Bool-cases (u.pk == pk)) [
    | inl same ↦ rw (same, keep) (gone-Settled pk users)
    | inr other ↦ rw (other, keep) ((λ e. cc ((==_iff u.pk pk).1 e)), gone-Settled pk users)
  ]

  link_tables-Preserves :
      (main to_merge : User) (preserve : Bool) (t : Tables)
      → Preserves t (link_tables main to_merge preserve t)
  link_tables-Preserves main to_merge preserve t R f h = All-keep_sub R _ t.users h

  committed :
      (before after : Tables) (o : Outcome E.Services)
      → IsAtomic E before after o
      → o.returned ≡ true
      → after ≡ o.tables
  committed before after o (inl done) ok = sym done.1
  committed before after o (inr undone) ok = cc

  -- After an account has been linked to another one, its user is not in the table.
  pub link_account-Settled :
      (main to_merge : User) (preserve : Bool) (services : Option (List ℕ)) (t : Tables)
      (w : E.Services)
      → (link_account E main to_merge preserve services t w).returned ≡ true
      → Preserves t (link_account E main to_merge preserve services t w).tables
        × ((main.pk ≢ to_merge.pk)
            → Settled (link_account E main to_merge preserve services t w).tables to_merge.pk)
  unfolding link_account
  link_account-Settled main to_merge preserve services t w ok =
      elim (Bool-cases (main.pk == to_merge.pk)) [
        | inl same ↦
            rw (same, link_account)
              (
                (λ R f h. h),
                (λ distinct. elim (distinct ((==_iff main.pk to_merge.pk).0 same)) [ ]),
              )
        | inr other ↦
            let after = link_tables main to_merge preserve t in
            let o = link_account E main to_merge preserve services t w in
            subst (λ t'. Preserves t t' × ((main.pk ≢ to_merge.pk) → Settled t' to_merge.pk))
              (committed t after o (link_account-IsAtomic main to_merge preserve services t w other)
                ok)
              (
                link_tables-Preserves main to_merge preserve t,
                (λ distinct. gone-Settled to_merge.pk t.users),
              )
      ]

  -- A user who has been migrated is the gateway's, unless the caller took it to be that already.
  pub migrate_account-Settled :
      (u : User) (t : Tables) (w : E.Services)
      → (migrate_account E u t w).returned ≡ true
      → Preserves t (migrate_account E u t w).tables
        × ((u.service_id ≢ E.gateway_id) → Settled (migrate_account E u t w).tables u.pk)
  unfolding migrate_account
  migrate_account-Settled u t w ok = elim (Bool-cases (text_eq u.service_id E.gateway_id)) [
    | inl same ↦
        rw (same, migrate_account)
          (
            (λ R f h. h),
            (λ distinct. elim (distinct ((text_eq_iff u.service_id E.gateway_id).0 same)) [ ]),
          )
    | inr other ↦
        let after : Tables = record t { users = save_migrated E.gateway_id u.pk t.users } in
        let o = migrate_account E u t w in
        subst (λ t'. Preserves t t' × ((u.service_id ≢ E.gateway_id) → Settled t' u.pk))
          (committed t after o (migrate_account-IsAtomic u t w other) ok)
          (
            (λ R f h. save_migrated-All R u.pk t.users f h),
            (λ distinct. save_migrated-Settled u.pk t.users),
          )
  ]
