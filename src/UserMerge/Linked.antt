-- ===== src/UserMerge/Linked.antt =====
-- The original accounts of a user after another one is linked to them, and when that can be done.
use jewel.Prelude.{
  ℕ, ◌≡◌, ◌≢◌, refl, sym, ◌∙◌, ap, inl, inr, Bool, true, false, not, ◌&&◌, ◌||◌, Option, none, some,
  List, [], ◌∷◌, ◌++◌, map, keep, any, ◌==◌, ==_iff, Bool-cases, All, All-both, All-mono, All-keep,
  All-of_any, All-keep_sub, arith, or_default, if◌then◌else◌,
}
use jewel.UserMerge.{
  User, Original, Tables, Env, Outcome, is_of, give_original, can_give, can_accounts_be_merged,
  all_routes, link_services, link_tables, atomic, link_account,
}
use jewel.UserMerge.Accounts.{unless, of_unless, link_account-IsAtomic}

-- Two accounts are not of the same user and the same service.
abbrev pub IsOther : Original → Original → Type 0
IsOther o p = o.user ≡ p.user → o.service ≢ p.service

abbrev pub IsUnique : List Original → Type 0
IsUnique [] = Unit
IsUnique (o ∷ os) = All (IsOther o) os × IsUnique os

IsUnique-keep : (p : Original → Bool) (os : List Original) → IsUnique os → IsUnique (keep p os)
unfolding keep
IsUnique-keep p [] h = tt
IsUnique-keep p (o ∷ os) h = elim (Bool-cases (p o)) [
  | inl e ↦ rw (e, keep) (All-keep_sub (IsOther o) p os h.0, IsUnique-keep p os h.1)
  | inr e ↦ rw (e, keep) (IsUnique-keep p os h.1)
]

-- Whether a user has an account of a service.
unfoldable pub has_account : (user service : ℕ) → List Original → Bool
has_account user service os = any (λ o. o.user == user && o.service == service) os

-- Whether a user has one after one user has been linked to another.
abbrev pub linked : (from to user service : ℕ) → List Original → Bool
linked from to user service os =
    if user == from
    then false
    else has_account user service os || (user == to && has_account from service os)

has_account-given :
    (from to user service : ℕ) (os : List Original)
    → (to == from) ≡ false
    → has_account user service (keep (λ o. not (o.user == from)) (map (give_original from to) os))
      ≡ linked from to user service os
unfolding has_account any keep
has_account-given from to user service [] h = ground arith
has_account-given from to user service (o ∷ os) h =
    ground (arith, has_account-given from to user service os h)

-- Of no service of which the user has an account.
abbrev IsNew : List Original → Original → Type 0
IsNew mine o = any (λ p. p.service == o.service) mine ≡ false

can_give_conflict :
    (os mine : List Original)
    → any (λ o. any (λ p. p.service == o.service) mine) os ≡ true
    → can_give os mine ≡ false
unfolding can_give any
can_give_conflict [] mine h = cc
can_give_conflict (o ∷ os) mine h = elim (Bool-cases (any (λ p. p.service == o.service) mine)) [
  | inl old ↦ rw old refl
  | inr new ↦ rw new (can_give_conflict os (o ∷ mine) (more os (rw new at h)))
]
  where
    more :
        (qs : List Original)
        → any (λ q. any (λ p. p.service == q.service) mine) qs ≡ true
        → any (λ q. any (λ p. p.service == q.service) (o ∷ mine)) qs ≡ true
    more [] k = cc
    more (q ∷ qs) k = ground (arith, more qs)

-- The accounts are of different services.
abbrev AreSeparate : List Original → Type 0
AreSeparate [] = Unit
AreSeparate (o ∷ os) = All (λ p. (o.service == p.service) ≡ false) os × AreSeparate os

can_give_new :
    (os mine : List Original) → All (IsNew mine) os → AreSeparate os → can_give os mine ≡ true
unfolding can_give any
can_give_new [] mine h k = refl
can_give_new (o ∷ os) mine h k =
    let rest =
      can_give_new os (o ∷ mine)
        (All-mono _ (IsNew (o ∷ mine)) (λ q e. rw (e.0, e.1) refl) os (All-both _ _ os k.0 h.1))
        k.1 in
    rw (h.0, rest) refl

own-AreSeparate :
    (pk : ℕ) (os : List Original) → All (λ o. is_of pk o ≡ true) os → IsUnique os → AreSeparate os
own-AreSeparate pk [] own h = tt
own-AreSeparate pk (o ∷ os) own h = (
  All-mono _ (λ p. (o.service == p.service) ≡ false)
      (λ p e. elim (Bool-cases (o.service == p.service)) [
        | inl same ↦ absurd (
            e.1 ((==_iff o.user pk).0 own.0 ∙ sym ((==_iff p.user pk).0 e.0))
              ((==_iff o.service p.service).0 same))
        | inr other ↦ other
      ])
      os (All-both _ _ os own.1 h.0),
  own-AreSeparate pk os own.1 h.1,
)

module _ (E : Env) (main to_merge : User) (preserve : Bool) (services : Option (List ℕ))
    (t : Tables) (w : E.Services) where
  abbrev pub outcome : Outcome E.Services
  outcome = link_account E main to_merge preserve services t w

  abbrev pub originals : List Original
  originals = keep (is_of to_merge.pk) t.original_accounts

  abbrev mine : List Original
  mine = keep (is_of main.pk) t.original_accounts

  -- Whether the services to which the accounts belong have routes, and answer each call.
  abbrev pub all_answer : Bool
  all_answer =
      all_routes E originals
      && (link_services E main to_merge (or_default services [] ++ map (λ o. o.service) originals)
          w).0

  if-atomic :
      (b : Bool) (t' : Tables) (r : Bool × E.Services)
      → (atomic E t t' (if b then r else (false, w))).returned ≡ b && r.0
  if-atomic true t' (true, w') = refl
  if-atomic true t' (false, w') = refl
  if-atomic false t' r = refl

  returned_when :
      (main.pk == to_merge.pk) ≡ false
      → outcome.returned
        ≡ (all_routes E originals && can_give originals mine)
          && (link_services E main to_merge
              (or_default services [] ++ map (λ o. o.service) originals)
              w).0
  unfolding link_account
  returned_when distinct = rw distinct (
      if-atomic (all_routes E originals && can_give originals mine)
        (link_tables main to_merge preserve t) _)

  refused : can_accounts_be_merged main to_merge t ≡ none → can_give originals mine ≡ false
  unfolding can_accounts_be_merged
  refused h = can_give_conflict originals mine (conflict _ h)
    where
      conflict : (b : Bool) → unless b ≡ none → b ≡ true
      conflict true e = refl
      conflict false e = cc

  mergeable-can_give :
      IsUnique t.original_accounts
      → can_accounts_be_merged main to_merge t ≡ some true
      → can_give originals mine ≡ true
  unfolding can_accounts_be_merged
  mergeable-can_give unique h =
      can_give_new originals mine (All-of_any _ originals (of_unless _ h)) (
        own-AreSeparate to_merge.pk originals (All-keep (is_of to_merge.pk) t.original_accounts)
          (IsUnique-keep (is_of to_merge.pk) t.original_accounts unique))

  moved :
      (main.pk == to_merge.pk) ≡ false
      → outcome.returned ≡ true
      → (user service : ℕ)
      → has_account user service outcome.tables.original_accounts
        ≡ linked to_merge.pk main.pk user service t.original_accounts
  moved distinct returned user service =
      elim (link_account-IsAtomic E main to_merge preserve services t w distinct) [
        | inl done ↦
            ap (λ (t' : Tables). has_account user service t'.original_accounts) done.1
            ∙ has_account-given to_merge.pk main.pk user service t.original_accounts distinct
        | inr undone ↦ cc
      ]

  unchanged : (main.pk == to_merge.pk) ≡ false → outcome.returned ≡ false → outcome.tables ≡ t
  unchanged distinct raised =
      elim (link_account-IsAtomic E main to_merge preserve services t w distinct) [
        | inl done ↦ cc
        | inr undone ↦ undone.1
      ]

  -- Linking one account to a different one. If the check raises for the two, so does linking, and no
  -- table changes. If the check lets them be merged, and no user has two original accounts of a
  -- service, then linking returns just if all the services have routes and answer. If it returns, the
  -- merged user has no original account any more, the main user has one of each service of which
  -- either of the two had one, and every other user has one of the same services as before.
  pub link_account-Links :
      (main.pk == to_merge.pk) ≡ false
      → IsUnique t.original_accounts
      → (can_accounts_be_merged main to_merge t ≡ none
          → (outcome.returned ≡ false) × (outcome.tables ≡ t))
        × (can_accounts_be_merged main to_merge t ≡ some true → outcome.returned ≡ all_answer)
        × (outcome.returned ≡ true
            → (user service : ℕ)
            → has_account user service outcome.tables.original_accounts
              ≡ linked to_merge.pk main.pk user service t.original_accounts)
  link_account-Links distinct unique = (
    (λ h.
        let raised : outcome.returned ≡ false =
          returned_when distinct ∙ no_room _ _ _ (refused h) in
        (raised, unchanged distinct raised)),
    (λ h. returned_when distinct ∙ room _ _ _ (mergeable-can_give unique h)),
    moved distinct,
  )
    where
      no_room : (a b c : Bool) → b ≡ false → (a && b) && c ≡ false
      no_room a b c e = ground arith

      room : (a b c : Bool) → b ≡ true → (a && b) && c ≡ a && c
      room a b c e = ground arith
