-- ===== src/RoleAssignments/Runs.antt =====
-- Runs of the role assignment migration against a service that answers its pages.
use jewel.Prelude.{
  ℕ, zero, suc, ◌-◌, ◌≤◌, ◌<◌, ◌≡◌, refl, sym, ◌⊎◌, inl, inr, Bool, true, false, Text, Option, none,
  some, List, [], ◌∷◌, ◌==◌, length, take, All, All-mono, IsIncreasing, last_key, above, UpTo,
  UpTo-page, UpTo-end, All-keep_sub, All-take, length-take_some, length-above-page, or_default,
  is_some, Bool-cases, arith,
}
use mathlib.Core.Path.{subst}
use jewel.RoleAssignments.{Kind, Item, Database, same_kind}
use jewel.RoleAssignments.Create.{bulk_resolve_and_create_page}
use jewel.RoleAssignments.Cursor.{
  Reply, replied, raised, Env, Store, saved_pk, advance, Paged, finished, failed, out_of_fuel,
  last_id, page_or_end, on_reply, paginate_and_create,
}
use jewel.RoleAssignments.Rows.{same_kind_sound}
use jewel.RoleAssignments.Saved.{
  IsGranted, Grows, Grows-refl, Grows-trans, Grows-IsGranted, page-Grows, page-IsGranted,
  saved_pk-upsert, saved_pk-upsert_other,
}

abbrev pub id_of : Item → ℕ
id_of i = or_default i.id 0

abbrev pub IsFailure : Reply → Type 0
IsFailure raised = Unit
IsFailure (replied status items) = (status == 200) ≡ false

-- A reply to `order_by=id&id__gt=…`: a failure, or the next items of the list, one at least if there is
-- one.
abbrev pub IsPage : List Item → (page_size after : ℕ) → Reply → Type 0
IsPage listed page_size after reply =
    IsFailure reply ⊎ (reply ≡ replied 200 (take (suc page_size) (above id_of after listed)))

-- A service that lists items in the order of their ids, which are positive.
pub record IsService (E : Env) (exclude : List Text) (listed : Kind → List Item) (page_size : ℕ)
    : Type 0 where
  pub pages :
      (kind : Kind) (after : ℕ) → IsPage (listed kind) page_size after (E.fetch kind exclude after)
  pub positive : (kind : Kind) → All (λ i. 0 < id_of i) (listed kind)
  pub increasing : (kind : Kind) → IsIncreasing id_of (listed kind)
  pub with_id : (kind : Kind) → All (λ i. is_some i.id ≡ true) (listed kind)

some_id : (o : Option ℕ) → is_some o ≡ true → o ≡ some (or_default o 0)
some_id none h = cc
some_id (some n) h = refl

last_id-some :
    (i : Item) (items : List Item)
    → All (λ j. is_some j.id ≡ true) (i ∷ items)
    → (a : ℕ) → last_id i items ≡ some (last_key id_of a (i ∷ items))
unfolding last_id
last_id-some i [] h a = some_id i.id h.0
last_id-some i (j ∷ items) h a = last_id-some j items h.1 (id_of i)

module _ (slug : Text) (listed : Kind → List Item) where
  -- The saved cursor of a kind is not past an item that is not granted.
  abbrev pub IsCovered : Store → Type 0
  IsCovered s =
      (kind : Kind) → UpTo id_of (IsGranted kind s.db) (saved_pk slug kind s.cursors) (listed kind)

  UpTo-Grows :
      (kind : Kind) (db db' : Database) (a : ℕ)
      → Grows db db'
      → UpTo id_of (IsGranted kind db) a (listed kind)
      → UpTo id_of (IsGranted kind db') a (listed kind)
  UpTo-Grows kind db db' a grows =
      All-mono _ _ (λ i h below. Grows-IsGranted kind db db' grows i (h below)) (listed kind)

  pub Granted-Grows :
      (kind : Kind) (db db' : Database)
      → Grows db db'
      → All (IsGranted kind db) (listed kind)
      → All (IsGranted kind db') (listed kind)
  Granted-Grows kind db db' grows = All-mono _ _ (Grows-IsGranted kind db db' grows) (listed kind)

  abbrev with_db : Store → Database → Store
  with_db s db = record s { db = db }

  advance-IsCovered :
      (success : Bool) (kind : Kind) (pk : ℕ) (s : Store)
      → IsCovered s
      → UpTo id_of (IsGranted kind s.db) pk (listed kind)
      → IsCovered (record s { cursors = advance success slug kind pk s.cursors })
  advance-IsCovered false kind pk s covered upto = covered
  advance-IsCovered true kind pk s covered upto = λ k. elim (Bool-cases (same_kind kind k)) [
    | inl same ↦ rw (← same_kind_sound kind k same, saved_pk-upsert slug kind pk s.cursors) upto
    | inr other ↦ rw (saved_pk-upsert_other slug kind k pk s.cursors other) (covered k)
  ]

  -- How a list's pages are to end: with each of its items granted, or with a failure, or in the
  -- middle for want of fuel, and in all cases with a cursor that what is granted covers.
  abbrev pub Settles : Kind → Type 0 → Store → Paged → Type 0
  Settles kind Short s (finished n s') =
      IsCovered s' × (Grows s.db s'.db × All (IsGranted kind s'.db) (listed kind))
  Settles kind Short s (failed s') = IsCovered s' × Grows s.db s'.db
  Settles kind Short s (out_of_fuel s') = IsCovered s' × (Grows s.db s'.db × Short)

  Settles-Grows :
      (kind : Kind) (Short Short' : Type 0) (s s' : Store) (r : Paged)
      → Grows s.db s'.db
      → (Short' → Short)
      → Settles kind Short' s' r
      → Settles kind Short s r
  Settles-Grows kind Short Short' s s' (finished n t) grows short h =
      (h.0, (Grows-trans s.db s'.db t.db grows h.1.0, h.1.1))
  Settles-Grows kind Short Short' s s' (failed t) grows short h =
      (h.0, Grows-trans s.db s'.db t.db grows h.1)
  Settles-Grows kind Short Short' s s' (out_of_fuel t) grows short h =
      (h.0, (Grows-trans s.db s'.db t.db grows h.1.0, short h.1.1))

  module _ (E : Env) (exclude : List Text) (page_size : ℕ)
      (S : IsService E exclude listed page_size) (kind : Kind) where
    abbrev page : ℕ → List Item
    page last = take (suc page_size) (above id_of last (listed kind))

    abbrev pub left : ℕ → ℕ
    left last = length (above id_of last (listed kind))

    abbrev pub Continues : ℕ → (ℕ → ℕ → Store → Paged) → Type 0
    Continues fuel continue =
        (last created : ℕ) (s : Store)
        → IsCovered s
        → UpTo id_of (IsGranted kind s.db) last (listed kind)
        → Settles kind (fuel ≤ left last) s (continue last created s)

    items-Settles :
        (fuel last created : ℕ) (s : Store) (items : List Item) (continue : ℕ → ℕ → Store → Paged)
        → page last ≡ items
        → IsCovered s
        → UpTo id_of (IsGranted kind s.db) last (listed kind)
        → Continues fuel continue
        → Settles kind (suc fuel ≤ left last) s (page_or_end E slug kind items created s continue)
    items-Settles fuel last created s [] continue e covered upto rest =
        (covered, (Grows-refl s.db, UpTo-end id_of _ last page_size (listed kind) e upto))
    items-Settles fuel last created s (i ∷ items) continue e covered upto rest =
        let db = (bulk_resolve_and_create_page kind (i ∷ items) s.db).1 in
        let c = last_key id_of last (i ∷ items) in
        let grows = page-Grows kind (i ∷ items) s.db in
        let somes =
          subst (All (λ j. is_some j.id ≡ true)) e
            (All-take _ (suc page_size) _ (All-keep_sub _ _ (listed kind) (S.with_id kind))) in
        let upto' = UpTo-Grows kind s.db db last grows upto in
        let granted_page =
          subst (All (IsGranted kind db)) (sym e) (page-IsGranted kind (i ∷ items) s.db) in
        let covers =
          subst (λ l. UpTo id_of (IsGranted kind db) (last_key id_of last l) (listed kind)) e
            (UpTo-page id_of (IsGranted kind db) last (suc page_size) (listed kind)
              (S.increasing kind) upto' granted_page) in
        let fewer =
          subst
            (λ l.
              length (above id_of (last_key id_of last l) (listed kind))
              ≡ length (above id_of last (listed kind)) - suc page_size)
            e (length-above-page id_of last (suc page_size) (listed kind) (S.increasing kind)) in
        let some_left =
          length-take_some (suc page_size) (above id_of last (listed kind)) i items e in
        let saved =
          advance-IsCovered (E.saves kind c) kind c (with_db s db)
            (λ k. UpTo-Grows k s.db db _ grows (covered k)) covers in
        rw (last_id-some i items somes last) (
          Settles-Grows kind _ _ s
            (record (with_db s db) { cursors = advance (E.saves kind c) slug kind c s.cursors }) _
            grows (λ short. omega (arith, short, fewer, some_left)) (rest c _ _ saved covers))

    failure-Settles :
        (fuel last created : ℕ) (s : Store) (reply : Reply) (continue : ℕ → ℕ → Store → Paged)
        → IsFailure reply
        → IsCovered s
        → Settles kind (suc fuel ≤ left last) s (on_reply E slug kind reply created s continue)
    failure-Settles fuel last created s raised continue failure covered = (covered, Grows-refl s.db)
    failure-Settles fuel last created s (replied status items) continue failure covered =
        rw failure (covered, Grows-refl s.db)

    reply-Settles :
        (fuel last created : ℕ) (s : Store) (reply : Reply) (continue : ℕ → ℕ → Store → Paged)
        → IsPage (listed kind) page_size last reply
        → IsCovered s
        → UpTo id_of (IsGranted kind s.db) last (listed kind)
        → Continues fuel continue
        → Settles kind (suc fuel ≤ left last) s (on_reply E slug kind reply created s continue)
    reply-Settles fuel last created s reply continue (inl failure) covered upto rest =
        failure-Settles fuel last created s reply continue failure covered
    reply-Settles fuel last created s reply continue (inr answer) covered upto rest =
        rw answer (items-Settles fuel last created s (page last) continue refl covered upto rest)

    pub paginate_and_create-Settles :
        (fuel : ℕ) → Continues fuel (paginate_and_create E slug kind fuel exclude)
    unfolding paginate_and_create
    paginate_and_create-Settles zero last created s covered upto =
        (covered, (Grows-refl s.db, omega arith))
    paginate_and_create-Settles (suc fuel) last created s covered upto =
        reply-Settles fuel last created s (E.fetch kind exclude last) _ (S.pages kind last) covered
          upto (paginate_and_create-Settles fuel)
