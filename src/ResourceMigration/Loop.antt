-- ===== src/ResourceMigration/Loop.antt =====
-- How the loop of `migrate_resource` ends.
use jewel.Prelude.{
  ℕ, zero, suc, ◌+◌, ◌-◌, ◌*◌, ◌≤◌, ◌<◌, Bool, none, some, List, [], ◌∷◌, leb, arith, Bool-cases,
  inl, inr,
}
use jewel.ResourceMigration.{Resource, Env}
use jewel.ResourceMigration.Page.{
  World, Batch, Migration, finished, failed, stalled, out_of_fuel, get_filtered_resources,
  process_resource_page_batch, next_page, page_or_end, migrate_loop, migrate_resource,
}

module _ (E : Env) (is_user : Bool) where
  -- The page that an iteration works on.
  abbrev pub batch : World E is_user → Batch E is_user
  batch w = process_resource_page_batch E is_user (get_filtered_resources E is_user w) w

  -- A measure of what is left shrinks when a batch has updated items, and never grows.
  abbrev pub Shrinks : (World E is_user → ℕ) → World E is_user → Batch E is_user → Type 0
  Shrinks m w (none, w') = Unit
  Shrinks m w (some zero, w') = m w' ≤ m w
  Shrinks m w (some (suc n), w') = m w' < m w

  abbrev pub Ends : Migration E is_user → Type 0
  Ends (finished n w) = Unit
  Ends (failed w) = Unit
  Ends (stalled w) = Unit
  Ends out_of_fuel = ⊥

  module _ (m : World E is_user → ℕ) (shrinks : (w : World E is_user) → Shrinks m w (batch w)) where
    next_page-Ends :
        (fuel stalls processed : ℕ) (w : World E is_user) (b : Batch E is_user)
        → stalls < 3
        → 3 * m w + (3 - stalls) ≤ suc fuel
        → Shrinks m w b
        → ((s p : ℕ) (w' : World E is_user)
            → s < 3
            → 3 * m w' + (3 - s) ≤ fuel
            → Ends (migrate_loop E is_user fuel s p w'))
        → Ends (next_page E is_user stalls processed b (migrate_loop E is_user fuel))
    next_page-Ends fuel stalls processed w (none, w') lt enough shrink rest = tt
    next_page-Ends fuel stalls processed w (some zero, w') lt enough shrink rest =
        elim (Bool-cases (leb 3 (suc stalls))) [
          | inl over ↦ rw over tt
          | inr under ↦
              let below : suc stalls < 3 = ground arith in
              rw under (rest (suc stalls) processed w' below (omega arith))
        ]
    next_page-Ends fuel stalls processed w (some (suc n), w') lt enough shrink rest =
        rest 0 (processed + suc n) w' (omega arith) (omega arith)

    page_or_end-Ends :
        (fuel stalls processed : ℕ) (w : World E is_user) (results : List (Resource E.gateway.Data))
        → Ends (
            next_page E is_user stalls processed
              (process_resource_page_batch E is_user results w)
              (migrate_loop E is_user fuel))
        → Ends (page_or_end E is_user stalls processed results w (migrate_loop E is_user fuel))
    page_or_end-Ends fuel stalls processed w [] h = tt
    page_or_end-Ends fuel stalls processed w (r ∷ results) h = h

    migrate_loop-Ends :
        (fuel stalls processed : ℕ) (w : World E is_user)
        → stalls < 3
        → 3 * m w + (3 - stalls) ≤ fuel
        → Ends (migrate_loop E is_user fuel stalls processed w)
    unfolding migrate_loop
    migrate_loop-Ends zero stalls processed w lt enough = omega arith
    migrate_loop-Ends (suc fuel) stalls processed w lt enough =
        page_or_end-Ends fuel stalls processed w (get_filtered_resources E is_user w) (
          next_page-Ends fuel stalls processed w (batch w) lt enough (shrinks w)
            (λ s p w' lt' enough'. migrate_loop-Ends fuel s p w' lt' enough'))

    -- If each batch that updates an item makes some measure of what is left smaller, and no batch
    -- makes it greater, then the loop ends, within three pages for each unit of the measure and
    -- three more.
    pub migrate_resource-Ends :
        (fuel : ℕ) (w : World E is_user)
        → 3 * m w + 3 ≤ fuel
        → Ends (migrate_resource E is_user fuel w)
    migrate_resource-Ends fuel w enough = migrate_loop-Ends fuel 0 0 w (omega arith) (omega arith)
