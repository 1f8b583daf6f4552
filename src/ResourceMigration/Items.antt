-- ===== src/ResourceMigration/Items.antt =====
-- Which resources a page collects for the service.
use jewel.Prelude.{
  ◌≡◌, ◌≤◌, refl, Bool, true, false, Text, none, some, List, [], ◌∷◌, map, length, arith, ap,
}
use jewel.ResourceMigration.{Resource, Patch, Env}
use jewel.ResourceMigration.Page.{
  build_bulk_update_item, Collecting, Prepared, add_collected, collect_prepared, collect_page,
  prepare,
}

module _ (E : Env) (is_user : Bool) where
  -- The items are those of these ids, in their order, and no more resources are created.
  abbrev pub Collects : List Text → Collecting E is_user → Type 0
  Collects ids (none, s) = Unit
  Collects ids (some c, s) =
      (map (λ i. i.ansible_id) c.bulk_update_items ≡ ids)
      × (length c.create_operations ≤ length ids)

  collected-Collects :
      (id : Text) (d : E.gateway.Data) (r : Bool × Patch E.gateway.Data) (ids : List Text)
      (o : Collecting E is_user)
      → Collects ids o
      → Collects (id ∷ ids) (add_collected E is_user id d r o)
  unfolding build_bulk_update_item
  collected-Collects id d r ids (none, s) h = tt
  collected-Collects id d (true, p) ids (some c, s) h = (ap (λ l. id ∷ l) h.0, omega (arith, h.1))
  collected-Collects id d (false, p) ids (some c, s) h = (ap (λ l. id ∷ l) h.0, omega (arith, h.1))

  prepared-Collects :
      (id : Text) (p : Prepared E is_user) (ids : List Text)
      (rest : E.gateway.State → Collecting E is_user)
      → ((s : E.gateway.State) → Collects ids (rest s))
      → Collects (id ∷ ids) (collect_prepared E is_user id p rest)
  prepared-Collects id (none, s) ids rest h = tt
  prepared-Collects id (some (v, d), s) ids rest h = collected-Collects id d _ ids (rest s) (h s)

  pub collect_page-Collects :
      (results : List (Resource E.gateway.Data)) (s : E.gateway.State)
      → Collects (map (λ r. r.ansible_id) results) (collect_page E is_user results s)
  unfolding collect_page
  collect_page-Collects [] s = (refl, omega arith)
  collect_page-Collects (r ∷ results) s =
      prepared-Collects r.ansible_id (prepare E is_user r.resource_data s) _
        (collect_page E is_user results) (collect_page-Collects results)
