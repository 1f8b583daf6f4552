-- ===== src/ResourceMigration/Kept.antt =====
-- What the creation of a resource and the promotion of a user keep, the whole migration keeps.
use jewel.Prelude.{
  ℕ, zero, suc, ◌+◌, leb, ◌≡◌, refl, Bool, true, false, ◌||◌, Text, text, text_eq, Option, none,
  some, List, [], ◌∷◌, inl, inr, Bool-cases, Option-cases, if◌then◌else◌,
}
use mathlib.Core.Path.{subst}
use jewel.ResourceMigration.Superusers.{
  sync_controller_superuser, sync_hub_eda_superuser, sync_user_superuser_flag, promote_if,
}
use jewel.ResourceMigration.{Resource, Env, Items}
use jewel.ResourceMigration.Page.{
  Collecting, Prepared, World, Batch, Migration, finished, failed, stalled, out_of_fuel, prepare,
  prepare_user, deserialize_and_validate, collect_prepared, collect_page, create_resources,
  send_items, created, collected, process_resource_page_batch, next_page, page_or_end,
  get_filtered_resources, migrate_loop,
}

module _ (E : Env) (is_user : Bool) (P : E.gateway.State → Type 0)
    (creates : (s s' : E.gateway.State) (d : E.gateway.Data) (id : Text)
      → E.create_resource s d id ≡ some s'
      → P s
      → P s')
    (promotes : (s : E.gateway.State) (u : Text) → P s → P (E.gateway.promote s u)) where
  promote_if-keeps :
      (o : Option Bool) (u : Text) (s : E.gateway.State) → P s → P (promote_if E.gateway o u s)
  promote_if-keeps none u s h = h
  promote_if-keeps (some true) u s h = h
  promote_if-keeps (some false) u s h = promotes s u h

  controller-keeps :
      (u : Text) (b : Bool) (s : E.gateway.State) (d : E.gateway.Data)
      → P s
      → P (sync_controller_superuser E.gateway u b s d).0
  unfolding sync_controller_superuser
  controller-keeps u false s d h = h
  controller-keeps u true s d h = promote_if-keeps (E.gateway.get_user s u) u s h

  sync-keeps :
      (t : Text) (s : E.gateway.State) (d v : E.gateway.Data)
      → P s
      → P (sync_user_superuser_flag E.gateway t s d v).0
  unfolding sync_user_superuser_flag sync_hub_eda_superuser
  sync-keeps t s d v h =
      pick (text_eq t (text "controller")) (text_eq t (text "hub") || text_eq t (text "eda")) _ _ _
        (controller-keeps (E.gateway.username v) (E.gateway.is_superuser v) s d h) h h
    where
      pick :
          (b c : Bool) (x y z : E.gateway.State × E.gateway.Data)
          → P x.0
          → P y.0
          → P z.0
          → P (if b then x else if c then y else z).0
      pick true c x y z hx hy hz = hx
      pick false true x y z hx hy hz = hy
      pick false false x y z hx hy hz = hz

  prepare-keeps :
      (o : Option E.gateway.Data) (s : E.gateway.State) → P s → P (prepare E is_user o s).1
  prepare-keeps none s h = h
  prepare-keeps (some d) s h = pick is_user _ _ (user (deserialize_and_validate E is_user d)) h
    where
      pick : (b : Bool) (x y : Prepared E is_user) → P x.1 → P y.1 → P (if b then x else y).1
      pick true x y hx hy = hx
      pick false x y hx hy = hy

      user : (o : Option (E.gateway.Data × E.gateway.Data)) → P (prepare_user E is_user o s).1
      user none = h
      user (some (v, d')) = sync-keeps E.service_type s d' v h

  collect_page-keeps :
      (results : List (Resource E.gateway.Data)) (s : E.gateway.State)
      → P s
      → P (collect_page E is_user results s).1
  unfolding collect_page
  collect_page-keeps [] s h = h
  collect_page-keeps (r ∷ results) s h =
      next (prepare E is_user r.resource_data s) (prepare-keeps r.resource_data s h)
        (collect_page-keeps results)
    where
      added :
          (d : E.gateway.Data) (v : E.gateway.Data) (s₁ : E.gateway.State)
          (c : Collecting E is_user)
          → P c.1
          → P (collect_prepared E is_user r.ansible_id (some (v, d), s₁) (λ x. c)).1
      added d v s₁ (none, s₂) k = k
      added d v s₁ (some c, s₂) k = k

      next :
          (p : Prepared E is_user)
          → P p.1
          → ((s₁ : E.gateway.State) → P s₁ → P (collect_page E is_user results s₁).1)
          → P (collect_prepared E is_user r.ansible_id p (collect_page E is_user results)).1
      next (none, s₁) k rest = k
      next (some (v, d), s₁) k rest = added d v s₁ (collect_page E is_user results s₁) (rest s₁ k)

  create_resources-keeps :
      (operations : List (E.gateway.Data × Text)) (s s' : E.gateway.State)
      → create_resources E is_user operations s ≡ some s'
      → P s
      → P s'
  unfolding create_resources
  create_resources-keeps [] s s' e h = subst P (cc) h
  create_resources-keeps ((d, id) ∷ operations) s s' e h =
      elim (Option-cases (E.create_resource s d id)) [
        | inl raises ↦ cc (rw raises at e)
        | inr (s₁, made) ↦
            create_resources-keeps operations s₁ s' (rw made at e) (creates s s₁ d id made h)
      ]

  send_items-keeps :
      (items : Items E) (g : E.gateway.State) (s : E.Service)
      → P g
      → P (send_items E is_user items g s).1.gateway_state
  send_items-keeps [] g s h = h
  send_items-keeps (i ∷ items) g s h = h

  created-keeps :
      (items : Items E) (g : E.gateway.State) (s : E.Service) (o : Option E.gateway.State)
      → P g
      → ((g' : E.gateway.State) → o ≡ some g' → P g')
      → P (created E is_user items g s o).1.gateway_state
  created-keeps items g s none h made = h
  created-keeps items g s (some g') h made = send_items-keeps items g' s (made g' refl)

  collected-keeps :
      (s : E.Service) (c : Collecting E is_user)
      → P c.1
      → P (collected E is_user s c).1.gateway_state
  collected-keeps s (none, g) h = h
  collected-keeps s (some c, g) h =
      created-keeps c.bulk_update_items g s (create_resources E is_user c.create_operations g) h
        (λ g' e. create_resources-keeps c.create_operations g g' e h)

  batch-keeps :
      (results : List (Resource E.gateway.Data)) (w : World E is_user)
      → P w.gateway_state
      → P (process_resource_page_batch E is_user results w).1.gateway_state
  unfolding process_resource_page_batch
  batch-keeps results w h =
      collected-keeps w.service (collect_page E is_user results w.gateway_state)
        (collect_page-keeps results w.gateway_state h)

  -- The gateway's state that a migration ends with.
  abbrev pub Ends : Migration E is_user → Type 0
  Ends (finished n w) = P w.gateway_state
  Ends (failed w) = P w.gateway_state
  Ends (stalled w) = P w.gateway_state
  Ends out_of_fuel = Unit

  next_page-keeps :
      (stalls processed : ℕ) (b : Batch E is_user)
      (next : (s p : ℕ) → World E is_user → Migration E is_user)
      → P b.1.gateway_state
      → ((s p : ℕ) (w : World E is_user) → P w.gateway_state → Ends (next s p w))
      → Ends (next_page E is_user stalls processed b next)
  next_page-keeps stalls processed (none, w) next h rest = h
  next_page-keeps stalls processed (some zero, w) next h rest =
      elim (Bool-cases (leb 3 (suc stalls))) [
        | inl over ↦ rw over h
        | inr under ↦ rw under (rest (suc stalls) processed w h)
      ]
  next_page-keeps stalls processed (some (suc n), w) next h rest = rest 0 (processed + suc n) w h

  page_or_end-keeps :
      (stalls processed : ℕ) (results : List (Resource E.gateway.Data)) (w : World E is_user)
      (next : (s p : ℕ) → World E is_user → Migration E is_user)
      → P w.gateway_state
      → ((s p : ℕ) (w : World E is_user) → P w.gateway_state → Ends (next s p w))
      → Ends (page_or_end E is_user stalls processed results w next)
  page_or_end-keeps stalls processed [] w next h rest = h
  page_or_end-keeps stalls processed (r ∷ results) w next h rest =
      next_page-keeps stalls processed (process_resource_page_batch E is_user (r ∷ results) w) next
        (batch-keeps (r ∷ results) w h) rest

  pub migrate_loop-keeps :
      (fuel stalls processed : ℕ) (w : World E is_user)
      → P w.gateway_state
      → Ends (migrate_loop E is_user fuel stalls processed w)
  unfolding migrate_loop
  migrate_loop-keeps zero stalls processed w h = tt
  migrate_loop-keeps (suc fuel) stalls processed w h =
      page_or_end-keeps stalls processed (get_filtered_resources E is_user w) w
        (migrate_loop E is_user fuel) h (λ s p w' k. migrate_loop-keeps fuel s p w' k)
