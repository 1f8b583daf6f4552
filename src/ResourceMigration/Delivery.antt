-- ===== src/ResourceMigration/Delivery.antt =====
-- What a page whose batch returns has had sent to the service.
use jewel.Prelude.{
  ℕ, suc, ◌+◌, ◌≤◌, ◌<◌, ◌≡◌, refl, sym, ap, ◌∙◌, Bool, true, false, Text, Option, none, some, List,
  [], ◌∷◌, All, map, length, arith, if◌then◌else◌,
}
use mathlib.Core.Option.{some-injective}
use jewel.ResourceMigration.{
  Resource, Env, Items, Sent, send_bulk_update_chunk, chunks, add_sent, send_chunks,
  send_bulk_update,
}
use jewel.ResourceMigration.Bulk.{
  concat, chunks_cover, after, reply, is_transient, settled, AllBefore,
  send_bulk_update_chunk-SettledBy,
}
use jewel.ResourceMigration.Items.{Collects, collect_page-Collects}
use jewel.ResourceMigration.Page.{
  Collecting, Batch, World, collect_page, send_items, created, collected,
  process_resource_page_batch,
}

module _ (E : Env) where
  -- The service accepts a chunk with a count: after at most two transient replies it answers so.
  abbrev pub Accepts : Items E → ℕ → E.Service → E.Service → Type 0
  Accepts chunk m s s' =
      (k : ℕ) × (k < 3)
      × AllBefore E chunk s k
      × (settled E (reply E k chunk s) ≡ some m)
      × (s' ≡ after E (suc k) chunk s)

  -- The service accepts the chunks one after the other, and the counts add up to this one.
  abbrev pub Delivers : List (Items E) → ℕ → E.Service → E.Service → Type 0
  Delivers [] n s s' = (n ≡ 0) × (s' ≡ s)
  Delivers (c ∷ cs) n s s' =
      (m : ℕ) × (rest : ℕ) × (s₁ : E.Service) × Accepts c m s s₁
      × (n ≡ m + rest)
      × Delivers cs rest s₁ s'

  not_transient : (b : Bool) (o : Option ℕ) (m : ℕ) → (if b then none else o) ≡ some m → o ≡ some m
  not_transient true o m h = cc
  not_transient false o m h = h

  chunk-Accepts :
      (chunk : Items E) (m : ℕ) (s s' : E.Service)
      → send_bulk_update_chunk E chunk s ≡ (some m, s')
      → Accepts chunk m s s'
  chunk-Accepts chunk m s s' h =
      let (k, lt, settles) = send_bulk_update_chunk-SettledBy E chunk s in
      (
        k,
        lt,
        settles.0,
        not_transient (is_transient E (reply E k chunk s)) _ m (sym settles.2 ∙ ap (λ r. r.0) h),
        sym (ap (λ r. r.1) h) ∙ settles.1,
      )

  total :
      (m n : ℕ) (q : Sent E) (s' : E.Service)
      → ◌≡◌ {A = Sent E} (elim q.0 [ none ↦ none | some k ↦ some (m + k) ], q.1) (some n, s')
      → (rest : ℕ) × (q ≡ (some rest, s')) × (n ≡ m + rest)
  total m n (none, s) s' h = cc (ap (λ (r : Sent E). r.0) h)
  total m n (some k, s) s' h = (
    k,
    ap (λ (x : E.Service). (some k, x)) (ap (λ (r : Sent E). r.1) h),
    sym (some-injective _ _ (ap (λ (r : Sent E). r.0) h)),
  )

  chunks-Delivers :
      (cs : List (Items E)) (n : ℕ) (s s' : E.Service)
      → send_chunks E cs s ≡ (some n, s')
      → Delivers cs n s s'
  unfolding send_chunks
  chunks-Delivers [] n s s' h =
      (sym (some-injective _ _ (ap (λ (r : Sent E). r.0) h)), sym (ap (λ (r : Sent E). r.1) h))
  chunks-Delivers (c ∷ cs) n s s' h =
      first (send_bulk_update_chunk E c s) refl (λ k s₁. chunks-Delivers cs k s₁ s') h
    where
      first :
          (r : Sent E)
          → send_bulk_update_chunk E c s ≡ r
          → ((k : ℕ) (s₁ : E.Service) → send_chunks E cs s₁ ≡ (some k, s') → Delivers cs k s₁ s')
          → add_sent E r (send_chunks E cs) ≡ (some n, s')
          → Delivers (c ∷ cs) n s s'
      first (none, s₁) e delivers k = cc (ap (λ (r : Sent E). r.0) k)
      first (some m, s₁) e delivers k =
          let (rest, next, sum) = total m n (send_chunks E cs s₁) s' k in
          (m, rest, s₁, chunk-Accepts c m s s₁ e, sum, delivers rest s₁ next)

  module _ (is_user : Bool) where
    -- The requests of a batch that returns.
    abbrev pub IsDelivered : List Text → ℕ → E.Service → E.Service → Type 0
    IsDelivered ids n s s' =
        (cs : List (Items E)) × (map (λ i. i.ansible_id) (concat E cs) ≡ ids)
        × All (λ c. (0 < length c) × (length c ≤ 1000)) cs
        × Delivers cs n s s'

    items-IsDelivered :
        (items : Items E) (g : E.gateway.State) (n : ℕ) (s : E.Service) (w' : World E is_user)
        → send_items E is_user items g s ≡ (some n, w')
        → IsDelivered (map (λ i. i.ansible_id) items) n s w'.service
    unfolding send_bulk_update concat
    items-IsDelivered [] g n s w' h = (
      [],
      refl,
      tt,
      (
        sym (some-injective _ _ (ap (λ (r : Batch E is_user). r.0) h)),
        sym (ap (λ (r : Batch E is_user). r.1.service) h),
      ),
    )
    items-IsDelivered (i ∷ items) g n s w' h =
        let (whole, sizes) = chunks_cover E (length (i ∷ items)) (i ∷ items) (omega arith) in
        (
          chunks E (length (i ∷ items)) (i ∷ items),
          ap (map (λ i. i.ansible_id)) whole,
          sizes,
          chunks-Delivers (chunks E (length (i ∷ items)) (i ∷ items)) n s w'.service
              (λ j. ((h j).0, (h j).1.service)),
        )

    created-IsDelivered :
        (items : Items E) (g : E.gateway.State) (o : Option E.gateway.State) (n : ℕ) (s : E.Service)
        (w' : World E is_user)
        → created E is_user items g s o ≡ (some n, w')
        → IsDelivered (map (λ i. i.ansible_id) items) n s w'.service
    created-IsDelivered items g none n s w' h = cc (ap (λ (r : Batch E is_user). r.0) h)
    created-IsDelivered items g (some g') n s w' h = items-IsDelivered items g' n s w' h

    collected-IsDelivered :
        (ids : List Text) (o : Collecting E is_user) (n : ℕ) (s : E.Service) (w' : World E is_user)
        → Collects E is_user ids o
        → collected E is_user s o ≡ (some n, w')
        → IsDelivered ids n s w'.service
    collected-IsDelivered ids (none, g) n s w' c h = cc (ap (λ (r : Batch E is_user). r.0) h)
    collected-IsDelivered ids (some c, g) n s w' collects h =
        let (cs, whole, sizes, delivers) = created-IsDelivered c.bulk_update_items g _ n s w' h in
        (cs, whole ∙ collects.0, sizes, delivers)

    -- When the batch of a page returns a count, the service has accepted a sequence of requests, each
    -- with at least one item and at most 1000. Together they have one item for each resource of the
    -- page, under the id that the resource has in the service and in the page's order; each request
    -- was answered with success, after at most two transient replies; and the count is the sum of
    -- those that the service has reported.
    pub process_resource_page_batch-IsDelivered :
        (results : List (Resource E.gateway.Data)) (w w' : World E is_user) (n : ℕ)
        → process_resource_page_batch E is_user results w ≡ (some n, w')
        → IsDelivered (map (λ r. r.ansible_id) results) n w.service w'.service
    unfolding process_resource_page_batch
    process_resource_page_batch-IsDelivered results w w' n h =
        collected-IsDelivered (map (λ r. r.ansible_id) results)
          (collect_page E is_user results w.gateway_state) n w.service w'
          (collect_page-Collects E is_user results w.gateway_state) h
