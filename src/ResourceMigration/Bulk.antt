-- ===== src/ResourceMigration/Bulk.antt =====
-- What the bulk update sends, and when it tries again.
use jewel.Prelude.{
  ℕ, zero, suc, ◌≤◌, ◌<◌, ◌≡◌, refl, Bool, true, false, ◌⊎◌, inl, inr, Option, none, some, List, [],
  ◌∷◌, ◌++◌, ap, ◌∙◌, All, take, drop, take-append-drop, length-take, length-drop, length, ◌==◌,
  if◌then◌else◌, arith, Bool-cases,
}
use jewel.ResourceMigration.{
  Reply, Env, try_bulk_update_once, should_retry, retry_or_fail, handle_http_error,
  is_transient_status, process_bulk_response, Items, Sent, after_attempt, send_attempts,
  send_bulk_update_chunk, chunks, http_error, network_error, response, not_json, not_an_object,
  object,
}

module _ (E : Env) where
  unfoldable pub concat : List (Items E) → Items E
  concat [] = []
  concat (c ∷ cs) = c ++ concat cs

  no_room : (n : ℕ) → suc n ≤ 0 → ⊥
  no_room n h = omega (arith, h)

  -- With as much fuel as there are items the chunks make up the items, in their order, and no chunk
  -- is empty or has more than the 1000 items that the service accepts.
  pub chunks_cover :
      (fuel : ℕ) (items : Items E)
      → length items ≤ fuel
      → (concat (chunks E fuel items) ≡ items)
        × All (λ c. (0 < length c) × (length c ≤ 1000)) (chunks E fuel items)
  unfolding chunks concat
  chunks_cover zero [] h = (refl, tt)
  chunks_cover zero (i ∷ items) h = elim (no_room (length items) h) [ ]
  chunks_cover (suc fuel) [] h = (refl, tt)
  chunks_cover (suc fuel) (i ∷ items) h =
      let (whole, sizes) =
        chunks_cover fuel (drop 999 items) (omega (arith, h, length-drop 999 items)) in
      (
        ap (λ l. i ∷ l) (ap (λ l. take 999 items ++ l) whole ∙ take-append-drop 999 items),
        ((omega arith, omega (arith, length-take 999 items)), sizes),
      )

  -- The service after some requests with a chunk, and its reply to the next one.
  abbrev pub after : ℕ → Items E → E.Service → E.Service
  after zero chunk s = s
  after (suc k) chunk s = after k chunk (E.bulk_update s chunk).1

  abbrev pub reply : ℕ → Items E → E.Service → Reply
  reply k chunk s = (E.bulk_update (after k chunk s) chunk).0

  -- The replies that are worth another attempt.
  abbrev pub is_transient : Reply → Bool
  is_transient (http_error none) = false
  is_transient (http_error (some status)) = is_transient_status status
  is_transient network_error = true
  is_transient (response status not_json) =
      if is_transient_status status then true else status == 200
  is_transient (response status not_an_object) = is_transient_status status
  is_transient (response status (object updated)) = is_transient_status status

  -- What a reply that is not transient gives.
  abbrev pub settled : Reply → Option ℕ
  settled (response status (object updated)) = if status == 200 then some updated else none
  settled (response status not_an_object) = if status == 200 then some 0 else none
  settled _ = none

  retry_judged :
      (attempt : ℕ) (s : E.Service) (next : E.Service → Sent E)
      → after_attempt E (retry_or_fail attempt) s next
        ≡ (if should_retry attempt then next s else (none, s))
  retry_judged attempt s next = elim (Bool-cases (should_retry attempt)) [
    | inl e ↦ rw e refl
    | inr e ↦ rw e refl
  ]

  judged :
      (attempt : ℕ) (r : Reply) (s : E.Service) (next : E.Service → Sent E)
      → after_attempt E (try_bulk_update_once attempt r) s next ≡ (
          if is_transient r
          then (if should_retry attempt then next s else (none, s))
          else (settled r, s))
  unfolding try_bulk_update_once handle_http_error process_bulk_response
  judged attempt (http_error none) s next = refl
  judged attempt (http_error (some status)) s next =
      elim (Bool-cases (is_transient_status status)) [
        | inl e ↦ rw e (retry_judged attempt s next)
        | inr e ↦ rw e refl
      ]
  judged attempt network_error s next = retry_judged attempt s next
  judged attempt (response status not_json) s next =
      elim (Bool-cases (is_transient_status status)) [
        | inl e ↦ rw e (retry_judged attempt s next)
        | inr e ↦ elim (Bool-cases (status == 200)) [
          | inl f ↦ rw (e, f) (retry_judged attempt s next)
          | inr f ↦ rw (e, f) refl
        ]
      ]
  judged attempt (response status not_an_object) s next =
      elim (Bool-cases (is_transient_status status)) [
        | inl e ↦ rw e (retry_judged attempt s next)
        | inr e ↦ elim (Bool-cases (status == 200)) [
          | inl f ↦ rw (e, f) refl
          | inr f ↦ rw (e, f) refl
        ]
      ]
  judged attempt (response status (object updated)) s next =
      elim (Bool-cases (is_transient_status status)) [
        | inl e ↦ rw e (retry_judged attempt s next)
        | inr e ↦ elim (Bool-cases (status == 200)) [
          | inl f ↦ rw (e, f) refl
          | inr f ↦ rw (e, f) refl
        ]
      ]

  module _ (chunk : Items E) (s : E.Service) where
    -- The replies before the one of this number are transient.
    abbrev pub AllBefore : ℕ → Type 0
    AllBefore zero = Unit
    AllBefore (suc k) = (is_transient (reply k chunk s) ≡ true) × AllBefore k

    -- The chunk was settled by the reply after some transient ones, or the last attempt failed too.
    abbrev pub SettledBy : ℕ → Sent E → Type 0
    SettledBy k sent =
        AllBefore k
        × (sent.1 ≡ after (suc k) chunk s)
        × (sent.0 ≡ (if is_transient (reply k chunk s) then none else settled (reply k chunk s)))
        × ((is_transient (reply k chunk s) ≡ false) ⊎ (k ≡ 2))

    -- A chunk is sent at most three times: again only while the replies are transient, and the
    -- first that is not settles the count or the failure; after a third transient reply it fails.
    pub send_bulk_update_chunk-SettledBy :
        (k : ℕ) × (k < 3) × SettledBy k (send_bulk_update_chunk E chunk s)
    unfolding send_bulk_update_chunk send_attempts should_retry
    send_bulk_update_chunk-SettledBy = elim (Bool-cases (is_transient (reply 0 chunk s))) [
      | inr first ↦ (
        0,
        omega arith,
        rw (judged 0 (reply 0 chunk s) (after 1 chunk s) _, first) (tt, refl, refl, inl refl),
      )
      | inl again ↦ elim (Bool-cases (is_transient (reply 1 chunk s))) [
        | inr second ↦ (
          1,
          omega arith,
          rw
              (
                judged 0 (reply 0 chunk s) (after 1 chunk s) _,
                again,
                judged 1 (reply 1 chunk s) (after 2 chunk s) _,
                second,
              )
              ((refl, tt), refl, refl, inl refl),
        )
        | inl twice ↦ elim (Bool-cases (is_transient (reply 2 chunk s))) [
          | inr third ↦ (
            2,
            omega arith,
            rw
                (
                  judged 0 (reply 0 chunk s) (after 1 chunk s) _,
                  again,
                  judged 1 (reply 1 chunk s) (after 2 chunk s) _,
                  twice,
                  judged 2 (reply 2 chunk s) (after 3 chunk s) _,
                  third,
                )
                ((refl, (refl, tt)), refl, refl, inl refl),
          )
          | inl thrice ↦ (
            2,
            omega arith,
            rw
                (
                  judged 0 (reply 0 chunk s) (after 1 chunk s) _,
                  again,
                  judged 1 (reply 1 chunk s) (after 2 chunk s) _,
                  twice,
                  judged 2 (reply 2 chunk s) (after 3 chunk s) _,
                  thrice,
                )
                ((refl, (refl, tt)), refl, refl, inr refl),
          )
        ]
      ]
    ]
