-- ===== src/ServiceIdSync/Populate.antt =====
-- What a call of `populate_service_id` may do to the table of clusters.
use jewel.Prelude.{
  ℕ, ◌≡◌, refl, Text, Option, none, some, List, Any, Bool-cases, inl, inr, take, keep,
}
use jewel.ServiceIdSync.{
  Cluster, Clusters, Metadata, fetched_service_id, id_of, updated, update_null_id, probe,
  populate_service_id, populate_canonical, Cooldowns, check_and_set_cooldown, max_clusters_to_probe,
  is_eligible,
}
use jewel.ServiceIdSync.Probe.{Extends, update-Extends, IsClaimed, probe-IsClaimed, probe_keeps}

module _ (canonical : Text → Option Text) (metadata : Cluster → Metadata)
    (meanwhile : Cluster → Clusters → Clusters) (unverified : Text) (now : ℕ)
    (routes : List Cluster) (d : Cooldowns) (cs : Clusters) where
  abbrev pub run : Option Cluster × Cooldowns × Clusters
  run = populate_service_id canonical metadata meanwhile unverified now routes d cs

  abbrev pub probed : List Cluster
  probed = take max_clusters_to_probe (keep is_eligible routes)

  -- The cluster carries the canonical id of the issuer, the table has it under that id, and it is
  -- one of those probed, whose service reported the id.
  abbrev pub Claims : Option Cluster × Cooldowns × Clusters → Cluster → Text → Type 0
  Claims o c id =
      (canonical unverified ≡ some id)
      × (c.service_id ≡ some id)
      × (id_of c.pk o.2 ≡ some id)
      × Any (λ c₀. (c₀.pk ≡ c.pk) × (fetched_service_id canonical (metadata c₀) ≡ some id)) probed

  found-Claims :
      (id : Text) (c : Cluster) (d' : Cooldowns) (o : Option Cluster × Clusters)
      → canonical unverified ≡ some id
      → IsClaimed canonical metadata meanwhile id probed o
      → o.0 ≡ some c
      → Claims (o.0, d', o.1) c id
  found-Claims id c d' (none, cs') e h found = cc
  found-Claims id c d' (some c', cs') e h found =
      let same : c' ≡ c = cc in rw (← same) (e, h.0, h.1, h.2)

  populate_canonical-Claims :
      (o : Option Text)
      → canonical unverified ≡ o
      → {c : Cluster}
      → (populate_canonical canonical metadata meanwhile o now routes d cs).0 ≡ some c
      → (id : Text) × Claims
          (populate_canonical canonical metadata meanwhile o now routes d cs)
          c
          id
  populate_canonical-Claims none e found = cc
  populate_canonical-Claims (some id) e {c} found =
      elim (Bool-cases (check_and_set_cooldown now id d).0) [
        | inl blocked ↦ cc (rw blocked at found)
        | inr free ↦ (
          id,
          rw free (
              found-Claims id c (check_and_set_cooldown now id d).1
                (probe canonical metadata meanwhile id probed cs) e
                (probe-IsClaimed canonical metadata meanwhile id probed cs) (rw free at found)),
        )
      ]

  -- A cluster that is returned carries the canonical form of the issuer's id, the table has it
  -- under that id, and it is one of the first four eligible ones, whose service reported this id.
  pub populate_service_id-Claims : (c : Cluster) → run.0 ≡ some c → (id : Text) × Claims run c id
  unfolding populate_service_id
  populate_service_id-Claims c found = populate_canonical-Claims (canonical unverified) refl found

  module _ (P : Clusters → Type 0)
      (others : (c : Cluster) (cs : Clusters) → P cs → P (meanwhile c cs))
      (update : (pk rows : ℕ) (id : Text) (cs cs' : Clusters)
        → update_null_id pk id cs ≡ updated rows cs'
        → P cs
        → P cs') where
    populate_keeps : P cs → P run.2
    unfolding populate_service_id
    populate_keeps p = keeps_of (canonical unverified)
      where
        keeps_of :
            (o : Option Text)
            → P (populate_canonical canonical metadata meanwhile o now routes d cs).2
        keeps_of none = p
        keeps_of (some id) = elim (Bool-cases (check_and_set_cooldown now id d).0) [
          | inl blocked ↦ rw blocked p
          | inr free ↦
              rw free (probe_keeps canonical metadata meanwhile P others update id probed cs p)
        ]

  -- No call changes or removes an id that some cluster already has, if the other workers do not.
  pub populate_service_id-Extends :
      ((c : Cluster) (cs : Clusters) → Extends cs (meanwhile c cs)) → Extends cs run.2
  populate_service_id-Extends others =
      populate_keeps (Extends cs) (λ c cs' h pk id e. others c cs' pk id (h pk id e))
        (λ pk rows id cs' cs'' e h j u e'. update-Extends pk rows id cs' cs'' e j u (h j u e'))
        (λ pk id e. e)
