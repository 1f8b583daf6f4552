-- ===== src/ServiceIdSync/Probe.antt =====
-- What the search for a cluster among the routes may do to the table of clusters.
use jewel.Prelude.{
  ℕ, ◌≡◌, refl, true, ◌||◌, Text, text_eq_iff, Option, none, some, List, [], ◌∷◌, Any, arith, ltb,
  ◌==◌, if◌then◌else◌, Bool-cases, Option-cases, inl, inr,
}
use jewel.ServiceIdSync.{
  Cluster, Clusters, Metadata, fetched_service_id, id_of, is_id, has_null_id, write_id, Update,
  updated, integrity_error, update_null_id, claim, probe,
}

-- No id that was set is lost or changed.
abbrev pub Extends : Clusters → Clusters → Type 0
Extends cs cs' = (pk : ℕ) (id : Text) → id_of pk cs ≡ some id → id_of pk cs' ≡ some id

id_of-write_id :
    (pk j : ℕ) (id : Text) (cs : Clusters)
    → has_null_id pk cs ≡ true
    → id_of j (write_id pk id cs) ≡ (if pk == j then some id else id_of j cs)
unfolding id_of write_id has_null_id
id_of-write_id pk j id [] h = cc
id_of-write_id pk j id (c ∷ cs) h = ground (arith, id_of-write_id pk j id cs)

null_id : (pk : ℕ) (cs : Clusters) → has_null_id pk cs ≡ true → id_of pk cs ≡ none
unfolding has_null_id id_of
null_id pk [] h = cc
null_id pk (c ∷ cs) h = ground (arith, null_id pk cs)

pub update-Extends :
    (pk rows : ℕ) (id : Text) (cs cs' : Clusters)
    → update_null_id pk id cs ≡ updated rows cs'
    → Extends cs cs'
unfolding update_null_id
update-Extends pk rows id cs cs' h j u e = ground (arith, id_of-write_id pk j id cs, null_id pk cs)

written :
    (pk rows : ℕ) (id : Text) (cs cs' : Clusters)
    → update_null_id pk id cs ≡ updated rows cs'
    → ltb 0 rows || is_id id (id_of pk cs') ≡ true
    → id_of pk cs' ≡ some id
unfolding update_null_id
written pk rows id cs cs' h e = elim (Option-cases (id_of pk cs')) [
  | inl empty ↦ ground (arith, id_of-write_id pk pk id cs)
  | inr (u, found) ↦ ground (arith, id_of-write_id pk pk id cs, text_eq_iff u id)
]

module _ (canonical : Text → Option Text) (metadata : Cluster → Metadata)
    (meanwhile : Cluster → Clusters → Clusters) where
  -- The cluster is one of the routes', its service reports the id, and the table has it.
  abbrev pub IsClaimed : Text → List Cluster → Option Cluster × Clusters → Type 0
  IsClaimed id routes (none, cs) = Unit
  IsClaimed id routes (some c, cs) =
      (c.service_id ≡ some id)
      × (id_of c.pk cs ≡ some id)
      × Any (λ c₀. (c₀.pk ≡ c.pk) × (fetched_service_id canonical (metadata c₀) ≡ some id)) routes

  later :
      (id : Text) (c : Cluster) (routes : List Cluster) (o : Option Cluster × Clusters)
      → IsClaimed id routes o
      → IsClaimed id (c ∷ routes) o
  later id c routes (none, cs) h = tt
  later id c routes (some d, cs) h = (h.0, h.1, inr h.2)

  is_id_sound : (id : Text) (o : Option Text) → is_id id o ≡ true → o ≡ some id
  is_id_sound id none h = cc
  is_id_sound id (some u) h = ground (arith, text_eq_iff u id)

  claim-IsClaimed :
      (id : Text) (c : Cluster) (routes : List Cluster) (cs : Clusters) (u : Update)
      → fetched_service_id canonical (metadata c) ≡ some id
      → update_null_id c.pk id cs ≡ u
      → ((cs' : Clusters) → IsClaimed id routes (probe canonical metadata meanwhile id routes cs'))
      → IsClaimed id (c ∷ routes) (
          claim canonical metadata meanwhile c id u
            (probe canonical metadata meanwhile id routes)
            cs)
  claim-IsClaimed id c routes cs integrity_error e h rest = tt
  claim-IsClaimed id c routes cs (updated rows cs') e h rest =
      elim (Bool-cases (ltb 0 rows || is_id id (id_of c.pk cs'))) [
        | inl done ↦ rw done (refl, written c.pk rows id cs cs' h done, inl (refl, e))
        | inr other ↦ rw other (later id c routes _ (rest cs'))
      ]

  pub probe-IsClaimed :
      (id : Text) (routes : List Cluster) (cs : Clusters)
      → IsClaimed id routes (probe canonical metadata meanwhile id routes cs)
  unfolding probe
  probe-IsClaimed id [] cs = tt
  probe-IsClaimed id (c ∷ routes) cs =
      elim (Bool-cases (is_id id (fetched_service_id canonical (metadata c)))) [
        | inl same ↦ rw same (
            claim-IsClaimed id c routes (meanwhile c cs) _ (is_id_sound id _ same) refl
              (probe-IsClaimed id routes))
        | inr other ↦ rw other (later id c routes _ (probe-IsClaimed id routes (meanwhile c cs)))
      ]

  -- What an update keeps, and other workers keep, the whole probe keeps.
  module _ (P : Clusters → Type 0)
      (others : (c : Cluster) (cs : Clusters) → P cs → P (meanwhile c cs))
      (update : (pk rows : ℕ) (id : Text) (cs cs' : Clusters)
        → update_null_id pk id cs ≡ updated rows cs'
        → P cs
        → P cs') where
    claim_keeps :
        (id : Text) (c : Cluster) (routes : List Cluster) (cs : Clusters) (u : Update)
        → update_null_id c.pk id cs ≡ u
        → ((cs' : Clusters) → P cs' → P (probe canonical metadata meanwhile id routes cs').1)
        → P cs
        → P
            (claim canonical metadata meanwhile c id u
              (probe canonical metadata meanwhile id routes)
              cs).1
    claim_keeps id c routes cs integrity_error h rest p = p
    claim_keeps id c routes cs (updated rows cs') h rest p =
        elim (Bool-cases (ltb 0 rows || is_id id (id_of c.pk cs'))) [
          | inl done ↦ rw done (update c.pk rows id cs cs' h p)
          | inr other ↦ rw other (rest cs' (update c.pk rows id cs cs' h p))
        ]

    pub probe_keeps :
        (id : Text) (routes : List Cluster) (cs : Clusters)
        → P cs
        → P (probe canonical metadata meanwhile id routes cs).1
    unfolding probe
    probe_keeps id [] cs p = p
    probe_keeps id (c ∷ routes) cs p =
        elim (Bool-cases (is_id id (fetched_service_id canonical (metadata c)))) [
          | inl same ↦ rw same (
              claim_keeps id c routes (meanwhile c cs) _ refl (probe_keeps id routes)
                (others c cs p))
          | inr other ↦ rw other (probe_keeps id routes (meanwhile c cs) (others c cs p))
        ]
