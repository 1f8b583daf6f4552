-- ===== src/ServiceIdSync.antt =====
-- aap_gateway_api/utils/service_id_sync.py: the cooldown of unknown token issuers and the probe that
-- gives a service cluster its id. The clock is monotonic, in nanoseconds. The HTTP client, UUID
-- parsing and what other workers commit meanwhile are parameters.
pub mod Cooldown
pub mod Probe
pub mod Populate
mod Tests
use jewel.Prelude.{
  ℕ, ◌-◌, Bool, true, false, ◌&&◌, Text, text, text_eq, Option, none, some, List, [], ◌∷◌, length,
  keep, not, take, any, ltb, leb, ◌==◌, if◌then◌else◌, or_default, is_some, strip, ◌||◌,
}
use jewel.Prelude.Dict.{Dict, lookup, insert}

abbrev pub cooldown_nanoseconds : ℕ
cooldown_nanoseconds = 60_000_000_000

abbrev pub max_cooldown_entries : ℕ
max_cooldown_entries = 1000

-- `_populate_cooldown`
abbrev pub Cooldowns : Type 0
Cooldowns = Dict ℕ

-- `del` of the entries older than the cutoff. A cutoff before the clock's zero is 0 here, and no
-- reading lies below either.
unfoldable pub prune : ℕ → Cooldowns → Cooldowns
prune now = keep (λ e. not (ltb e.1 (now - cooldown_nanoseconds)))

-- The test of the issuer's own entry, and the write.
unfoldable pub try_issuer : ℕ → Text → Cooldowns → Bool × Cooldowns
try_issuer now issuer d =
    if ltb (now - or_default (lookup issuer d) 0) cooldown_nanoseconds
    then (true, d)
    else (false, insert issuer now d)

-- `_check_and_set_cooldown`: true if the caller must skip the issuer.
unfoldable pub check_and_set_cooldown : ℕ → Text → Cooldowns → Bool × Cooldowns
check_and_set_cooldown now issuer d =
    if leb max_cooldown_entries (length d)
    then (let pruned = prune now d in
        if leb max_cooldown_entries (length pruned)
        then (true, pruned)
        else try_issuer now issuer pruned)
    else try_issuer now issuer d

-- The columns of a service cluster that the probe reads or writes.
pub record Cluster : Type 0 where
  pub pk : ℕ
  pub service_type : Text
  pub service_id : Option Text

-- The table of clusters, in the order of the primary key.
abbrev pub Clusters : Type 0
Clusters = List Cluster

-- The values of `_SYNCABLE_TYPES`: the default service types other than the gateway.
unfoldable pub syncable_types : List Text
syncable_types = text "controller" ∷ text "eda" ∷ text "hub" ∷ text "metrics" ∷ []

unfoldable pub max_clusters_to_probe : ℕ
unfolding syncable_types
max_clusters_to_probe = length syncable_types

-- The reply of the metadata endpoint, or an exception on the way. A missing or false id is the
-- empty text.
pub data Metadata : Type 0 where
  failed : Metadata
  response : (status_code : ℕ) (service_id : Text) → Metadata

-- `_fetch_service_id_for_route`, with `str(uuid.UUID(…))` as `canonical`.
unfoldable pub fetched_service_id : (Text → Option Text) → Metadata → Option Text
fetched_service_id canonical failed = none
fetched_service_id canonical (response status id) =
    if status == 200 then canonical (strip id) else none

unfoldable pub id_of : ℕ → Clusters → Option Text
id_of pk [] = none
id_of pk (c ∷ cs) = if c.pk == pk then c.service_id else id_of pk cs

abbrev is_id : Text → Option Text → Bool
is_id id none = false
is_id id (some u) = text_eq u id

unfoldable pub has_null_id : ℕ → Clusters → Bool
has_null_id pk [] = false
has_null_id pk (c ∷ cs) = if c.pk == pk then not (is_some c.service_id) else has_null_id pk cs

unfoldable pub write_id : ℕ → Text → Clusters → Clusters
write_id pk id [] = []
write_id pk id (c ∷ cs) =
    if c.pk == pk then record c { service_id = some id } ∷ cs else c ∷ write_id pk id cs

-- The rows that an update changed and the new table, or an `IntegrityError`.
pub data Update : Type 0 where
  updated : (rows : ℕ) → Clusters → Update
  integrity_error : Update

-- `filter(pk=pk, service_id__isnull=True).update(service_id=id)`, on a unique column
unfoldable pub update_null_id : ℕ → Text → Clusters → Update
update_null_id pk id cs =
    if has_null_id pk cs
    then (if any (λ c. is_id id c.service_id) cs
        then integrity_error
        else updated 1 (write_id pk id cs))
    else updated 0 cs

-- An eligible route: its cluster had no id and a known type when the query ran.
unfoldable pub is_eligible : Cluster → Bool
is_eligible c = not (is_some c.service_id) && any (text_eq c.service_type) syncable_types

module _ (canonical : Text → Option Text) (metadata : Cluster → Metadata)
    -- What other workers have committed by the time the reply is there.
    (meanwhile : Cluster → Clusters → Clusters) where
  abbrev pub claim :
      Cluster
      → Text
      → Update
      → (Clusters → Option Cluster × Clusters)
      → Clusters
      → Option Cluster × Clusters
  claim c id integrity_error next cs = (none, cs)
  claim c id (updated rows cs') next cs =
      if ltb 0 rows || is_id id (id_of c.pk cs')
      then (some (record c { service_id = some id }), cs')
      else next cs'

  -- The loop over the routes. An exception ends it with no cluster.
  unfoldable pub probe : Text → List Cluster → Clusters → Option Cluster × Clusters
  probe id [] cs = (none, cs)
  probe id (c ∷ routes) cs =
      let next = probe id routes in
      let now = meanwhile c cs in
      if is_id id (fetched_service_id canonical (metadata c))
      then claim c id (update_null_id c.pk id now) next now
      else next now

  -- `populate_service_id` once the id has its canonical form; an issuer that is no UUID has none.
  abbrev pub populate_canonical :
      Option Text → ℕ → List Cluster → Cooldowns → Clusters → Option Cluster × Cooldowns × Clusters
  populate_canonical none now routes d cs = (none, d, cs)
  populate_canonical (some id) now routes d cs =
      let (blocked, d') = check_and_set_cooldown now id d in
      if blocked
      then (none, d', cs)
      else let (found, cs') = probe id (take max_clusters_to_probe (keep is_eligible routes)) cs in
        (found, d', cs')

  -- `populate_service_id`: the clusters of the API routes in the order of the query, the time, the
  -- cooldowns and the table. The cluster that was found, with both states after the call.
  unfoldable pub populate_service_id :
      Text → ℕ → List Cluster → Cooldowns → Clusters → Option Cluster × Cooldowns × Clusters
  populate_service_id unverified = populate_canonical (canonical unverified)
