-- ===== src/ServiceIdSync/Tests.antt =====
-- Runs of the probe and the theorems at concrete calls.
use jewel.Prelude.{
  ℕ, ◌*◌, ◌≡◌, refl, true, Text, text, text_eq, Option, none, some, [], ◌∷◌, arith, keep, any,
  strip,
}
use jewel.Prelude.Dict.{lookup, insert}
use jewel.ServiceIdSync.{
  Cooldowns, prune, try_issuer, check_and_set_cooldown, Cluster, Clusters, Metadata, response,
  id_of, populate_service_id, probe, is_eligible, syncable_types, fetched_service_id,
  update_null_id, has_null_id, write_id, max_clusters_to_probe,
}
use jewel.ServiceIdSync.Cooldown.{check_and_set_cooldown_limits, after_calls}
use jewel.ServiceIdSync.Probe.{Extends}
use jewel.ServiceIdSync.Populate.{Claims, populate_service_id-Claims, populate_service_id-Extends}

abbrev second : ℕ
second = 1_000_000_000

abbrev hub : Cluster
hub = record { pk = 1; service_type = text "hub"; service_id = none }

abbrev eda : Cluster
eda = record { pk = 2; service_type = text "eda"; service_id = none }

abbrev table : Clusters
table = hub ∷ eda ∷ []

-- Each service reports the name of its type as its id.
abbrev metadata : Cluster → Metadata
metadata c = response 200 c.service_type

run : Option Cluster × Cooldowns × Clusters
unfolding populate_service_id probe check_and_set_cooldown try_issuer prune is_eligible
    syncable_types fetched_service_id update_null_id has_null_id write_id id_of
    max_clusters_to_probe lookup insert keep any text text_eq strip
run = populate_service_id some metadata (λ c cs. cs) (text "eda") (100 * second) table [] table

finds_eda : run ≡ (
  some (record eda { service_id = some (text "eda") }),
  (text "eda", 100 * second) ∷ [],
  hub ∷ record eda { service_id = some (text "eda") } ∷ [],
)
unfolding run
finds_eda = refl

check_and_set_cooldown_limits_example :
    (check_and_set_cooldown (140 * second) (text "a") (
      after_calls
        ((120 * second, text "b") ∷ [])
        (check_and_set_cooldown (90 * second) (text "a") []).1)).0
    ≡ true
unfolding run
check_and_set_cooldown_limits_example =
    check_and_set_cooldown_limits (90 * second) (140 * second) (text "a")
      ((120 * second, text "b") ∷ []) [] refl (omega arith) (omega arith)

populate_service_id-Claims_example :
    (id : Text) × Claims some metadata
      (λ c cs. cs)
      (text "eda")
      (100 * second)
      table
      []
      table
      run
      (record eda { service_id = some (text "eda") })
      id
unfolding run
populate_service_id-Claims_example =
    populate_service_id-Claims some metadata (λ c cs. cs) (text "eda") (100 * second) table [] table
      (record eda { service_id = some (text "eda") }) refl

populate_service_id-Extends_example : Extends table run.2
unfolding run
populate_service_id-Extends_example =
    populate_service_id-Extends some metadata (λ c cs. cs) (text "eda") (100 * second) table []
      table (λ c cs pk id e. e)
