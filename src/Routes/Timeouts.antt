-- ===== src/Routes/Timeouts.antt =====
-- The timeouts of a cluster's health checks and of its routes.
use jewel.Prelude.{ℕ, ◌≤◌, ◌≡◌, Option, List, [], ◌∷◌, or_default, Any, arith, inl, inr}
use jewel.Routes.{Route, Env, get_effective_timeout_seconds}
use jewel.Routes.Clusters.{
  max_route_timeout, get_effective_health_check_timeout_seconds,
  get_effective_health_check_interval_seconds,
}

le-max_route_timeout :
    (t : Option ℕ) (ts : List (Option ℕ))
    → Any (λ u. u ≡ t) ts
    → or_default t 0 ≤ max_route_timeout ts
unfolding max_route_timeout
le-max_route_timeout t [] member = elim member [ ]
le-max_route_timeout t (u ∷ ts) (inl same) = rw (← same) (omega arith)
le-max_route_timeout t (u ∷ ts) (inr there) = omega (arith, le-max_route_timeout t ts there)

-- A health check of a cluster waits at least as long as each route of the cluster, and at least as long
-- as the proxy's own timeout, and the next one does not begin before it is over.
pub get_effective_timeout_bounded :
    (E : Env) (r : Route)
    → Any (λ t. t ≡ r.request_timeout_seconds) r.service_cluster.route_timeouts
    → (get_effective_timeout_seconds E r
        ≤ get_effective_health_check_timeout_seconds E r.service_cluster)
      × (get_effective_health_check_timeout_seconds E r.service_cluster
          ≤ get_effective_health_check_interval_seconds E r.service_cluster)
get_effective_timeout_bounded E r member =
    let le =
      le-max_route_timeout r.request_timeout_seconds r.service_cluster.route_timeouts member in
    (omega (arith, le), omega arith)
