-- ===== src/Routes/Clusters.antt =====
-- The Envoy cluster of a route: its name and its configuration.
use jewel.Prelude.{
  ℕ, max, Bool, true, false, not, ◌&&◌, ◌||◌, Text, text, strip, split_commas, is_member, show, ltb,
  ◌==◌, Option, none, some, List, [], ◌∷◌, ◌++◌, map, keep, any, or_default, if◌then◌else◌,
}
use jewel.Routes.{Node, ServiceCluster, Route, Env, is_set, seconds}

-- `node_tags_list` of a route, and `tags_list` of a node
unfoldable pub tags_list : Text → List Text
tags_list tags = if is_set tags then map strip (split_commas tags) else []

-- The order of texts by their code points
unfoldable pub text_leb : Text → Text → Bool
text_leb [] t = true
text_leb (c ∷ s) [] = false
text_leb (c ∷ s) (d ∷ t) = ltb c d || ((c == d) && text_leb s t)

unfoldable pub insert_text : Text → List Text → List Text
insert_text s [] = s ∷ []
insert_text s (t ∷ ts) =
    let rest = insert_text s ts in if text_leb s t then s ∷ t ∷ ts else t ∷ rest

-- `nodes.sort()`
unfoldable pub sort : List Text → List Text
sort [] = []
sort (t ∷ ts) = insert_text t (sort ts)

-- `",".join(…)`
unfoldable pub join_commas : List Text → Text
join_commas [] = []
join_commas (t ∷ []) = t
join_commas (t ∷ u ∷ ts) = t ++ b',' ∷ join_commas (u ∷ ts)

abbrev pub nodes_name : List Text → Text
nodes_name [] = text "*"
nodes_name (t ∷ ts) = join_commas (t ∷ ts)

-- The name that `save` gives to the cluster of a route.
unfoldable pub envoy_cluster_name : Route → Text
envoy_cluster_name r =
    text "cluster-"
    ++ show r.service_cluster.pk
    ++ text "-"
    ++ show r.service_port
    ++ text "-nodes:"
    ++ nodes_name (sort (tags_list r.node_tags))

-- `get_effective_health_check_timeout_seconds`, and the maximum of the routes' own timeouts
unfoldable pub max_route_timeout : List (Option ℕ) → ℕ
max_route_timeout [] = 0
max_route_timeout (t ∷ ts) = max (or_default t 0) (max_route_timeout ts)

abbrev pub get_effective_health_check_timeout_seconds : Env → ServiceCluster → ℕ
get_effective_health_check_timeout_seconds E c =
    max c.health_check_timeout_seconds (max (max_route_timeout c.route_timeouts) E.request_timeout)

abbrev pub get_effective_health_check_interval_seconds : Env → ServiceCluster → ℕ
get_effective_health_check_interval_seconds E c =
    max c.health_check_interval_seconds (get_effective_health_check_timeout_seconds E c)

-- An endpoint, with the host name and the port of its health check.
pub record Endpoint : Type 0 where
  pub address : Text
  pub port_value : ℕ
  pub health_check_config : Option (Text × ℕ)

-- Whether a node has one of the tags of the route, if it has tags.
unfoldable pub is_selected : Text → Node → Bool
is_selected node_tags n =
    not (is_set node_tags) || any (λ tag. is_member tag (tags_list n.tags)) (tags_list node_tags)

-- The host name of a node: the library's bracketed form of an IPv6 address.
abbrev pub endpoint_of : (hostname : Text → Text) → Route → Node → Endpoint
endpoint_of hostname r n = record {
  address = n.address;
  port_value = r.service_port;
  health_check_config =
      if r.service_cluster.health_checks_enabled
      then some (hostname n.address, r.service_port)
      else none;
}

pub record HealthCheck : Type 0 where
  pub timeout : Text
  pub interval : Text
  pub unhealthy_threshold : ℕ
  pub healthy_threshold : ℕ
  pub path : Text

pub record OutlierDetection : Type 0 where
  pub consecutive_5xx : ℕ
  pub interval : Text
  pub base_ejection_time : Text
  pub max_ejection_percent : ℕ
  pub split_external_local_origin_errors : Bool
  pub consecutive_local_origin_failure : ℕ
  pub enforcing_consecutive_local_origin_failure : Option ℕ

-- TLS to the service, with the server name if there is one.
pub record UpstreamTls : Type 0 where
  pub sni : Option Text

pub record ClusterConfig : Type 0 where
  pub name : Text
  pub discovery_type : Text
  pub dns_lookup_family : Text
  pub endpoints : List Endpoint
  pub healthy_panic_threshold : ℕ
  pub outlier_detection : Option OutlierDetection
  pub health_checks : Option HealthCheck
  pub transport_socket : Option UpstreamTls

unfoldable pub outlier_detection_of : ServiceCluster → OutlierDetection
outlier_detection_of c = record {
  consecutive_5xx = c.outlier_detection_consecutive_5xx;
  interval = seconds c.outlier_detection_interval_seconds;
  base_ejection_time = seconds c.outlier_detection_base_ejection_time_seconds;
  max_ejection_percent = c.outlier_detection_max_ejection_percent;
  split_external_local_origin_errors = c.outlier_detection_split_external_local_origin_errors;
  consecutive_local_origin_failure = c.outlier_detection_consecutive_local_origin_failure;
  enforcing_consecutive_local_origin_failure =
      if c.outlier_detection_consecutive_local_origin_failure == 0 then some 0 else none;
}

abbrev pub health_check_of : Env → ServiceCluster → HealthCheck
health_check_of E c = record {
  timeout = seconds (get_effective_health_check_timeout_seconds E c);
  interval = seconds (get_effective_health_check_interval_seconds E c);
  unhealthy_threshold = c.health_check_unhealthy_threshold;
  healthy_threshold = c.health_check_healthy_threshold;
  path = c.service_type.ping_url;
}

abbrev pub tls_of : ServiceCluster → UpstreamTls
tls_of c = record { sni = if is_set c.upstream_hostname then some c.upstream_hostname else none }

unfoldable pub get_xds_cluster_config : Env → (hostname : Text → Text) → Route → ClusterConfig
get_xds_cluster_config E hostname r =
    let c = r.service_cluster in
    record {
      name = r.envoy_cluster_name;
      discovery_type = c.dns_discovery_type;
      dns_lookup_family = c.dns_lookup_family;
      endpoints = map (endpoint_of hostname r) (keep (is_selected r.node_tags) c.nodes);
      healthy_panic_threshold = c.healthy_panic_threshold;
      outlier_detection =
          if c.outlier_detection_enabled then some (outlier_detection_of c) else none;
      health_checks = if c.health_checks_enabled then some (health_check_of E c) else none;
      transport_socket = if r.is_service_https then some (tls_of c) else none;
    }
