-- ===== src/Routes/Tests.antt =====
-- A port with two routes, and the theorems at concrete routes.
use jewel.Prelude.{
  split_commas, ℕ, ◌≡◌, ◌≤◌, refl, inl, Bool, true, false, Text, text, text_eq, show, strip,
  strip_left, strip_right, is_space, is_member, strip_prefix, none, some, List, [], ◌∷◌, map, keep,
  any, All,
}
use mathlib.Core.List.{Permᴰ}
use jewel.Prelude.Dict.{insert}
use jewel.Routes.{
  ServiceCluster, Route, Env, given, EnvoyRoute, Match, prefix, path, strip_slashes, get_auth_path,
  get_xds_login_logout_routes, ext_auth_of, get_xds_route_config,
}
use jewel.Routes.Listener.{
  HttpPort, up_route, redirects, redirect_routes, ends_with_slash, insert_route, sorted_routes,
  all_route_configs, get_xds_listener_routes,
}
use jewel.Routes.Clusters.{
  tags_list, text_leb, insert_text, sort, join_commas, envoy_cluster_name,
  get_effective_health_check_timeout_seconds, get_effective_health_check_interval_seconds,
  is_selected, get_xds_cluster_config,
}
use jewel.Routes.Guards.{IsGuarded, get_xds_listener_routes-IsGuarded}
use jewel.Routes.Timeouts.{get_effective_timeout_bounded}
use jewel.Routes.Names.{envoy_cluster_name_unordered}

abbrev cluster_of : ℕ → Text → ServiceCluster
cluster_of pk name = record {
  pk = pk;
  service_type = record {
    name = name;
    login_path = some (text "login/");
    logout_path = some (text "logout/");
    ping_url = text "ping/";
  };
  auth_type = text "JWT";
  upstream_hostname = [];
  nodes =
      record { address = text "n1"; tags = text "a, b" }
      ∷ record { address = text "n2"; tags = [] }
      ∷ [];
  route_timeouts = some 90 ∷ none ∷ [];
  health_checks_enabled = true;
  health_check_timeout_seconds = 5;
  health_check_interval_seconds = 30;
  health_check_unhealthy_threshold = 3;
  health_check_healthy_threshold = 3;
  healthy_panic_threshold = 0;
  dns_discovery_type = text "STRICT_DNS";
  dns_lookup_family = text "AUTO";
  outlier_detection_enabled = false;
  outlier_detection_consecutive_5xx = 5;
  outlier_detection_interval_seconds = 10;
  outlier_detection_base_ejection_time_seconds = 30;
  outlier_detection_max_ejection_percent = 100;
  outlier_detection_split_external_local_origin_errors = true;
  outlier_detection_consecutive_local_origin_failure = 0;
}

abbrev route_of : ℕ → Text → (auth : Bool) → Text → Route
route_of order name auth node_tags = record {
  service_cluster = cluster_of order name;
  service_port = 8443;
  is_service_https = true;
  service_path = text "/api/x/";
  gateway_path = text "/api/x/";
  enable_gateway_auth = auth;
  enable_mtls = false;
  is_internal_route = true;
  reject_failed_basic_auth = false;
  envoy_cluster_name = text "cluster";
  order = order;
  node_tags = node_tags;
  request_timeout_seconds = some 90;
  idle_timeout_seconds = none;
}

abbrev env : Env
env = record {
  request_timeout = 30;
  idle_timeout = 300;
  login_url = text "/login/";
  logout_url = text "/logout/";
  gateway_cluster_name = none;
}

abbrev port : HttpPort
port = record {
  is_api_port = true;
  routes = route_of 2 (text "hub") false [] ∷ route_of 1 (text "controller") true [] ∷ [];
}

get_xds_listener_routes-IsGuarded_example :
    All
      (IsGuarded env (given (some (text "gw"))) port.routes)
      (get_xds_listener_routes env (given (some (text "gw"))) port)
get_xds_listener_routes-IsGuarded_example =
    get_xds_listener_routes-IsGuarded env (given (some (text "gw"))) port

get_effective_timeout_bounded_example :
    (90 ≤ get_effective_health_check_timeout_seconds env (cluster_of 1 (text "hub")))
    × (get_effective_health_check_timeout_seconds env (cluster_of 1 (text "hub"))
        ≤ get_effective_health_check_interval_seconds env (cluster_of 1 (text "hub")))
get_effective_timeout_bounded_example =
    get_effective_timeout_bounded env (route_of 1 (text "hub") true []) (inl refl)

swapped : Permᴰ (tags_list (text "b,a")) (tags_list (text "a, b"))
unfolding tags_list split_commas strip strip_left strip_right is_space text text_eq
swapped = Permᴰ.swap refl refl

envoy_cluster_name_unordered_example :
    envoy_cluster_name (route_of 1 (text "hub") true (text "b,a"))
    ≡ envoy_cluster_name (route_of 1 (text "hub") false (text "a, b"))
envoy_cluster_name_unordered_example =
    envoy_cluster_name_unordered (route_of 1 (text "hub") true (text "b,a"))
      (route_of 1 (text "hub") false (text "a, b")) refl refl swapped

name_example :
    envoy_cluster_name (route_of 1 (text "hub") true (text "b,a")) ≡ text "cluster-1-8443-nodes:a,b"
unfolding envoy_cluster_name tags_list split_commas strip strip_left strip_right is_space text
    text_eq sort insert_text text_leb join_commas show
name_example = refl

-- The routes of the port, by what they match: `/up`, the redirects, login and logout of the controller,
-- and the two routes in their order.
abbrev matched : List EnvoyRoute → List Match
matched = map (λ e. e.match_on)

routes_example :
    matched (get_xds_listener_routes env (given (some (text "gw"))) port)
    ≡ prefix (text "/up")
      ∷ path (text "/api")
      ∷ path (text "/api/x")
      ∷ prefix (text "/api/xlogin/")
      ∷ prefix (text "/api/xlogout/")
      ∷ prefix (text "/api/x/")
      ∷ prefix (text "/api/x/")
      ∷ []
unfolding get_xds_listener_routes up_route redirect_routes redirects ends_with_slash insert_route
    sorted_routes all_route_configs get_xds_route_config get_xds_login_logout_routes get_auth_path
    strip_slashes ext_auth_of insert is_member strip_prefix text text_eq
routes_example = refl

-- Of the two nodes only the first has a tag of the route.
endpoints_example :
    map
      (λ e. e.address)
      (get_xds_cluster_config env (λ a. a) (route_of 1 (text "hub") true (text "b"))).endpoints
    ≡ text "n1" ∷ []
unfolding get_xds_cluster_config is_selected tags_list split_commas strip strip_left strip_right
    is_space is_member keep any text text_eq
endpoints_example = refl
