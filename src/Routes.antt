-- ===== src/Routes.antt =====
-- aap_gateway_api/models/route.py, service_cluster.py, http_port.py and utils/xds_configs.py: the
-- routes that Envoy is given for a port. A configuration is a record of the parts that differ between
-- routes; the type names of Envoy's messages are left out.
pub mod Listener
pub mod Clusters
pub mod Guards
pub mod Timeouts
pub mod Names
mod Tests
use jewel.Prelude.{
  ℕ, max, Bool, true, false, not, ◌&&◌, Text, text, text_eq, is_member, show, Option, none, some,
  List, [], ◌∷◌, ◌++◌, or_default, ◌==◌, if◌then◌else◌,
}
use jewel.Prelude.Dict.{Dict}

pub record ServiceType : Type 0 where
  pub name : Text
  pub login_path : Option Text
  pub logout_path : Option Text
  pub ping_url : Text

-- A `Node` of a cluster.
pub record Node : Type 0 where
  pub address : Text
  pub tags : Text

pub record ServiceCluster : Type 0 where
  pub pk : ℕ
  pub service_type : ServiceType
  pub auth_type : Text
  pub upstream_hostname : Text
  pub nodes : List Node
  -- the `request_timeout_seconds` of the cluster's routes
  pub route_timeouts : List (Option ℕ)
  pub health_checks_enabled : Bool
  pub health_check_timeout_seconds : ℕ
  pub health_check_interval_seconds : ℕ
  pub health_check_unhealthy_threshold : ℕ
  pub health_check_healthy_threshold : ℕ
  pub healthy_panic_threshold : ℕ
  pub dns_discovery_type : Text
  pub dns_lookup_family : Text
  pub outlier_detection_enabled : Bool
  pub outlier_detection_consecutive_5xx : ℕ
  pub outlier_detection_interval_seconds : ℕ
  pub outlier_detection_base_ejection_time_seconds : ℕ
  pub outlier_detection_max_ejection_percent : ℕ
  pub outlier_detection_split_external_local_origin_errors : Bool
  pub outlier_detection_consecutive_local_origin_failure : ℕ

pub record Route : Type 0 where
  pub service_cluster : ServiceCluster
  pub service_port : ℕ
  pub is_service_https : Bool
  pub service_path : Text
  pub gateway_path : Text
  pub enable_gateway_auth : Bool
  pub enable_mtls : Bool
  pub is_internal_route : Bool
  pub reject_failed_basic_auth : Bool
  pub envoy_cluster_name : Text
  pub order : ℕ
  pub node_tags : Text
  pub request_timeout_seconds : Option ℕ
  pub idle_timeout_seconds : Option ℕ

-- The preferences of the proxy, the URLs of `reverse`, and the name that the database gives for the
-- gateway's own Envoy cluster.
pub record Env : Type 0 where
  pub request_timeout : ℕ
  pub idle_timeout : ℕ
  pub login_url : Text
  pub logout_url : Text
  pub gateway_cluster_name : Option Text

-- The argument `gateway_cluster_name`, with `_UNSET`.
pub data GatewayName : Type 0 where
  unset : GatewayName
  given : Option Text → GatewayName

pub data Match : Type 0 where
  prefix : Text → Match
  path : Text → Match

-- The entry of the external authorisation in `typed_per_filter_config`.
pub data ExtAuth : Type 0 where
  disabled : ExtAuth
  check_settings : Dict Text → ExtAuth

pub record RouteAction : Type 0 where
  pub prefix_rewrite : Text
  pub cluster : Text
  pub timeout : Option Text
  pub idle_timeout : Option Text
  pub host_rewrite_literal : Option Text

pub data Action : Type 0 where
  direct_response : ℕ → Text → Action
  redirect : Text → Action
  route : RouteAction → Action

pub record EnvoyRoute : Type 0 where
  pub match_on : Match
  pub tls_required : Bool
  pub action : Action
  -- the prefixes of the Lua filter, if the path is rewritten
  pub lua : Option (Text × Text)
  pub ext_auth : ExtAuth
  pub request_headers_to_remove : List Text
  pub subject_added : Bool

abbrev pub truth_string : Bool → Text
truth_string true = text "t"
truth_string false = text "f"

abbrev pub is_internal_route_string : Route → Text
is_internal_route_string r = truth_string r.is_internal_route

abbrev pub reject_failed_basic_auth_string : Route → Text
reject_failed_basic_auth_string r = truth_string r.reject_failed_basic_auth

abbrev pub is_eda_service : Route → Bool
is_eda_service r = text_eq r.service_cluster.service_type.name (text "eda")

-- `s.rstrip('/')`
abbrev keep_slash : ℕ → Text → Text
keep_slash c [] = if c == b'/' then [] else c ∷ []
keep_slash c (d ∷ t) = c ∷ d ∷ t

unfoldable pub strip_slashes : Text → Text
strip_slashes [] = []
strip_slashes (c ∷ s) = keep_slash c (strip_slashes s)

-- A path in an f-string, where Python writes `None` for a missing one.
abbrev pub formatted : Option Text → Text
formatted none = text "None"
formatted (some p) = p

-- `_get_auth_path`
unfoldable pub get_auth_path : ServiceType → Text → Option Text → Option Text
get_auth_path t url_prefix p =
    if is_member t.name (text "controller" ∷ text "eda" ∷ [])
    then some (strip_slashes url_prefix ++ formatted p)
    else if text_eq t.name (text "hub")
    then some (formatted p)
    else none

abbrev pub get_login_path : ServiceCluster → Text → Option Text
get_login_path c url_prefix = get_auth_path c.service_type url_prefix c.service_type.login_path

abbrev pub get_logout_path : ServiceCluster → Text → Option Text
get_logout_path c url_prefix = get_auth_path c.service_type url_prefix c.service_type.logout_path

abbrev pub seconds : ℕ → Text
seconds n = show n ++ text "s"

-- `get_effective_timeout_seconds` and `get_effective_idle_timeout_seconds`
abbrev pub get_effective_timeout_seconds : Env → Route → ℕ
get_effective_timeout_seconds E r = max (or_default r.request_timeout_seconds 0) E.request_timeout

abbrev pub get_effective_idle_timeout_seconds : Env → Route → ℕ
get_effective_idle_timeout_seconds E r = max (or_default r.idle_timeout_seconds 0) E.idle_timeout

-- The context extensions of the routes for login and logout.
abbrev pub login_extensions : Route → Dict Text
login_extensions r =
    (text "is_internal_route", is_internal_route_string r)
    ∷ (text "service_type", r.service_cluster.service_type.name)
    ∷ (text "auth_type", r.service_cluster.auth_type)
    ∷ []

abbrev pub login_route : Route → Text → Text → Text → EnvoyRoute
login_route r service_url url cluster = record {
  match_on = prefix service_url;
  tls_required = false;
  action = route (record {
    prefix_rewrite = url;
    cluster = cluster;
    timeout = none;
    idle_timeout = none;
    host_rewrite_literal = none;
  });
  lua = none;
  ext_auth = check_settings (login_extensions r);
  request_headers_to_remove = [];
  subject_added = false;
}

abbrev pub cons_route : Option Text → (Text → EnvoyRoute) → List EnvoyRoute → List EnvoyRoute
cons_route none make routes = routes
cons_route (some url) make routes = make url ∷ routes

abbrev pub resolved_name : Env → GatewayName → Option Text
resolved_name E unset = E.gateway_cluster_name
resolved_name E (given name) = name

abbrev pub login_logout_routes : Env → Route → Option Text → List EnvoyRoute
login_logout_routes E r none = []
login_logout_routes E r (some cluster) =
    cons_route (get_login_path r.service_cluster r.gateway_path)
      (λ url. login_route r url E.login_url cluster)
      (cons_route (get_logout_path r.service_cluster r.gateway_path)
        (λ url. login_route r url E.logout_url cluster) [])

unfoldable pub get_xds_login_logout_routes : Env → GatewayName → Route → List EnvoyRoute
get_xds_login_logout_routes E name r =
    if r.enable_gateway_auth then login_logout_routes E r (resolved_name E name) else []

-- The external authorisation of a route: EDA's own authentication still gets the gateway's header.
unfoldable pub ext_auth_of : Route → ExtAuth
ext_auth_of r =
    if r.enable_gateway_auth
    then check_settings (
        (text "is_internal_route", is_internal_route_string r)
        ∷ (text "reject_failed_basic_auth", reject_failed_basic_auth_string r)
        ∷ (text "service_type", r.service_cluster.service_type.name)
        ∷ (text "auth_type", r.service_cluster.auth_type)
        ∷ [])
    else if is_eda_service r
    then check_settings (
        (text "is_internal_route", is_internal_route_string r)
        ∷ (text "service_type", r.service_cluster.service_type.name)
        ∷ (text "auth_type", text "NONE")
        ∷ [])
    else disabled

abbrev pub is_set : Text → Bool
is_set t = not (text_eq t [])

abbrev pub main_route : Env → Route → EnvoyRoute
main_route E r = record {
  match_on = prefix r.gateway_path;
  tls_required = r.enable_mtls;
  action = route (record {
    prefix_rewrite = r.service_path;
    cluster = r.envoy_cluster_name;
    timeout = some (seconds (get_effective_timeout_seconds E r));
    idle_timeout = some (seconds (get_effective_idle_timeout_seconds E r));
    host_rewrite_literal =
        if is_set r.service_cluster.upstream_hostname
        then some r.service_cluster.upstream_hostname
        else none;
  });
  lua =
      if text_eq r.service_path r.gateway_path then none else some (r.gateway_path, r.service_path);
  ext_auth = ext_auth_of r;
  request_headers_to_remove = text "Subject" ∷ [];
  subject_added = r.enable_mtls;
}

unfoldable pub get_xds_route_config : Env → GatewayName → Route → List EnvoyRoute
get_xds_route_config E name r =
    if is_set r.gateway_path && (is_set r.service_path && is_set r.envoy_cluster_name)
    then get_xds_login_logout_routes E name r ++ main_route E r ∷ []
    else []
