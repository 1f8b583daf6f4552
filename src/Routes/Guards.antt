-- ===== src/Routes/Guards.antt =====
-- Which routes of a listener are authorised externally, and with what.
use jewel.Prelude.{
  ◌≡◌, refl, ◌⊎◌, inl, inr, Bool, true, false, ◌&&◌, Text, text, text_eq, Option, none, some, List,
  [], ◌∷◌, map, All, All-append, All-mono, Any, leb, if◌then◌else◌, Bool-cases,
}
use jewel.Prelude.Dict.{Dict, lookup}
use jewel.Routes.{
  Route, Env, GatewayName, prefix, ExtAuth, disabled, check_settings, Action, direct_response,
  redirect, route, EnvoyRoute, truth_string, is_eda_service, cons_route, resolved_name,
  get_login_path, get_logout_path, login_logout_routes, get_xds_login_logout_routes, ext_auth_of,
  is_set, main_route, get_xds_route_config,
}
use jewel.Routes.Listener.{
  HttpPort, redirect_route, redirects, redirect_routes, up_route, insert_route, sorted_routes,
  all_route_configs, get_xds_listener_routes,
}
use jewel.Proxy.Request.{Request, is_route_internal, extension}

-- The action does not reach a service.
abbrev pub IsLocal : Action → Type 0
IsLocal (direct_response status body) = Unit
IsLocal (redirect target) = Unit
IsLocal (route a) = ⊥

-- What the external authorisation of a route says about a configured one: that it is off only if the
-- route wants no gateway authentication and is not EDA's, and otherwise that a request that comes with
-- its extensions is taken to be for an internal route just if the route is internal.
abbrev pub Guards : ExtAuth → Route → Type 0
Guards disabled r = (r.enable_gateway_auth ≡ false) × (is_eda_service r ≡ false)
Guards (check_settings ext) r =
    (request : Request) → request.extensions ≡ ext → is_route_internal request ≡ r.is_internal_route

-- The action sends requests to this cluster of Envoy.
abbrev pub LeadsTo : Text → Action → Type 0
LeadsTo cluster (direct_response status body) = ⊥
LeadsTo cluster (redirect target) = ⊥
LeadsTo cluster (route a) = a.cluster ≡ cluster

-- The route of the listener takes the requests of a configured one to its cluster, or those for its
-- login or logout to the gateway's.
abbrev pub Serves : Env → GatewayName → EnvoyRoute → Route → Type 0
Serves E name e r =
    ((e.match_on ≡ prefix r.gateway_path) × LeadsTo r.envoy_cluster_name e.action)
    ⊎ ((url : Text) × (cluster : Text) × (e.match_on ≡ prefix url)
        × ((get_login_path r.service_cluster r.gateway_path ≡ some url)
            ⊎ (get_logout_path r.service_cluster r.gateway_path ≡ some url))
        × (resolved_name E name ≡ some cluster)
        × LeadsTo cluster e.action)

-- The route of the listener serves a configured one, which guards it.
abbrev pub IsOf : Env → GatewayName → EnvoyRoute → Route → Type 0
IsOf E name e r = Serves E name e r × Guards e.ext_auth r

-- A route of the listener is answered by Envoy itself, or serves a configured one that guards it.
abbrev pub IsGuarded : Env → GatewayName → List Route → EnvoyRoute → Type 0
IsGuarded E name routes e = IsLocal e.action ⊎ Any (IsOf E name e) routes

first_extension-Guards :
    (r : Route) (rest : Dict Text)
    → Guards
        (check_settings ((text "is_internal_route", truth_string r.is_internal_route) ∷ rest))
        r
unfolding is_route_internal extension lookup text text_eq
first_extension-Guards r rest request e = rw (e, lookup) (go r.is_internal_route)
  where
    go : (b : Bool) → text_eq (truth_string b) (text "t") ≡ b
    go true = refl
    go false = refl

choice-Guards :
    (r : Route) (auth eda : Bool) (x y : ExtAuth)
    → Guards x r
    → Guards y r
    → (auth ≡ false → eda ≡ false → Guards disabled r)
    → Guards (if auth then x else if eda then y else disabled) r
choice-Guards r true eda x y hx hy h = hx
choice-Guards r false true x y hx hy h = hy
choice-Guards r false false x y hx hy h = h refl refl

ext_auth_of-Guards : (r : Route) → Guards (ext_auth_of r) r
unfolding ext_auth_of
ext_auth_of-Guards r =
    choice-Guards r r.enable_gateway_auth (is_eda_service r) _ _ (first_extension-Guards r _)
      (first_extension-Guards r _) (λ off other. (off, other))

-- All these routes serve a configured one and are guarded by it.
abbrev AllOf : Env → GatewayName → Route → List EnvoyRoute → Type 0
AllOf E name r = All (λ e. IsOf E name e r)

cons_route-AllOf :
    (E : Env) (name : GatewayName) (r : Route) (url : Option Text) (make : Text → EnvoyRoute)
    (routes : List EnvoyRoute)
    → ((u : Text) → url ≡ some u → IsOf E name (make u) r)
    → AllOf E name r routes
    → AllOf E name r (cons_route url make routes)
cons_route-AllOf E name r none make routes h rest = rest
cons_route-AllOf E name r (some u) make routes h rest = (h u refl, rest)

login_logout-AllOf :
    (E : Env) (name : GatewayName) (r : Route) (cluster : Option Text)
    → resolved_name E name ≡ cluster
    → AllOf E name r (login_logout_routes E r cluster)
login_logout-AllOf E name r none named = tt
login_logout-AllOf E name r (some cluster) named =
    cons_route-AllOf E name r (get_login_path r.service_cluster r.gateway_path) _ _
      (λ u e. (inr (u, cluster, refl, inl e, named, refl), first_extension-Guards r _))
      (cons_route-AllOf E name r (get_logout_path r.service_cluster r.gateway_path) _ []
        (λ u e. (inr (u, cluster, refl, inr e, named, refl), first_extension-Guards r _)) tt)

if-AllOf :
    (E : Env) (name : GatewayName) (r : Route) (b : Bool) (routes : List EnvoyRoute)
    → AllOf E name r routes
    → AllOf E name r (if b then routes else [])
if-AllOf E name r true routes h = h
if-AllOf E name r false routes h = tt

route_config-AllOf :
    (E : Env) (name : GatewayName) (r : Route) → AllOf E name r (get_xds_route_config E name r)
unfolding get_xds_route_config get_xds_login_logout_routes
route_config-AllOf E name r =
    if-AllOf E name r
      (is_set r.gateway_path && (is_set r.service_path && is_set r.envoy_cluster_name)) _
      (All-append _ _ (main_route E r ∷ [])
        (if-AllOf E name r r.enable_gateway_auth _
          (login_logout-AllOf E name r (resolved_name E name) refl))
        ((inl (refl, refl), ext_auth_of-Guards r), tt))

all_route_configs-IsOf :
    (E : Env) (name : GatewayName) (routes : List Route)
    → All (λ e. Any (IsOf E name e) routes) (all_route_configs E name routes)
unfolding all_route_configs
all_route_configs-IsOf E name [] = tt
all_route_configs-IsOf E name (r ∷ routes) =
    All-append _ (get_xds_route_config E name r) _
      (All-mono _ _ (λ e h. inl h) (get_xds_route_config E name r) (route_config-AllOf E name r))
      (All-mono _ _ (λ e h. inr h) (all_route_configs E name routes)
        (all_route_configs-IsOf E name routes))

Any-insert_route :
    (P : Route → Type 0) (r : Route) (routes : List Route)
    → Any P (insert_route r routes)
    → P r ⊎ Any P routes
unfolding insert_route
Any-insert_route P r [] h = h
Any-insert_route P r (q ∷ routes) h = elim (Bool-cases (leb r.order q.order)) [
  | inl first ↦ rw (first, insert_route) at h
  | inr later ↦ elim (rw (later, insert_route) at h) [
    | inl here ↦ inr (inl here)
    | inr there ↦ elim (Any-insert_route P r routes there) [
      | inl new ↦ inl new
      | inr old ↦ inr (inr old)
    ]
  ]
]

Any-sorted_routes :
    (P : Route → Type 0) (routes : List Route) → Any P (sorted_routes routes) → Any P routes
unfolding sorted_routes
Any-sorted_routes P [] h = h
Any-sorted_routes P (r ∷ routes) h = elim (Any-insert_route P r (sorted_routes routes) h) [
  | inl here ↦ inl here
  | inr there ↦ inr (Any-sorted_routes P routes there)
]

redirects-IsGuarded :
    (E : Env) (name : GatewayName) (routes : List Route) (d : Dict Text)
    → All (IsGuarded E name routes) (map redirect_route d)
redirects-IsGuarded E name routes [] = tt
redirects-IsGuarded E name routes ((p, target) ∷ d) = (inl tt, redirects-IsGuarded E name routes d)

if-IsGuarded :
    (E : Env) (name : GatewayName) (routes : List Route) (b : Bool) (es : List EnvoyRoute)
    → All (IsGuarded E name routes) es
    → All (IsGuarded E name routes) (if b then es else [])
if-IsGuarded E name routes true es h = h
if-IsGuarded E name routes false es h = tt

-- Each route of a listener is answered by Envoy itself, or serves a configured route of the port: it
-- takes the requests for its path to its cluster, or those for its login or logout path to the
-- gateway's cluster. If it has no external authorisation, that configured route wants no gateway
-- authentication and is not EDA's, and if it has one, the authorisation server takes its requests to
-- be internal just if that configured route is internal.
pub get_xds_listener_routes-IsGuarded :
    (E : Env) (name : GatewayName) (port : HttpPort)
    → All (IsGuarded E name port.routes) (get_xds_listener_routes E name port)
unfolding get_xds_listener_routes up_route redirect_routes
get_xds_listener_routes-IsGuarded E name port =
    let routes = sorted_routes port.routes in
    (
      inl tt,
      All-append (IsGuarded E name port.routes)
          (if port.is_api_port then redirect_routes routes else [])
          (all_route_configs E name routes)
          (if-IsGuarded E name port.routes port.is_api_port _
            (redirects-IsGuarded E name port.routes (redirects routes _)))
          (All-mono _ _ (λ e h. inr (Any-sorted_routes (IsOf E name e) port.routes h))
            (all_route_configs E name routes) (all_route_configs-IsOf E name routes)),
    )
