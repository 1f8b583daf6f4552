-- ===== src/Routes/Listener.antt =====
-- The routes of a port's listener, in the order in which Envoy tries them.
use jewel.Prelude.{
  Bool, false, ◌&&◌, Text, text, starts_with, leb, none, List, [], ◌∷◌, ◌++◌, map, if◌then◌else◌,
  ◌==◌,
}
use jewel.Prelude.Dict.{Dict, insert}
use jewel.Routes.{
  Route, Env, GatewayName, prefix, path, disabled, direct_response, redirect, EnvoyRoute, Match,
  Action, strip_slashes, get_xds_route_config,
}

pub record HttpPort : Type 0 where
  pub is_api_port : Bool
  pub routes : List Route

-- A route without external authorisation.
abbrev pub open_route : Match → Action → EnvoyRoute
open_route m a = record {
  match_on = m;
  tls_required = false;
  action = a;
  lua = none;
  ext_auth = disabled;
  request_headers_to_remove = [];
  subject_added = false;
}

unfoldable pub up_route : EnvoyRoute
up_route = open_route (prefix (text "/up")) (direct_response 200 (text "UP"))

-- `redirect_route` of xds_configs.py
abbrev pub redirect_route : Text × Text → EnvoyRoute
redirect_route (p, target) = open_route (path p) (redirect target)

-- `s.endswith("/")`
unfoldable pub ends_with_slash : Text → Bool
ends_with_slash [] = false
ends_with_slash (c ∷ []) = c == b'/'
ends_with_slash (c ∷ d ∷ s) = ends_with_slash (d ∷ s)

abbrev pub is_redirected : Route → Bool
is_redirected r = starts_with r.gateway_path (text "/api/") && ends_with_slash r.gateway_path

-- The dict `redirects` after its update.
unfoldable pub redirects : List Route → Dict Text → Dict Text
redirects [] d = d
redirects (r ∷ routes) d =
    redirects routes
      (if is_redirected r then insert (strip_slashes r.gateway_path) r.gateway_path d else d)

unfoldable pub redirect_routes : List Route → List EnvoyRoute
redirect_routes routes = map redirect_route (redirects routes ((text "/api", text "/api/") ∷ []))

-- `sorted(…, key=lambda r: r.order)`: routes of the same order stay as they are.
unfoldable pub insert_route : Route → List Route → List Route
insert_route r [] = r ∷ []
insert_route r (q ∷ routes) =
    let rest = insert_route r routes in if leb r.order q.order then r ∷ q ∷ routes else q ∷ rest

unfoldable pub sorted_routes : List Route → List Route
sorted_routes [] = []
sorted_routes (r ∷ routes) = insert_route r (sorted_routes routes)

unfoldable pub all_route_configs : Env → GatewayName → List Route → List EnvoyRoute
all_route_configs E name [] = []
all_route_configs E name (r ∷ routes) =
    get_xds_route_config E name r ++ all_route_configs E name routes

-- The routes of `get_xds_listener_config`
unfoldable pub get_xds_listener_routes : Env → GatewayName → HttpPort → List EnvoyRoute
get_xds_listener_routes E name port =
    let routes = sorted_routes port.routes in
    up_route
    ∷ ((if port.is_api_port then redirect_routes routes else []) ++ all_route_configs E name routes)
