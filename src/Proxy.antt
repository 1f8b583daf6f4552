-- ===== src/Proxy.antt =====
-- The authorisation server behind Envoy's ext_authz filter: aap_gateway_api/proxy/control_plane.py,
-- with the JWT cache (utils/jwt_cache.py) and the token payload (utils/jwt_token.py).
pub mod Request
pub mod Denial
pub mod Session
pub mod Check
pub mod Profiling
mod Tests
