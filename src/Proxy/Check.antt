-- ===== src/Proxy/Check.antt =====
-- `_ExternalAuth` of aap_gateway_api/proxy/control_plane.py: what the filter answers to a request.
-- Django's middleware, DRF's authentication, the OAuth2 scope test, the CSRF page and the signed
-- proxy header are parameters. Logging is left out.
pub mod Cases
pub mod Tokens
pub mod Internal
use jewel.Prelude.{
  ℕ, zero, suc, Bool, true, false, not, ◌&&◌, ◌||◌, Text, text, text_eq, starts_with, lower, take,
  Option, none, some, List, [], ◌∷◌, ◌++◌, any, if◌then◌else◌, or_default,
}
use jewel.Prelude.Dict.{lookup}
use jewel.Proxy.Request.{
  Request, Header, Response, ok_response, Outcome, returned, raised, DjangoRequest, django_request,
  extension, is_route_internal, should_reject_failed_basic_auth,
}
use jewel.Proxy.Denial.{return_no_auth_with_reason}
use jewel.Proxy.Session.{Cache, User, Issuer, Clock, get_jwt_for_user}

-- `request.auth`: a text such as SERVICE_TOKEN_AUTH_STRING, or an OAuth2 token.
pub data Auth : Type 0 where
  named : Text → Auth
  token : Text → Auth

-- What reading `drf_request.user` does: a user (or none) with `.auth`, or an exception. After an
-- `AuthenticationFailed`, DRF's `.auth` is None.
pub data Credentials : Type 0 where
  accepted : Option User → Option Auth → Credentials
  authentication_failed : Credentials
  permission_denied : Text → Credentials
  other_error : Credentials

pub record Env : Type 0 where
  -- none when building the request or a middleware raises
  pub middleware : DjangoRequest → Option DjangoRequest
  pub credentials : DjangoRequest → Credentials
  pub scope_permits : DjangoRequest → Option Auth → Bool
  pub csrf_page : DjangoRequest → Text → Text
  -- none when `generate_x_trusted_proxy_header` raises
  pub trusted_proxy : Option Text
  pub gateway_token_name : Text
  pub issuer : Issuer
  pub clock : Clock

unfoldable pub add_trusted_proxy_header : Env → List Header → List Header
add_trusted_proxy_header E headers = elim E.trusted_proxy [
  | none ↦ headers
  | some v ↦ headers ++ record { key = text "x-trusted-proxy"; value = v } ∷ []
]

unfoldable pub return_no_authentication_required : Env → List Header → Response
return_no_authentication_required E headers = ok_response (add_trusted_proxy_header E headers) [] []

unfoldable pub return_not_authenticated : Env → List Header → Response
return_not_authenticated E headers = ok_response (add_trusted_proxy_header E headers) [] []

unfoldable pub return_authenticated : Env → List Header → Response
return_authenticated E headers =
    let authorization = any (λ (h : Header). text_eq h.key (text "Authorization")) headers in
    ok_response (add_trusted_proxy_header E headers)
      (if authorization then [] else text "Authorization" ∷ []) []

unfoldable pub is_oidc_public_path : Text → Bool
is_oidc_public_path path = any (starts_with path) (
    text "/o/authorize/"
    ∷ text "/o/token/"
    ∷ text "/o/revoke_token/"
    ∷ text "/o/.well-known/"
    ∷ text "/o/userinfo/"
    ∷ [])

-- `startswith(('/api/gateway/', '/static/'))`
unfoldable pub is_gateway_path : Text → Bool
is_gateway_path path = any (starts_with path) (text "/api/gateway/" ∷ text "/static/" ∷ [])

unfoldable pub is_service_auth : Option Auth → Bool
is_service_auth none = false
is_service_auth (some (named name)) = text_eq name (text "ServiceTokenAuthentication")
is_service_auth (some (token t)) = false

-- `auth_header[:6].lower() == "basic "`
unfoldable pub is_basic_auth : DjangoRequest → Bool
is_basic_auth r =
    text_eq (lower (take 6 (or_default (lookup (text "HTTP_AUTHORIZATION") r.meta) [])))
      (text "basic ")

-- `_check_oauth2_scope_permission`: with no token there is nothing to deny.
unfoldable pub check_oauth2_scope_permission : Env → DjangoRequest → Option Auth → Option Response
check_oauth2_scope_permission E r auth = if E.scope_permits r auth then none else elim auth [
  | none ↦ none
  | some a ↦ some (
      return_no_auth_with_reason r (text "Your token has insufficient scope to perform this action")
        none 7 403)
]

abbrev pub denied_invalid : DjangoRequest → Response
denied_invalid r = return_no_auth_with_reason r (text "Invalid credentials.") none 16 401

abbrev pub denied_internal : DjangoRequest → Response
denied_internal r =
    return_no_auth_with_reason r (text "User is not authorized to reach internal route") none 16 401

module _ (C : Cache) (E : Env) where
  -- A method call on the state of the cache.
  abbrev pub Action : Type 0
  Action = C.State → Outcome × C.State

  abbrev pub respond : Response → Action
  respond r s = (returned r, s)

  -- The end of `try_authenticate_request`: the token header, or a raise if signing fails.
  abbrev pub with_jwt : Option Text × C.State → Outcome × C.State
  with_jwt (none, s) = (raised, s)
  with_jwt (some jwt, s) = (
    returned (return_authenticated E (record { key = E.gateway_token_name; value = jwt } ∷ [])),
    s,
  )

  abbrev pub authorize_scope : ℕ → User → Option Response → Action
  authorize_scope pk user (some denied) s = (returned denied, s)
  authorize_scope pk user none s = with_jwt (get_jwt_for_user C E.issuer pk user E.clock s)

  abbrev pub authorize_pk : DjangoRequest → User → Option Auth → Option ℕ → Action
  authorize_pk r user auth none s = (returned (return_not_authenticated E []), s)
  authorize_pk r user auth (some zero) s = (returned (return_not_authenticated E []), s)
  authorize_pk r user auth (some (suc n)) s =
      authorize_scope (suc n) user (check_oauth2_scope_permission E r auth) s

  -- `not user or not user.pk`, and what follows that test
  abbrev pub authorize : DjangoRequest → Option User → Option Auth → Action
  authorize r none auth s = (returned (return_not_authenticated E []), s)
  authorize r (some user) auth s = authorize_pk r user auth user.pk s

  -- `try_authenticate_request` once `.user` is read.
  abbrev pub after_user :
      (internal : Bool) → Text → DjangoRequest → Option User → Option Auth → Action
  after_user internal path r user auth =
      if internal && not (is_service_auth auth)
      then respond (denied_internal r)
      else if internal && is_gateway_path path
      then respond (return_no_authentication_required E [])
      else authorize r user auth

  -- With the handler of `PermissionDenied` in `Check`.
  unfoldable pub try_authenticate_request :
      (internal reject_basic : Bool) → Text → DjangoRequest → Credentials → Action
  try_authenticate_request internal reject_basic path r (accepted user auth) =
      after_user internal path r user auth
  try_authenticate_request internal reject_basic path r authentication_failed =
      if reject_basic && is_basic_auth r
      then respond (denied_invalid r)
      else after_user internal path r none none
  try_authenticate_request internal reject_basic path r (permission_denied reason) =
      respond (return_no_auth_with_reason r reason (some (E.csrf_page r reason)) 7 403)
  try_authenticate_request internal reject_basic path r other_error = λ s. (raised, s)

  -- The guards of `Check` that answer with no authentication, in their order.
  unfoldable pub skips_authentication : Request → Bool
  skips_authentication q =
      text_eq (extension (text "auth_type") q) (text "NONE")
      || is_oidc_public_path q.path
      || (not (is_route_internal q) && is_gateway_path q.path)

  -- `Check` with the result of `get_drf_request`.
  abbrev pub check_built : Request → Option DjangoRequest → Action
  check_built q none s = (raised, s)
  check_built q (some r) s =
      if skips_authentication q
      then (returned (return_no_authentication_required E []), s)
      else try_authenticate_request (is_route_internal q) (should_reject_failed_basic_auth q) q.path
          r (E.credentials r) s

  -- `_ExternalAuth.Check`
  unfoldable pub check : Request → Action
  check q = check_built q (E.middleware (django_request q))
