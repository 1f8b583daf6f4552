-- ===== src/Proxy/Tests.antt =====
-- A cache in memory, runs of the handler, and the theorems about it at concrete requests.
use jewel.Prelude.{
  ℕ, ◌≡◌, refl, true, false, Text, text, text_eq, Option, none, some, [], ◌∷◌, ◌++◌, arith, show,
  ◌⊎◌, any, strip_prefix, has_part, lower, upper, replace,
}
use jewel.Prelude.Dict.{Dict, lookup, insert, erase}
use jewel.Proxy.Request.{
  Request, Response, ok_response, denied_response, Outcome, returned, django_request, extension,
  is_route_internal, should_reject_failed_basic_auth,
}
use jewel.Proxy.Session.{
  User, Issuer, Clock, payload, session_key, get_jwt_for_user, create_signed_jwt,
  invalidate_cached_jwt, cached_jwt, store_jwt,
}
use jewel.Proxy.Session.Memory.{entry_at, memory, memory-IsLawful}
use jewel.Proxy.Session.Fresh.{IsFresh}
use jewel.Proxy.Denial.{return_no_auth_with_reason, json_details, json_string, accept}
use jewel.Proxy.Check.{
  Auth, named, token, Credentials, accepted, authentication_failed, Env, check,
  skips_authentication, add_trusted_proxy_header, is_oidc_public_path, is_gateway_path,
  try_authenticate_request, is_basic_auth, is_service_auth, check_oauth2_scope_permission,
  return_authenticated, return_not_authenticated, return_no_authentication_required,
}
use jewel.Proxy.Check.Internal.{is_service, check_internal_passes}
use jewel.Proxy.Check.Cases.{bare_response}
use jewel.Proxy.Check.Tokens.{HasToken, check_passes_cases, check-IsFresh}

abbrev alice : User
alice = record {
  pk = some 7;
  username = text "alice";
  first_name = [];
  last_name = [];
  email = [];
  is_superuser = false;
  ansible_id = text "id-" ++ show 7;
}

abbrev issuer : Issuer
issuer = record {
  expiration = 600;
  buffer = 10;
  gateway_service_id = text "gw";
  claims_hash = λ u. text "hash";
  encode = λ p. some (text "jwt-" ++ (p.sub ++ show p.exp));
}

abbrev clock : Clock
clock = record { looked_up = 100; signed = 100; stored = 101 }

abbrev env : Credentials → Env
env c = record {
  middleware = λ r. some r;
  credentials = λ r. c;
  scope_permits = λ r auth. true;
  csrf_page = λ r reason. text "<html>";
  trusted_proxy = some (text "sig");
  gateway_token_name = text "X-DAB-JW-TOKEN";
  issuer = issuer;
  clock = clock;
}

abbrev request : (internal reject : Text) → (path : Text) → Request
request internal reject path = record {
  extensions =
      (text "is_internal_route", internal)
      ∷ (text "reject_failed_basic_auth", reject)
      ∷ (text "auth_type", text "JWT")
      ∷ [];
  scheme = text "https";
  method = text "GET";
  path = path;
  query = [];
  host = text "gw";
  headers =
      (text "accept", text "application/json") ∷ (text "authorization", text "Basic abc") ∷ [];
  raw_body = [];
}

abbrev outside : Request
outside = request (text "f") (text "t") (text "/api/hub/")

abbrev inside : Request
inside = request (text "t") (text "f") (text "/api/hub/")

-- The runs below unfold all of the handler.
run : Credentials → Request → Dict (Text × ℕ) → Outcome × Dict (Text × ℕ)
unfolding check skips_authentication extension is_oidc_public_path is_gateway_path any strip_prefix
    text_eq text lookup insert erase is_route_internal should_reject_failed_basic_auth
    django_request try_authenticate_request is_basic_auth is_service_auth
    check_oauth2_scope_permission return_authenticated return_not_authenticated
    return_no_authentication_required add_trusted_proxy_header return_no_auth_with_reason
    json_details json_string accept has_part get_jwt_for_user cached_jwt store_jwt
    invalidate_cached_jwt create_signed_jwt payload session_key show lower upper replace entry_at
run c q s = check memory (env c) q s

abbrev alice_token : Credentials
alice_token = accepted (some alice) (some (token (text "t")))

-- A logged-in user gets a token under the configured name, and the token is cached.
user_passes : run alice_token outside [] ≡ (
  returned (
      ok_response
        (record { key = text "X-DAB-JW-TOKEN"; value = text "jwt-id-7700" }
          ∷ record { key = text "x-trusted-proxy"; value = text "sig" }
          ∷ [])
        (text "Authorization" ∷ [])
        []),
  (text "jwt-session-7", (text "jwt-id-7700", 691)) ∷ [],
)
unfolding run
user_passes = refl

-- A failed Basic login on a route with the rejection flag, refused in JSON.
basic_refused : run authentication_failed outside [] ≡ (
  returned (
      denied_response 16 401
        (record { key = text "content-type"; value = text "application/json" } ∷ [])
        (text "{\"details\": \"Invalid credentials.\"}")
        (text "Invalid credentials.")),
  [],
)
unfolding run
basic_refused = refl

check_internal_passes_example :
    is_service (accepted none (some (named (text "ServiceTokenAuthentication")))) ≡ true
unfolding run
check_internal_passes_example =
    check_internal_passes memory
      (env (accepted none (some (named (text "ServiceTokenAuthentication"))))) inside
      (django_request inside) [] refl refl refl refl

abbrev anonymous_route : Request
anonymous_route = request (text "f") (text "f") (text "/api/hub/")

abbrev passed : Response
passed =
    ok_response
      (record { key = text "X-DAB-JW-TOKEN"; value = text "jwt-id-7700" }
        ∷ record { key = text "x-trusted-proxy"; value = text "sig" }
        ∷ [])
      (text "Authorization" ∷ []) []

check_passes_cases_example :
    (passed ≡ bare_response memory (env alice_token))
    ⊎ HasToken memory (env alice_token) (django_request outside) alice_token [] passed
unfolding run
check_passes_cases_example =
    check_passes_cases memory (env alice_token) outside (django_request outside) [] passed refl refl
      refl

abbrev owner : ℕ → Text
owner pk = text "id-" ++ show pk

empty-IsFresh : IsFresh memory issuer owner 1 0 []
unfolding run
empty-IsFresh = λ pk now jwt le h. cc

alice-owner :
    (user : User) (auth : Option Auth) (pk : ℕ)
    → alice_token ≡ accepted (some user) auth
    → user.pk ≡ some pk
    → user.ansible_id ≡ owner pk
alice-owner user auth pk e e' = cc

check-IsFresh_example :
    IsFresh memory issuer owner 1 101 (check memory (env alice_token) outside []).1
unfolding run
check-IsFresh_example =
    check-IsFresh memory (env alice_token) owner 1 0 outside (django_request outside) []
      memory-IsLawful (omega arith) refl alice-owner (omega arith) (omega arith) (omega arith)
      (omega arith) empty-IsFresh
