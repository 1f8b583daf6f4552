-- ===== src/Proxy/Session.antt =====
-- The gateway token of a user: aap_gateway_api/utils/jwt_token.py (`create_signed_jwt`),
-- utils/jwt_cache.py and `get_jwt_for_user` of proxy/control_plane.py. Django's cache, the signature
-- and the RBAC claims are parameters. Times are whole seconds.
pub mod Fresh
pub mod Memory
use jewel.Prelude.{
  ℕ, ◌+◌, ◌-◌, ◌≤◌, ◌≡◌, Bool, Text, text, text_eq, show, Option, none, some, List, [], ◌∷◌, ◌++◌,
  ltb, if◌then◌else◌,
}

-- Django's cache: `get` and `set` are given the time of the call.
pub record Cache : Type 1 where
  pub State : Type 0
  pub get : State → ℕ → Text → Option Text
  pub set : State → ℕ → Text → Text → ℕ → State
  pub delete : State → Text → State

-- Django's documented behaviour: an entry is gone after its timeout or its deletion, and the other
-- entries stay.
pub record IsLawful (C : Cache) : Type 0 where
  pub get-set :
      (s : C.State) (t now timeout : ℕ) (k j v : Text)
      → t ≤ now
      → C.get (C.set s t k v timeout) now j
        ≡ (if text_eq k j then (if ltb now (t + timeout) then some v else none) else C.get s now j)
  pub get-delete :
      (s : C.State) (now : ℕ) (k j : Text)
      → C.get (C.delete s k) now j ≡ (if text_eq k j then none else C.get s now j)

pub record User : Type 0 where
  pub pk : Option ℕ
  pub username : Text
  pub first_name : Text
  pub last_name : Text
  pub email : Text
  pub is_superuser : Bool
  pub ansible_id : Text

pub record UserData : Type 0 where
  pub username : Text
  pub first_name : Text
  pub last_name : Text
  pub email : Text
  pub is_superuser : Bool

-- An absent `resource_api_actions` is the empty list.
pub record Payload : Type 0 where
  pub version : Text
  pub iss : Text
  pub exp : ℕ
  pub aud : Text
  pub sub : Text
  pub service_id : Text
  pub user_data : UserData
  pub claims_hash : Text
  pub resource_api_actions : List Text

-- The preferences that are read, and what the libraries compute: `encode` is none when it raises.
pub record Issuer : Type 0 where
  pub expiration : ℕ
  pub buffer : ℕ
  pub gateway_service_id : Text
  pub claims_hash : User → Text
  pub encode : Payload → Option Text

-- The readings of the clock in one call: at the cache lookup, at signing, at storing.
pub record Clock : Type 0 where
  pub looked_up : ℕ
  pub signed : ℕ
  pub stored : ℕ

unfoldable pub payload : Issuer → User → List Text → ℕ → Payload
payload I user actions now = record {
  version = text "1";
  iss = text "ansible-issuer";
  exp = now + I.expiration;
  aud = text "ansible-services";
  sub = user.ansible_id;
  service_id = I.gateway_service_id;
  user_data = record {
    username = user.username;
    first_name = user.first_name;
    last_name = user.last_name;
    email = user.email;
    is_superuser = user.is_superuser;
  };
  claims_hash = I.claims_hash user;
  resource_api_actions = actions;
}

unfoldable pub create_signed_jwt : Issuer → User → List Text → ℕ → Option Text
create_signed_jwt I user actions now = I.encode (payload I user actions now)

unfoldable pub session_key : ℕ → Text
session_key pk = text "jwt-session-" ++ show pk

module _ (C : Cache) (I : Issuer) where
  -- `JWTSessionCache.set`. A negative timeout expires at once, as the timeout 0 does.
  unfoldable pub store_jwt : ℕ → Text → ℕ → C.State → C.State
  store_jwt pk jwt now s = C.set s now (session_key pk) jwt (I.expiration - I.buffer)

  -- `JWTSessionCache.get`
  unfoldable pub cached_jwt : ℕ → ℕ → C.State → Option Text
  cached_jwt pk now s = C.get s now (session_key pk)

  -- `invalidate_cached_jwt`, for a user that exists
  unfoldable pub invalidate_cached_jwt : ℕ → C.State → C.State
  invalidate_cached_jwt pk s = C.delete s (session_key pk)

  abbrev issue_jwt : ℕ → Option Text → ℕ → C.State → Option Text × C.State
  issue_jwt pk none now s = (none, s)
  issue_jwt pk (some jwt) now s = (some jwt, store_jwt pk jwt now s)

  -- An empty cached text is false in Python and counts as a miss.
  abbrev use_cached : ℕ → User → Clock → C.State → Option Text → Option Text × C.State
  use_cached pk user clock s (some (c ∷ jwt)) = (some (c ∷ jwt), s)
  use_cached pk user clock s _ =
      issue_jwt pk (create_signed_jwt I user [] clock.signed) clock.stored s

  -- `get_jwt_for_user`: none when signing raises.
  unfoldable pub get_jwt_for_user : ℕ → User → Clock → C.State → Option Text × C.State
  get_jwt_for_user pk user clock s = use_cached pk user clock s (cached_jwt pk clock.looked_up s)
