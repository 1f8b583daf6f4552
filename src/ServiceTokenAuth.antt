-- ===== src/ServiceTokenAuth.antt =====
-- aap_gateway_api/authentication/service_token_auth.py and models/migrate_data.py: the authentication
-- of requests by a service token, which is locked until the migration of the services has completed,
-- and the flag that says so with its cache. Times are in milliseconds of the process's clock.
pub mod Lock
mod Tests
use jewel.Prelude.{
  ℕ, ◌-◌, Bool, true, false, ◌&&◌, ◌||◌, Text, text, text_eq, lower, starts_with, is_member, Option,
  none, some, List, [], ◌∷◌, map, ltb, if◌then◌else◌,
}
use jewel.ServiceIdSync.{Cluster}
use jewel.ServiceToken.{
  Result, ok, invalid, error, Env, State, ValidatedToken, validate_service_token,
}

-- The attributes `_ts` and `_val` of `has_migration_completed`, of a process.
pub record FlagCache : Type 0 where
  pub ts : Option ℕ
  pub val : Option Bool

abbrev pub cache_lifetime : ℕ
cache_lifetime = 5000

-- The value of the cache, if it is there and not too old.
abbrev pub cached_since : ℕ → Option ℕ → Option Bool → Option Bool
cached_since now none val = none
cached_since now (some ts) val = if ltb (now - ts) cache_lifetime then val else none

abbrev pub read_flag : ℕ → Bool → FlagCache → Option Bool → Bool × FlagCache
read_flag now has_ran c (some val) = (val, c)
read_flag now has_ran c none = (has_ran, record { ts = some now; val = some has_ran })

-- `has_migration_completed`, by the flag of the table
unfoldable pub has_migration_completed : ℕ → (has_ran : Bool) → FlagCache → Bool × FlagCache
has_migration_completed now has_ran c = read_flag now has_ran c (cached_since now c.ts c.val)

-- `save`, in the process that saves: the flag, and no cached value.
abbrev pub save : Bool → FlagCache → Bool × FlagCache
save has_ran c = (has_ran, record c { val = none })

abbrev pub mark_migration_completed : FlagCache → Bool × FlagCache
mark_migration_completed = save true

abbrev pub mark_migration_not_completed : FlagCache → Bool × FlagCache
mark_migration_not_completed = save false

-- `X-ANSIBLE-SERVICE-AUTH`, the path and the method of a request.
pub record Request : Type 0 where
  pub service_token : Option Text
  pub path : Text
  pub method : Text

-- The root of the resource registry, and `get_relative_url`: none for a `NoReverseMatch`.
pub record Urls : Type 0 where
  pub service_index_root : Text
  pub get_relative_url : Text → Option Text → Option Text

pub record AuthorizedPath : Type 0 where
  pub view_name : Text
  pub category_slug : Option Text
  pub methods : List Text

abbrev authorized : Text → Option Text → List Text → AuthorizedPath
authorized view_name category_slug methods = record {
  view_name = view_name;
  category_slug = category_slug;
  methods = methods;
}

unfoldable pub authorized_paths : List AuthorizedPath
authorized_paths =
    authorized (text "setting-section-list") (some (text "analytics")) (text "get" ∷ [])
    ∷ authorized (text "roleuserassignment-list") none (text "get" ∷ [])
    ∷ authorized (text "authenticator-list") none (text "get" ∷ text "post" ∷ text "patch" ∷ [])
    ∷ authorized (text "authenticatormap-list") none (text "get" ∷ text "post" ∷ text "patch" ∷ [])
    ∷ authorized (text "setting-section-list") (some (text "all")) (text "get" ∷ text "put" ∷ [])
    ∷ authorized (text "ca_certificate-list") none
        (text "get" ∷ text "post" ∷ text "delete" ∷ text "patch" ∷ [])
    ∷ authorized (text "workload-identity-tokens-view") none (text "post" ∷ [])
    ∷ []

-- What becomes of the user's `resource_api_actions`.
pub data Actions : Type 0 where
  set_to : List Text → Actions
  default_to : List Text → Actions
  unchanged : Actions

unfoldable pub allowed_actions : List Text
allowed_actions =
    text "list"
    ∷ text "retrieve"
    ∷ text "service-metadata"
    ∷ text "manifest"
    ∷ text "create"
    ∷ text "update"
    ∷ text "destroy"
    ∷ text "assign"
    ∷ text "unassign"
    ∷ text "bulk_assign"
    ∷ text "bulk_unassign"
    ∷ []

abbrev pub matches : Request → Option Text → List Text → Bool
matches r none methods = false
matches r (some url) methods =
    starts_with r.path url && is_member (lower r.method) (map lower methods)

-- Whether a path of the list allows the request.
unfoldable pub any_path : Urls → Request → List AuthorizedPath → Bool
any_path urls r [] = false
any_path urls r (p ∷ paths) =
    matches r (urls.get_relative_url p.view_name p.category_slug) p.methods || any_path urls r paths

-- `is_user_authorized`: none if not
unfoldable pub is_user_authorized : Urls → Request → Option Actions
is_user_authorized urls r =
    if starts_with r.path urls.service_index_root
    then some (set_to allowed_actions)
    else if starts_with r.path (text "/api/gateway/v1/jwt_claims/")
        && text_eq (lower r.method) (text "get")
    then some (default_to (text "retrieve" ∷ []))
    else if any_path urls r authorized_paths
    then some unchanged
    else none

module _ (E : Env) where
  -- What `authenticate` does: it returns None, with or without a cluster on the request, or a user, or
  -- raises `MigrateDataNotCompleteError` or another exception.
  pub data Answer : Type 0 where
    anonymous : Answer
    unauthorized : Cluster → Answer
    authenticated : E.User → Cluster → Actions → Answer
    locked : Answer
    raised : Answer

  abbrev pub authorize : ValidatedToken E → Option Actions → Answer
  authorize t none = unauthorized t.service_cluster
  authorize t (some actions) = authenticated t.user t.service_cluster actions

  abbrev pub answer : Urls → Request → Result (ValidatedToken E) → Answer
  answer urls r (ok t) = authorize t (is_user_authorized urls r)
  answer urls r invalid = anonymous
  answer urls r error = raised

  -- The state of the process and the tables that a request meets.
  pub record World : Type 0 where
    pub has_ran : Bool
    pub cache : FlagCache
    pub tokens : State

  abbrev pub when_completed : Urls → Request → Text → ℕ → World → Bool × FlagCache → Answer × World
  when_completed urls r token now w (false, cache) = (locked, record w { cache = cache })
  when_completed urls r token now w (true, cache) =
      let (validated, tokens) = validate_service_token E token none now w.tokens in
      (answer urls r validated, record w { cache = cache; tokens = tokens })

  abbrev pub with_token : Urls → Request → Option Text → ℕ → World → Answer × World
  with_token urls r none now w = (anonymous, w)
  with_token urls r (some token) now w =
      when_completed urls r token now w (has_migration_completed now w.has_ran w.cache)

  unfoldable pub authenticate : Urls → Request → ℕ → World → Answer × World
  authenticate urls r now w = with_token urls r r.service_token now w
