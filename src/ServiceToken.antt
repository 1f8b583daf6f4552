-- ===== src/ServiceToken.antt =====
-- Service tokens: aap_gateway_api/utils/service_token.py. PyJWT, UUID parsing, the user table and
-- the metadata endpoint are parameters; the table of clusters and the cooldowns are state.
pub mod Keys
pub mod Validate
mod Tests
use jewel.Prelude.{
  ℕ, Bool, true, false, Text, text, text_eq, has_part, Option, none, some, List, [], ◌∷◌, keep, ltb,
  leb, if◌then◌else◌,
}
use jewel.ServiceIdSync.{Cluster, Clusters, Cooldowns, Metadata, populate_service_id}

pub record ServiceKey : Type 0 where
  pub secret : Text
  pub algorithm : Text
  pub is_active : Bool
  pub created : ℕ

pub record Payload : Type 0 where
  pub iss : Text
  pub sub : Option Text
  pub token_type : Option Text

pub data Result {ℓ} (A : Type ℓ) : Type ℓ where
  ok : A → Result A
  -- Django's `ValidationError`
  invalid : Result A
  -- any other exception
  error : Result A

infixl 5 ◌>>=◌ ◌>>◌
abbrev pub ◌>>=◌ {ℓ κ} : {A : Type ℓ} {B : Type κ} → Result A → (A → Result B) → Result B
ok a >>= f = f a
invalid >>= f = invalid
error >>= f = error

abbrev pub ◌>>◌ {ℓ} : {B : Type ℓ} → Result (Unit {0}) → Result B → Result B
m >> k = m >>= λ _. k

-- `if not …: raise ValidationError`
abbrev pub guard : Bool → Result (Unit {0})
guard true = ok tt
guard false = invalid

-- `order_by("-created")`
insert_key : ServiceKey → List ServiceKey → List ServiceKey
insert_key k [] = k ∷ []
insert_key k (j ∷ keys) = if leb j.created k.created then k ∷ j ∷ keys else j ∷ insert_key k keys

newest_first : List ServiceKey → List ServiceKey
unfolding insert_key
newest_first [] = []
newest_first (k ∷ keys) = insert_key k (newest_first keys)

-- `service_keys.filter(is_active=True).order_by("-created")`
unfoldable pub active_keys : List ServiceKey → List ServiceKey
unfolding newest_first
active_keys keys = newest_first (keep (λ k. k.is_active) keys)

pub record Env : Type 1 where
  pub User : Type 0
  -- `jwt.decode` without a signature check: the issuer, or none for a `PyJWTError`
  pub decode_unverified : Text → Option Text
  -- `decode_complete` with a secret and an algorithm; none for a `PyJWTError`
  pub decode : Text → Text → Text → Option Payload
  pub canonical : Text → Option Text
  pub metadata : Cluster → Metadata
  pub meanwhile : Cluster → Clusters → Clusters
  pub api_routes : List Cluster
  pub keys : ℕ → List ServiceKey
  pub user_by_ansible_id : Text → Option User
  pub system_user : Option User

-- The state of the process and of the table.
pub record State : Type 0 where
  pub cooldowns : Cooldowns
  pub clusters : Clusters

-- `objects.get(service_id=id)`
unfoldable pub cluster_by_id : Text → Clusters → Option Cluster
cluster_by_id id [] = none
cluster_by_id id (c ∷ cs) = elim c.service_id [
  | none ↦ cluster_by_id id cs
  | some u ↦ if text_eq u id then some c else cluster_by_id id cs
]

abbrev pub same_type : Option Text → Option Text → Bool
same_type none none = true
same_type none (some t) = false
same_type (some r) none = false
same_type (some r) (some t) = text_eq r t

module _ (E : Env) where
  -- The cross-check of the verified issuer, and the `break`.
  abbrev pub cross_check : Text → ServiceKey → Payload → Result (Payload × ServiceKey)
  cross_check unverified k p = if text_eq p.iss unverified then ok (p, k) else invalid

  -- The loop of `_verify_token_signature`, and the test after it.
  unfoldable pub try_keys : Text → Text → List ServiceKey → Result (Payload × ServiceKey)
  try_keys token unverified [] = invalid
  try_keys token unverified (k ∷ keys) = elim (E.decode token k.secret k.algorithm) [
    | none ↦ try_keys token unverified keys
    | some p ↦ cross_check unverified k p
  ]

  unfoldable pub verify_token_signature : Text → Cluster → Text → Result (Payload × ServiceKey)
  verify_token_signature token cluster unverified =
      try_keys token unverified (active_keys (E.keys cluster.pk))

  abbrev pub found_or : Result E.User → Option E.User → Result E.User
  found_or missing none = missing
  found_or missing (some user) = ok user

  -- `_get_user_from_payload`. A missing system user is no `ValidationError`.
  unfoldable pub get_user_from_payload : Payload → Result E.User
  get_user_from_payload p = elim p.sub [
    | some sub ↦ found_or invalid (E.user_by_ansible_id sub)
    | none ↦ found_or error E.system_user
  ]

  pub record ValidatedToken : Type 0 where
    pub user : E.User
    pub service_cluster : Cluster
    pub payload : Payload
    pub key : ServiceKey

  abbrev pub with_user : Cluster → Payload → ServiceKey → E.User → ValidatedToken
  with_user c p k user = record { user = user; service_cluster = c; payload = p; key = k }

  -- What follows a verified signature.
  abbrev pub validate_payload : Option Text → Cluster → Payload × ServiceKey → Result ValidatedToken
  validate_payload required c (p, k) = do
    guard (same_type required p.token_type)
    user ← get_user_from_payload p
    ok (with_user c p k user)

  -- What follows once the cluster is known.
  unfoldable pub validate_for_cluster : Text → Option Text → Text → Cluster → Result ValidatedToken
  validate_for_cluster token required unverified c =
      verify_token_signature token c unverified >>= validate_payload required c

  abbrev pub validate_found : Text → Option Text → Text → Option Cluster → Result ValidatedToken
  validate_found token required unverified none = invalid
  validate_found token required unverified (some c) =
      validate_for_cluster token required unverified c

  abbrev pub validate_lookup :
      Text → Option Text → Text → ℕ → State → Option Cluster → Result ValidatedToken × State
  validate_lookup token required iss now s (some c) = (validate_for_cluster token required iss c, s)
  validate_lookup token required iss now s none =
      let (found, d, cs) =
        populate_service_id E.canonical E.metadata E.meanwhile iss now E.api_routes s.cooldowns
          s.clusters in
      (validate_found token required iss found, record { cooldowns = d; clusters = cs })

  -- The lookup by a UUID column raises a `ValidationError` for an issuer that is no UUID.
  abbrev pub validate_issuer :
      Text → Option Text → Text → ℕ → State → Option Text → Result ValidatedToken × State
  validate_issuer token required iss now s none = (invalid, s)
  validate_issuer token required iss now s (some id) =
      validate_lookup token required iss now s (cluster_by_id id s.clusters)

  abbrev pub validate_unverified :
      Text → Option Text → ℕ → State → Option Text → Result ValidatedToken × State
  validate_unverified token required now s none = (invalid, s)
  validate_unverified token required now s (some iss) =
      validate_issuer token required iss now s (E.canonical iss)

  -- `validate_service_token`, at a reading of the clock.
  unfoldable pub validate_service_token :
      Text → Option Text → ℕ → State → Result ValidatedToken × State
  validate_service_token token required now s =
      validate_unverified token required now s (E.decode_unverified token)

-- `classify_backend`
unfoldable pub classify_backend : Option Text → Option Text
classify_backend none = none
classify_backend (some b) =
    if has_part (text "LDAPBackend") b
    then some (text "ldap")
    else if has_part (text "RADIUSBackend") b
    then some (text "radius")
    else if has_part (text "TACACSPlusBackend") b
    then some (text "tacacs+")
    else if has_part (text "ModelBackend") b
    then some (text "local")
    else if has_part (text "PrefixedUserAuthBackend") b
    then some (text "local")
    else some b
