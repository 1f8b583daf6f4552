-- ===== src/ServiceToken/Tests.antt =====
-- Runs of the token validation and the theorems at concrete calls.
use jewel.Prelude.{ℕ, ◌≡◌, refl, true, Text, text, text_eq, Option, none, some, [], ◌∷◌, keep}
use jewel.ServiceIdSync.{Cluster, failed}
use jewel.ServiceToken.{
  ServiceKey, Payload, Result, ok, invalid, Env, State, active_keys, try_keys, cluster_by_id,
  verify_token_signature, get_user_from_payload, ValidatedToken, with_user, validate_for_cluster,
  validate_service_token,
}
use jewel.ServiceToken.Keys.{IsNewest}
use jewel.ServiceToken.Validate.{
  IsValid, validate_service_token_sound, validate_service_token-IsNewest,
  validate_service_token_accepts,
}

abbrev hub : Cluster
hub = record { pk = 1; service_type = text "hub"; service_id = some (text "h") }

abbrev old_key : ServiceKey
old_key = record { secret = text "old"; algorithm = text "HS256"; is_active = true; created = 1 }

abbrev new_key : ServiceKey
new_key = record { secret = text "new"; algorithm = text "HS256"; is_active = true; created = 2 }

abbrev payload : Payload
payload = record { iss = text "h"; sub = none; token_type = none }

-- A token is the secret that it was signed with.
abbrev decode : Text → Text → Text → Option Payload
decode token secret algorithm = elim (text_eq token secret) [ true ↦ some payload | _ ↦ none ]

abbrev env : Env
env = record {
  User = ℕ;
  decode_unverified = λ token. some (text "h");
  decode = decode;
  canonical = some;
  metadata = λ c. failed;
  meanwhile = λ c cs. cs;
  api_routes = [];
  keys = λ pk. old_key ∷ new_key ∷ [];
  user_by_ansible_id = λ id. none;
  system_user = some 7;
}

abbrev state : State
state = record { cooldowns = []; clusters = hub ∷ [] }

run : Text → Result (ValidatedToken env) × State
unfolding validate_service_token cluster_by_id validate_for_cluster verify_token_signature try_keys
    active_keys get_user_from_payload keep text text_eq
run token = validate_service_token env token none 0 state

abbrev accepted : ValidatedToken env
accepted = with_user env hub payload old_key 7

old_key_accepted : (run (text "old")).0 ≡ ok accepted
unfolding run
old_key_accepted = refl

unknown_key : (run (text "other")).0 ≡ invalid
unfolding run
unknown_key = refl

validate_service_token_sound_example :
    (iss : Text) × (env.decode_unverified (text "old") ≡ some iss)
    × IsValid env (text "old") none iss accepted
unfolding run
validate_service_token_sound_example =
    validate_service_token_sound env (text "old") none 0 state accepted refl

validate_service_token-IsNewest_example : IsNewest env (text "old") old_key (old_key ∷ new_key ∷ [])
unfolding run
validate_service_token-IsNewest_example =
    validate_service_token-IsNewest env (text "old") none 0 state accepted refl

validate_service_token_accepts_example :
    validate_service_token env (text "old") none 0 state ≡ (ok accepted, state)
unfolding run
validate_service_token_accepts_example =
    validate_service_token_accepts env (text "old") none 0 state (text "h") (text "h") hub payload
      old_key 7 refl refl refl ((new_key ∷ [], [], refl, (refl, tt), refl, refl), refl, refl)
