-- ===== src/ServiceTokenAuth/Tests.antt =====
-- A request before and after a run of the migration.
use jewel.Prelude.{ℕ, ◌≡◌, refl, ◌⊎◌, true, false, text, none, some, []}
use jewel.Orchestration.{Phases, Settings}
use jewel.Orchestration.Services.{handle}
use jewel.ServiceIdSync.{failed}
use jewel.ServiceToken.{Env, State}
use jewel.ServiceTokenAuth.{Request, Urls, World, locked, has_migration_completed, authenticate}
use jewel.ServiceTokenAuth.Lock.{
  IsReached, start, request, command, HasCompleted, authenticate-HasCompleted,
}

abbrev env : Env
env = record {
  User = ℕ;
  decode_unverified = λ token. none;
  decode = λ token secret algorithm. none;
  canonical = some;
  metadata = λ c. failed;
  meanwhile = λ c cs. cs;
  api_routes = [];
  keys = λ pk. [];
  user_by_ansible_id = λ id. none;
  system_user = none;
}

-- Phases with one state that all succeed.
abbrev phases : Phases
phases = record {
  State = Unit {0};
  Results = Unit {0};
  list_role_types = λ api s. none;
  list_role_permissions = λ api s. none;
  load_types = λ results s. (true, s);
  load_permissions = λ results s. (true, s);
  get_service_metadata = λ api s. none;
  has_service_type = λ name s. true;
  save_service_id = λ api id s. (true, s);
  list_own_resources = λ api id s. none;
  list_resources = λ api s. none;
  migrate_resource = λ api type s. (true, s);
  migrate_role_assignments = λ api name s. (true, s);
  has_resource_types = λ s. true;
  has_user = λ username s. true;
  delete_legacy_authenticators = λ s. (true, s);
  merge_partially_migrated_users = λ apis s. (true, s);
  ensure_superuser_consistency = λ apis s. (true, s);
}

abbrev settings : Settings
settings = record { system_username = none; shared_user = text "shared.user"; resource_types = [] }

abbrev tokens : State
tokens = record { cooldowns = []; clusters = [] }

abbrev fresh : World env
fresh = record { has_ran = false; cache = record { ts = none; val = none }; tokens = tokens }

abbrev urls : Urls
urls = record {
  service_index_root = text "/api/gateway/v1/service-index/";
  get_relative_url = λ view slug. none;
}

abbrev call : Request
call = record { service_token = some (text "t"); path = text "/"; method = text "GET" }

-- Two requests, and between them a run of the command for which no service is configured.
abbrev after_request : World env
after_request = (authenticate env urls call 10 fresh).1

abbrev after_command : World env
after_command = record after_request {
  has_ran = (handle phases settings false false (text "admin") [] after_request.has_ran tt).has_ran;
}

abbrev reached : IsReached env phases settings after_command
reached =
    command after_request false false (text "admin") [] tt
      (request fresh urls call 10 (start tokens))

authenticate-HasCompleted_example :
    (call.service_token ≡ none)
    ⊎ (((authenticate env urls call 12 after_command).0 ≡ locked)
        ⊎ HasCompleted env phases settings reached)
authenticate-HasCompleted_example =
    authenticate-HasCompleted env phases settings after_command reached urls call 12

locked_example : (authenticate env urls call 10 fresh).0 ≡ locked
unfolding authenticate has_migration_completed
locked_example = refl
