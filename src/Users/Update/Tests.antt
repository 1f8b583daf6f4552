-- ===== src/Users/Update/Tests.antt =====
-- An update of a user, a change of the accounts, and a run of saves and requests.
use jewel.Prelude.{
  ◌≡◌, refl, true, false, text, text_eq, has_part, starts_with, strip_prefix, read, show, is_member,
  none, some, [], ◌∷◌, ◌++◌, keep, arith, if◌then◌else◌, or_default,
}
use jewel.Prelude.Dict.{lookup, erase}
use jewel.Proxy.Session.{Issuer, session_key, cached_jwt, invalidate_cached_jwt}
use jewel.Proxy.Session.Memory.{entry_at, memory, memory-IsLawful}
use jewel.Users.{
  Authenticator, AuthenticatorUser, User, ok, Env, find_authenticator, is_local_provider,
  check_uid_conflict, get_authenticator_ids, create_authenticator_user, create_at, create_row,
  corrected_uid, with_email, validate_authenticator_exists,
}
use jewel.Users.Json.{str, object, Members, end, member, get}
use jewel.Users.Associated.{
  natural, Readers, validate_associated_authenticators_conflicts, conflicts, conflict_of,
  conflict_of_uid, conflict_of_number,
}
use jewel.Users.Model.{
  Hashers, Instance, State, all_columns, save, saved_password, with_saved_password,
  password_is_usable, password_is_hashed, fields_changed,
}
use jewel.Users.Model.Written.{IsCurrent}
use jewel.Users.Model.Tokens.{Run, start, saved, served, after_request, Run-IsCurrent}
use jewel.Users.Writes.{remove_authenticators, save_uids, process_legacy_authenticator_fields}
use jewel.Users.Writes.Others.{others}
use jewel.Users.Update.{
  entries, first_email, stored_user, add_authenticator_from_associated_field, add_entries,
  Validated, Library, process_associated_authenticators_field, update_users_authenticators,
  without_placeholder, update_local_authenticator_uid_from_username, update,
}
use jewel.Users.Update.Others.{other_users, update-KeepsOthers}
use jewel.Users.Update.Submitted.{submitted}
use jewel.Users.Update.Replaced.{process_associated_authenticators_field-rows}

abbrev directory : Authenticator
directory = record { id = 2; name = text "LDAP"; type = text "ldap" }

abbrev builtin : Authenticator
builtin = record { id = 1; name = text "Local"; type = text "local" }

abbrev env : Env
env = record {
  authenticators = builtin ∷ directory ∷ [];
  is_local = λ t. text_eq t (text "local");
  admits = λ r rows. true;
}

abbrev readers : Readers
readers = record {
  int = λ t. natural (read t);
  is_email = λ t. has_part (text "@") t;
  as_text = λ v. [];
}

-- A hash of this test is the password after the name of its algorithm.
abbrev hashers : Hashers
hashers = record {
  unusable_prefix = text "!";
  unusable_suffix_length = 40;
  identify_hasher = λ p. if starts_with p (text "h$") then some (text "h") else none;
  algorithms = text "h" ∷ [];
  make_password = λ p. text "h$" ++ or_default p [];
}

abbrev issuer : Issuer
issuer = record {
  expiration = 600;
  buffer = 10;
  gateway_service_id = text "gw";
  claims_hash = λ u. text "hash";
  encode = λ p. some (p.user_data.username);
}

abbrev ann : User
ann = record {
  pk = 7;
  username = text "ann";
  first_name = [];
  last_name = [];
  email = none;
  password = some (text "h$x");
  is_superuser = false;
  managed = false;
  last_login_from = none;
}

abbrev bob : User
bob = record ann { pk = 8; username = text "bob" }

abbrev ann_builtin : AuthenticatorUser
ann_builtin = record { user = 7; provider = 1; uid = text "ann"; email = none }

abbrev bob_builtin : AuthenticatorUser
bob_builtin = record { user = 8; provider = 1; uid = text "bob"; email = none }

abbrev before : State hashers memory issuer
before = record { users = ann ∷ bob ∷ []; rows = ann_builtin ∷ bob_builtin ∷ []; cache = [] }

abbrev instance_of_ann : Instance
instance_of_ann = record { original = ann; user = ann }

-- An account at the directory server in place of the built-in one.
abbrev at_directory : Members
at_directory = member (text "2") (object (member (text "uid") (str (text "anna")) end)) end

abbrev replaced : State hashers memory issuer
replaced = record before {
  rows = bob_builtin ∷ record { user = 7; provider = 2; uid = text "anna"; email = none } ∷ [];
}

processed :
    process_associated_authenticators_field env readers hashers memory issuer at_directory
      instance_of_ann before
    ≡ ok (instance_of_ann, replaced)
unfolding process_associated_authenticators_field validate_associated_authenticators_conflicts
    conflicts conflict_of conflict_of_uid conflict_of_number get find_authenticator
    check_uid_conflict entries first_email add_entries add_authenticator_from_associated_field
    remove_authenticators get_authenticator_ids create_authenticator_user
    validate_authenticator_exists create_at create_row corrected_uid with_email keep text_eq text
    read
processed = refl

process_associated_authenticators_field-rows_example :
    replaced.rows
    ≡ others 7 before.rows ++ submitted env readers 7 (text "ann") (entries readers at_directory)
process_associated_authenticators_field-rows_example =
    process_associated_authenticators_field-rows env readers hashers memory issuer at_directory
      instance_of_ann before processed

abbrev library : Library
library = record {
  encrypted_string = text "$encrypted$";
  assign = λ v u. record u { username = or_default v.username u.username };
  determine_username = λ username email id. username;
}

abbrev renaming : Validated
renaming = record {
  username = some (text "annie");
  password = none;
  authenticators = none;
  authenticator_uid = none;
  associated_authenticators = none;
}

abbrev annie : User
annie = record ann { username = text "annie" }

-- The uid at the built-in authenticator follows the username.
abbrev renamed : State hashers memory issuer
renamed = record {
  users = annie ∷ bob ∷ [];
  rows = record ann_builtin { uid = text "annie" } ∷ bob_builtin ∷ [];
  cache = [];
}

updated :
    update env readers hashers memory issuer library false renaming instance_of_ann before
    ≡ ok (annie, renamed)
unfolding update without_placeholder update_local_authenticator_uid_from_username save_uids
    is_local_provider find_authenticator update_users_authenticators
    process_legacy_authenticator_fields stored_user save with_saved_password saved_password
    password_is_usable password_is_hashed fields_changed invalidate_cached_jwt session_key erase
    is_member keep text_eq text show get_authenticator_ids strip_prefix
updated = refl

update-KeepsOthers_example :
    (others 7 renamed.rows ≡ others 7 before.rows)
    × (other_users 7 renamed.users ≡ other_users 7 before.users)
update-KeepsOthers_example =
    update-KeepsOthers env readers hashers memory issuer library (λ v u. refl) false renaming
      instance_of_ann before updated

-- A request of the user, whose token is cached, and then the new name.
abbrev requested : State hashers memory issuer
requested =
    after_request hashers memory issuer memory-IsLawful ann (text "id-7")
      (record { looked_up = 100; signed = 100; stored = 101 }) before

abbrev editing : Instance
editing = record { original = ann; user = annie }

nothing_cached : IsCurrent hashers memory issuer 0 before
unfolding cached_jwt lookup entry_at
nothing_cached pk now jwt le h = cc

-- The same instance is saved twice: at the second time the table no longer has what it was made with.
abbrev once : State hashers memory issuer
once = (save hashers memory issuer all_columns editing requested).1

abbrev again : Instance
again = record editing { user = record annie { first_name = text "Annie" } }

run :
    Run hashers memory issuer memory-IsLawful 0 before 101
      (save hashers memory issuer all_columns again once).1
unfolding fields_changed text_eq text
run =
    saved all_columns again
      (saved all_columns editing
        (served ann (text "id-7") (record { looked_up = 100; signed = 100; stored = 101 }) start
          (omega arith) (λ e. refl, (λ e. absurd (omega arith), tt)))
        (record { same_pk = refl; loaded = (λ same. cc); unmanaged = refl }))
      (record { same_pk = refl; loaded = (λ same. cc); unmanaged = refl })

Run-IsCurrent_example :
    IsCurrent hashers memory issuer 101 (save hashers memory issuer all_columns again once).1
Run-IsCurrent_example = Run-IsCurrent hashers memory issuer memory-IsLawful nothing_cached run
