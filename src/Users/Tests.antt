-- ===== src/Users/Tests.antt =====
-- A user with an account at a directory server, and the theorems at concrete requests.
use jewel.Prelude.{
  ◌≡◌, refl, true, false, Text, text, text_eq, has_part, read, leb, ◌&&◌, is_member, none, some, [],
  ◌∷◌, All, any, keep, show, inl, ◌⊎◌, if◌then◌else◌,
}
use jewel.Prelude.Dict.{insert}
use jewel.Users.{
  Authenticator, AuthenticatorUser, User, ok, raised, Env, Rows, find_authenticator,
  is_local_provider, check_uid_conflict, get_authenticator_ids, get_authenticator_uids,
  is_proper_subset, create_authenticator_user, create_at, create_row, corrected_uid, with_email,
  validate_authenticator_exists,
}
use jewel.Users.Json.{Json, str, object, Members, end, member, get, keys, equals, all_equal, count}
use jewel.Users.Associated.{
  Number, not_integer, natural, Readers, get_associated_authenticators, is_unchanged,
  validate_associated_authenticators, validate_object, entries_problems, collect,
  validate_authenticator_keys_exist, validate_authenticator_details_format, entry_problems,
  validate_single_authenticator_entry, validate_email_value,
  validate_associated_authenticators_conflicts, conflicts, conflict_of, conflict_of_uid,
  conflict_of_number,
}
use jewel.Users.Associated.Sound.{AreObjectEntries, validate_associated_authenticators-IsSound}
use jewel.Users.Associated.Raises.{validate_associated_authenticators-raises}
use jewel.Users.Password
use jewel.Users.Password.{
  Policy, is_unchecked, may_change, perform_password_validation, validate_password,
}
use jewel.Users.Password.Accepted.{Meets, IsOverridden, validate_password-IsAllowed}
use jewel.Users.Fields.{
  Data, Submission, validate_email_change, handle_partial_update, uid_conflicts,
  validate_uid_conflicts, validate_new_authenticators, validate_authenticators_and_uid, current_ids,
  validate,
}
use jewel.Users.Fields.Passed.{EmailIsAllowed, HasFreeUid, validate-IsSound}
use jewel.Users.Writes.{
  remove_authenticators, add_authenticators, save_uids, update_authenticator_uids,
  process_legacy_authenticator_fields,
}
use jewel.Users.Writes.Accounts.{HasAccount}
use jewel.Users.Writes.Legacy.{IsSettled, process_legacy_authenticator_fields-Settles}

abbrev directory : Authenticator
directory = record { id = 2; name = text "LDAP"; type = text "ldap" }

abbrev builtin : Authenticator
builtin = record { id = 1; name = text "Local"; type = text "local" }

abbrev env : Env
env = record {
  authenticators = builtin ∷ directory ∷ [];
  is_local = λ t. text_eq t (text "local");
  admits = λ r rows. true;
}

abbrev number : Text → Number
number t = if text_eq t (text "one") then not_integer else natural (read t)

abbrev readers : Readers
readers = record { int = number; is_email = λ t. has_part (text "@") t; as_text = λ v. [] }

abbrev account : AuthenticatorUser
account = record { user = 7; provider = 2; uid = text "ann"; email = none }

abbrev bobs : AuthenticatorUser
bobs = record { user = 8; provider = 2; uid = text "bob"; email = none }

abbrev rows : Rows
rows = account ∷ bobs ∷ []

abbrev details : Text → Json
details uid = object (member (text "uid") (str uid) end)

-- A new uid at the directory server.
abbrev renamed : Members
renamed = member (text "2") (details (text "anna")) end

renamed_changed : is_unchanged env readers (object renamed) (some 7) rows ≡ false
unfolding get_associated_authenticators equals all_equal count get text_eq text show insert keep
renamed_changed = refl

renamed_accepted :
    validate_associated_authenticators env readers true (object renamed) (some 7) rows
    ≡ ok (object renamed)
unfolding validate_associated_authenticators validate_object entries_problems collect
    validate_authenticator_keys_exist validate_authenticator_details_format entry_problems
    validate_single_authenticator_entry validate_email_value
    validate_associated_authenticators_conflicts conflicts conflict_of conflict_of_uid
    conflict_of_number find_authenticator check_uid_conflict get_associated_authenticators equals
    all_equal count get keys text_eq text show insert keep any read
renamed_accepted = refl

validate_associated_authenticators-IsSound_example :
    (true ≡ true)
    × AreObjectEntries env readers (some 7) rows (object renamed)
    × (object renamed ≡ object renamed)
validate_associated_authenticators-IsSound_example =
    validate_associated_authenticators-IsSound env readers (some 7) rows true (object renamed)
      (object renamed) refl renamed_changed renamed_accepted

-- The uid is given in place of the entry.
abbrev bare : Members
bare = member (text "2") (str (text "anna")) end

bare_changed : is_unchanged env readers (object bare) (some 7) rows ≡ false
unfolding get_associated_authenticators equals all_equal count get text_eq text show insert keep
bare_changed = refl

validate_associated_authenticators-raises_example :
    validate_associated_authenticators env readers true (object bare) (some 7) rows ≡ raised
validate_associated_authenticators-raises_example =
    validate_associated_authenticators-raises env readers (some 7) rows bare (inl tt) bare_changed

abbrev policy : Policy
policy = record {
  password_min_length = 4;
  password_min_digits = 1;
  password_min_upper = 0;
  password_min_special = 0;
  allow_admins_to_set_insecure = true;
  encrypted_string = text "$encrypted$";
  is_digit = λ c. leb b'0' c && leb c b'9';
  is_upper = λ c. leb b'A' c && leb c b'Z';
  is_alnum = λ c. leb b'0' c;
}

abbrev by_user : Password.Request
by_user = record { is_superuser = false; instance_may_change = some true; has_username = true }

password_accepted : validate_password policy (text "pass1") by_user ≡ ok (text "pass1")
unfolding validate_password perform_password_validation keep is_member text_eq text
password_accepted = refl

validate_password-IsAllowed_example :
    (text "pass1" ≡ text "pass1")
    × ((is_unchecked policy (text "pass1") ≡ true)
        ⊎ ((may_change policy (some true) ≡ true)
            × (Meets policy (text "pass1") ⊎ IsOverridden policy by_user)))
validate_password-IsAllowed_example =
    validate_password-IsAllowed policy (text "pass1") (text "pass1") by_user password_accepted

abbrev ann : User
ann = record {
  pk = 7;
  username = text "ann";
  first_name = [];
  last_name = [];
  email = none;
  password = none;
  is_superuser = false;
  managed = false;
  last_login_from = some 2;
}

-- A change of the one account, with its uid.
abbrev uid_data : Data
uid_data = record {
  authenticators = some (2 ∷ []);
  authenticator_uid = some (text "anna");
  email = none;
}

abbrev patch : Submission
patch = record {
  partial = true;
  has_authenticators = true;
  has_authenticator_uid = true;
  has_associated_authenticators = false;
  can_change_user = some false;
}

not_fewer : is_proper_subset (2 ∷ []) (current_ids env (some ann) rows) ≡ false
unfolding is_proper_subset get_authenticator_ids keep any
not_fewer = refl

data_valid : validate env patch (some ann) rows uid_data ≡ ok uid_data
unfolding validate validate_email_change handle_partial_update validate_authenticators_and_uid
    validate_uid_conflicts uid_conflicts validate_new_authenticators is_proper_subset
    get_authenticator_ids find_authenticator check_uid_conflict keep any text_eq text
data_valid = refl

validate-IsSound_example :
    EmailIsAllowed patch (some ann) uid_data
    × HasFreeUid env rows (2 ∷ []) (some (text "anna")) (some 7)
validate-IsSound_example =
    validate-IsSound env rows patch (some ann) uid_data 2 [] refl refl not_fewer data_valid

-- The account at the directory server gives way to one at the built-in authenticator.
abbrev moved_rows : Rows
moved_rows = bobs ∷ record { user = 7; provider = 1; uid = text "ann"; email = none } ∷ []

moved :
    process_legacy_authenticator_fields env
      (some (1 ∷ []))
      (some (text "anna"))
      ann
      (some ann)
      (get_authenticator_ids 7 rows)
      rows
    ≡ ok (ann, moved_rows)
unfolding process_legacy_authenticator_fields remove_authenticators add_authenticators
    update_authenticator_uids save_uids get_authenticator_ids get_authenticator_uids
    create_authenticator_user validate_authenticator_exists create_at create_row corrected_uid
    with_email find_authenticator is_local_provider check_uid_conflict is_member keep any text_eq
    text
moved = refl

process_legacy_authenticator_fields-Settles_example :
    All (IsSettled env 7 (text "ann") (1 ∷ [])) moved_rows
    × All (λ id. HasAccount 7 id moved_rows) (1 ∷ [])
process_legacy_authenticator_fields-Settles_example =
    process_legacy_authenticator_fields-Settles env 1 [] (some (text "anna")) ann (some ann) rows
      moved
