-- ===== src/UserMerge/Tests.antt =====
-- Users of the controller and of EDA, and the theorems at concrete merges.
use jewel.Prelude.{
  ℕ, suc, All, arith, ◌≡◌, refl, true, false, Text, text, text_eq, strip_prefix, none, some, List,
  [], ◌∷◌, keep, any, is_member,
}
use jewel.Prelude.Dict.{lookup, insert}
use jewel.UserMerge.{
  User, Original, Tables, Env, http_error, can_accounts_be_merged, all_routes, can_give,
  update_originals, migrate_account, link_services, link_account,
}
use jewel.UserMerge.Groups.{
  ServiceApi, service_type_order, service_id_to_type, group_by_type, base_username, correlate_users,
  correlate_types, merge_conflicts, merge_into, merge_groups, merge_partially_migrated_users,
}
use jewel.UserMerge.Merges.{IsDone}
use jewel.UserMerge.Whole.{IsOwn, merge_partially_migrated_users-IsOwn}
use jewel.UserMerge.Linked.{IsUnique, has_account, linked, outcome, all_answer, link_account-Links}

abbrev member : ℕ → Text → Text → User
member pk username service_id = record {
  pk = pk;
  username = username;
  first_name = [];
  last_name = [];
  email = [];
  ansible_id = username;
  service_id = service_id;
  is_partially_migrated = true;
}

abbrev bob : User
bob = member 1 (text "bob") (text "s1")

abbrev eda_bob : User
eda_bob = member 2 (text "eda_bob") (text "s2")

abbrev ann : User
ann = member 3 (text "ann") (text "gw")

abbrev bob_of_eda : User
bob_of_eda = member 4 (text "bob") (text "s2")

abbrev account : ℕ → ℕ → Original
account user service = record { user = user; service = service }

abbrev tables : Tables
tables = record {
  users = ann ∷ eda_bob ∷ bob ∷ [];
  original_accounts = account 1 10 ∷ account 2 20 ∷ [];
  authenticator_users = [];
}

abbrev apis : List ServiceApi
apis =
    record { service_id = some (text "s1"); service_type = text "controller" }
    ∷ record { service_id = some (text "s2"); service_type = text "eda" }
    ∷ record { service_id = none; service_type = text "hub" }
    ∷ []

-- Services that count the calls, and have no resource to delete.
abbrev env : Env
env = record {
  Services = ℕ;
  gateway_id = text "gw";
  has_route = λ cluster. true;
  delete_resource = λ cluster id w. (http_error 404, suc w);
  update_resource = λ cluster id body w. (true, suc w);
}

unique : IsUnique tables.original_accounts
unique = (((λ same. ground arith), tt), (tt, tt))

ordered : All (λ api. is_member api.service_type service_type_order ≡ true) apis
unfolding is_member text text_eq
ordered = (refl, (refl, (refl, tt)))

link_account-Links_example :
    (can_accounts_be_merged bob eda_bob tables ≡ none
      → ((outcome env bob eda_bob false none tables 0).returned ≡ false)
        × ((outcome env bob eda_bob false none tables 0).tables ≡ tables))
    × (can_accounts_be_merged bob eda_bob tables ≡ some true
        → (outcome env bob eda_bob false none tables 0).returned
          ≡ all_answer env bob eda_bob false none tables 0)
    × ((outcome env bob eda_bob false none tables 0).returned ≡ true
        → (user service : ℕ)
        → has_account user service
            (outcome env bob eda_bob false none tables 0).tables.original_accounts
          ≡ linked 2 1 user service tables.original_accounts)
link_account-Links_example = link_account-Links env bob eda_bob false none tables 0 refl unique

-- Linking them returns.
linked_example : (link_account env bob eda_bob false none tables 0).returned ≡ true
unfolding link_account link_services all_routes can_give keep any
linked_example = refl

merge_partially_migrated_users-IsOwn_example :
    IsDone env (IsOwn env) (merge_partially_migrated_users env apis tables 0)
merge_partially_migrated_users-IsOwn_example =
    merge_partially_migrated_users-IsOwn env apis tables 0 ordered

-- The merge returns with both accounts counted.
merged_example : (merge_partially_migrated_users env apis tables 0).0 ≡ some 2
unfolding merge_partially_migrated_users merge_groups merge_into merge_conflicts
    can_accounts_be_merged correlate_types correlate_users base_username group_by_type
    service_id_to_type lookup insert strip_prefix text text_eq link_account link_services all_routes
    can_give migrate_account update_originals keep any
merged_example = refl

abbrev twice : Tables
twice = record tables {
  users = bob_of_eda ∷ eda_bob ∷ bob ∷ [];
  original_accounts = account 1 10 ∷ account 2 20 ∷ account 4 20 ∷ [];
}

-- Two accounts of a group that are of one service are each checked against the main account only: the
-- first is linked, the second raises, and the merge ends there.
twice_example :
    ((merge_partially_migrated_users env apis twice 0).0 ≡ none)
    × ((merge_partially_migrated_users env apis twice 0).1.original_accounts
        ≡ account 1 10 ∷ account 2 20 ∷ account 1 20 ∷ [])
unfolding merge_partially_migrated_users merge_groups merge_into merge_conflicts
    can_accounts_be_merged correlate_types correlate_users base_username group_by_type
    service_id_to_type lookup insert strip_prefix text text_eq link_account link_services all_routes
    can_give migrate_account update_originals keep any
twice_example = (refl, refl)
