-- ===== src/UserMerge/Groups.antt =====
-- aap_gateway_api/management/commands/_migrate_service_data/user_merge.py: the partially migrated
-- users, grouped by their service types, correlated by their names and merged group by group.
use jewel.Prelude.{
  ℕ, suc, Bool, false, not, Text, text, text_eq, strip_prefix, Option, none, some, List, [], ◌∷◌,
  ◌++◌, keep, length, or_default, ◌==◌, ◌+◌, if◌then◌else◌,
}
use jewel.Prelude.Dict.{Dict, lookup, insert}
use jewel.UserMerge.{
  User, Tables, Env, Outcome, can_accounts_be_merged, migrate_account, link_account,
}

-- `SERVICE_TYPE_ORDER` of migrate_service_data.py
abbrev pub service_type_order : List Text
service_type_order = text "controller" ∷ text "hub" ∷ text "eda" ∷ text "metrics" ∷ []

-- A service: the id of its cluster, if it has one, and the name of its type.
pub record ServiceApi : Type 0 where
  pub service_id : Option Text
  pub service_type : Text

-- `d[k].append(v)`, on an entry that is made if it is missing
abbrev pub append_to : Text → User → Dict (List User) → Dict (List User)
append_to k u d = insert k (or_default (lookup k d) [] ++ u ∷ []) d

abbrev pub add_type : Option Text → Text → Dict Text → Dict Text
add_type none service_type d = d
add_type (some id) service_type d = insert id service_type d

-- The dict `service_id_to_type`; a cluster without an id is the id of no user.
unfoldable pub service_id_to_type : List ServiceApi → Dict Text → Dict Text
service_id_to_type [] d = d
service_id_to_type (api ∷ apis) d =
    service_id_to_type apis (add_type api.service_id api.service_type d)

abbrev pub append_known : Option Text → User → Dict (List User) → Option (Dict (List User))
append_known none u d = none
append_known (some service_type) u d =
    if text_eq service_type [] then none else some (append_to service_type u d)

abbrev pub then_group :
    Option (Dict (List User))
    → (Dict (List User) → Option (Dict (List User)))
    → Option (Dict (List User))
then_group none next = none
then_group (some d) next = next d

-- The dict `all_users`: none if the type of a user's service is not known.
unfoldable pub group_by_type : Dict Text → List User → Dict (List User) → Option (Dict (List User))
group_by_type types [] d = some d
group_by_type types (u ∷ users) d =
    then_group (append_known (lookup u.service_id types) u d) (group_by_type types users)

abbrev pub eda_or_whole : Option Text → Text → Text
eda_or_whole none username = username
eda_or_whole (some rest) username = rest

abbrev pub galaxy_or_eda : Option Text → Text → Text
galaxy_or_eda none username = eda_or_whole (strip_prefix (text "eda_") username) username
galaxy_or_eda (some rest) username = rest

-- The name without the first of the known prefixes that it has.
unfoldable pub base_username : Text → Text
base_username username = galaxy_or_eda (strip_prefix (text "galaxy_") username) username

unfoldable pub correlate_users : List User → Dict (List User) → Dict (List User)
correlate_users [] groups = groups
correlate_users (u ∷ users) groups =
    correlate_users users (append_to (base_username u.username) u groups)

-- `_correlate_users_across_services`, by the types that are left in the order
unfoldable pub correlate_types : List Text → Dict (List User) → Dict (List User) → Dict (List User)
correlate_types [] all_users groups = groups
correlate_types (t ∷ types) all_users groups =
    correlate_types types all_users (correlate_users (or_default (lookup t all_users) []) groups)

abbrev pub correlate_users_across_services : Dict (List User) → Dict (List User)
correlate_users_across_services all_users = correlate_types service_type_order all_users []

-- The accounts that cannot be merged: none if the check raises.
abbrev pub count_conflict : Option Bool → Option ℕ → Option ℕ
count_conflict none rest = none
count_conflict (some mergeable) none = none
count_conflict (some mergeable) (some n) = if mergeable then some n else some (suc n)

unfoldable pub merge_conflicts : User → List User → Tables → Option ℕ
merge_conflicts main [] t = some 0
merge_conflicts main (u ∷ users) t =
    count_conflict (can_accounts_be_merged main u t) (merge_conflicts main users t)

module _ (E : Env) where
  abbrev pub S : Type 0
  S = E.Services

  -- The number of merged accounts, none for an exception, with what is left.
  abbrev pub Merged : Type 0
  Merged = Option ℕ × Tables × S

  abbrev pub after_migrate : ℕ → Outcome S → Merged
  after_migrate n o =
      if o.returned then (some n, o.tables, o.services) else (none, o.tables, o.services)

  abbrev pub after_link : Outcome S → (Tables → S → Merged) → Merged
  after_link o next =
      let rest = next o.tables o.services in
      if o.returned then rest else (none, o.tables, o.services)

  -- The second loop of `_merge_user_group`, and the migration of the main user.
  unfoldable pub merge_into : User → List User → (merged_count : ℕ) → Tables → S → Merged
  merge_into main [] n t w = after_migrate (suc n) (migrate_account E main t w)
  merge_into main (u ∷ users) n t w =
      after_link (link_account E main u false none t w) (merge_into main users (suc n))

  abbrev pub merge_checked : User → List User → Option ℕ → Tables → S → Merged
  merge_checked main others none t w = (none, t, w)
  merge_checked main others (some conflicts) t w =
      let merged = merge_into main others 0 t w in if conflicts == 0 then merged else (some 0, t, w)

  -- `_merge_user_group`; an empty group has no main user.
  abbrev pub merge_user_group : List User → Tables → S → Merged
  merge_user_group [] t w = (none, t, w)
  merge_user_group (main ∷ others) t w =
      merge_checked main others (merge_conflicts main others t) t w

  abbrev pub after_group : Merged → (ℕ → Tables → S → Merged) → Merged
  after_group (none, t, w) next = (none, t, w)
  after_group (some n, t, w) next = next n t w

  unfoldable pub merge_groups : Dict (List User) → (total_merged : ℕ) → Tables → S → Merged
  merge_groups [] total t w = (some total, t, w)
  merge_groups ((name, accounts) ∷ groups) total t w =
      after_group (merge_user_group accounts t w) (λ n. merge_groups groups (total + n))

  abbrev pub check_total : ℕ → Merged → Merged
  check_total n (none, t, w) = (none, t, w)
  check_total n (some total, t, w) = if total == n then (some total, t, w) else (none, t, w)

  abbrev pub merge_typed : Option (Dict (List User)) → ℕ → Tables → S → Merged
  merge_typed none n t w = (none, t, w)
  merge_typed (some all_users) n t w =
      check_total n (merge_groups (correlate_users_across_services all_users) 0 t w)

  -- Users whose resource has another id than the gateway's.
  abbrev pub partially_migrated : List User → List User
  partially_migrated = keep (λ u. not (text_eq u.service_id E.gateway_id))

  -- `_merge_partially_migrated_users`
  unfoldable pub merge_partially_migrated_users : List ServiceApi → Tables → S → Merged
  merge_partially_migrated_users apis t w =
      let users = partially_migrated t.users in
      if length users == 0
      then (some 0, t, w)
      else merge_typed (group_by_type (service_id_to_type apis []) users []) (length users) t w
