-- ===== src/UserMerge.antt =====
-- aap_gateway_api/utils/user_migration.py: the merge of two accounts and the migration of one. The
-- tables hold what the code reads and writes of users, of the accounts that they had in other
-- services and of their authenticators; the services are behind an `Env`.
pub mod Groups
pub mod Grouped
pub mod Correlation
pub mod Accounts
pub mod Linked
pub mod Merges
pub mod Whole
mod Tests
use jewel.Prelude.{
  ℕ, Bool, true, false, not, ◌&&◌, ◌||◌, Text, text, text_eq, Option, none, some, List, [], ◌∷◌,
  ◌++◌, map, keep, any, or_default, ◌==◌, if◌then◌else◌,
}

-- A user with its resource.
pub record User : Type 0 where
  pub pk : ℕ
  pub username : Text
  pub first_name : Text
  pub last_name : Text
  pub email : Text
  pub ansible_id : Text
  pub service_id : Text
  pub is_partially_migrated : Bool

-- `MigratedUserMetadata`: an account that a user had in a service.
pub record Original : Type 0 where
  pub user : ℕ
  pub service : ℕ

pub record AuthenticatorUser : Type 0 where
  pub user : ℕ
  pub uid : Text

pub record Tables : Type 0 where
  pub users : List User
  pub original_accounts : List Original
  pub authenticator_users : List AuthenticatorUser

-- The body of an update of a service's resource; a field that is not sent is none.
pub record ResourceRequestBody : Type 0 where
  pub ansible_id : Option Text
  pub service_id : Text
  pub is_partially_migrated : Bool
  pub username : Text
  pub profile : Option (Text × Text × Text)

-- What `delete_resource` does: it returns, or raises an `HTTPError` with a status or another exception.
pub data Deletion : Type 0 where
  deleted : Deletion
  http_error : ℕ → Deletion
  raised : Deletion

-- The id of the gateway, whether a service cluster has exactly one `ServiceAPIRoute`, and the services.
pub record Env : Type 1 where
  pub Services : Type 0
  pub gateway_id : Text
  pub has_route : ℕ → Bool
  pub delete_resource : ℕ → Text → Services → Deletion × Services
  pub update_resource : ℕ → Text → ResourceRequestBody → Services → Bool × Services

-- Whether a function returns or raises, with the tables and the services that it leaves.
pub record Outcome (S : Type 0) : Type 0 where
  pub returned : Bool
  pub tables : Tables
  pub services : S

abbrev pub is_of : ℕ → Original → Bool
is_of pk o = o.user == pk

-- `can_accounts_be_merged`: none if it raises. The comparison of the keys has no effect.
unfoldable pub can_accounts_be_merged : User → User → Tables → Option Bool
can_accounts_be_merged main to_merge t =
    let services = keep (is_of main.pk) t.original_accounts in
    if any (λ o. any (λ p. p.service == o.service) services)
      (keep (is_of to_merge.pk) t.original_accounts)
    then none
    else some true

abbrev pub set_migrated : Text → User → User
set_migrated gateway_id u = record u { service_id = gateway_id; is_partially_migrated = false }

abbrev pub save_migrated : Text → ℕ → List User → List User
save_migrated gateway_id pk = map (λ u. if u.pk == pk then set_migrated gateway_id u else u)

abbrev pub give_original : ℕ → ℕ → Original → Original
give_original from to o = if o.user == from then record o { user = to } else o

-- Whether accounts can be saved as those of a user who has some already: a user has one account of a
-- service at most, and another one raises an `IntegrityError`.
unfoldable pub can_give : (originals mine : List Original) → Bool
can_give [] mine = true
can_give (o ∷ os) mine = not (any (λ p. p.service == o.service) mine) && can_give os (o ∷ mine)

abbrev pub give_authenticator : ℕ → ℕ → AuthenticatorUser → AuthenticatorUser
give_authenticator from to a = if a.user == from then record a { user = to } else a

-- `delete`, and what the database deletes with the user.
abbrev pub delete_user : ℕ → Tables → Tables
delete_user pk t = record {
  users = keep (λ u. not (u.pk == pk)) t.users;
  original_accounts = keep (λ o. not (o.user == pk)) t.original_accounts;
  authenticator_users = keep (λ a. not (a.user == pk)) t.authenticator_users;
}

-- What the transaction of `link_account` writes.
abbrev pub link_tables : User → User → (preserve_authenticators : Bool) → Tables → Tables
link_tables main to_merge preserve t = delete_user to_merge.pk (record t {
  original_accounts = map (give_original to_merge.pk main.pk) t.original_accounts;
  authenticator_users =
      if preserve
      then map (give_authenticator to_merge.pk main.pk) t.authenticator_users
      else t.authenticator_users;
})

module _ (E : Env) where
  abbrev pub S : Type 0
  S = E.Services

  abbrev pub and_then : Bool × S → (S → Bool × S) → Bool × S
  and_then (false, w) next = (false, w)
  and_then (true, w) next = next w

  -- The routes of the services of a list of accounts: false if one has none.
  unfoldable pub all_routes : List Original → Bool
  all_routes [] = true
  all_routes (o ∷ os) = E.has_route o.service && all_routes os

  abbrev pub migrated_body : User → ResourceRequestBody
  migrated_body u = record {
    ansible_id = none;
    service_id = E.gateway_id;
    is_partially_migrated = false;
    username = u.username;
    profile = some (u.first_name, u.last_name, u.email);
  }

  -- The loop of `migrate_account` over the original accounts.
  unfoldable pub update_originals : User → List Original → S → Bool × S
  update_originals u [] w = (true, w)
  update_originals u (o ∷ os) w =
      and_then
        (if E.has_route o.service
          then E.update_resource o.service u.ansible_id (migrated_body u) w
          else (false, w))
        (update_originals u os)

  -- `transaction.atomic`: an exception restores the tables.
  abbrev pub atomic : (before after : Tables) → Bool × S → Outcome S
  atomic before after (true, w) = record { returned = true; tables = after; services = w }
  atomic before after (false, w) = record { returned = false; tables = before; services = w }

  unfoldable pub migrate_account : User → Tables → S → Outcome S
  migrate_account u t w =
      if text_eq u.service_id E.gateway_id
      then record { returned = true; tables = t; services = w }
      else atomic t (record t { users = save_migrated E.gateway_id u.pk t.users })
          (update_originals u (keep (is_of u.pk) t.original_accounts) w)

  -- A 404 is as good as a deletion.
  abbrev pub after_delete : Deletion × S → (S → Bool × S) → Bool × S
  after_delete (deleted, w) next = next w
  after_delete (http_error status, w) next = if status == 404 then next w else (false, w)
  after_delete (raised, w) next = (false, w)

  abbrev pub linked_body : User → ResourceRequestBody
  linked_body main = record {
    ansible_id = some main.ansible_id;
    service_id = E.gateway_id;
    is_partially_migrated = false;
    username = main.username;
    profile = none;
  }

  -- The loop of `link_account` over the services.
  unfoldable pub link_services : User → User → List ℕ → S → Bool × S
  link_services main to_merge [] w = (true, w)
  link_services main to_merge (s ∷ ss) w =
      and_then
        (after_delete (E.delete_resource s main.ansible_id w)
          (E.update_resource s to_merge.ansible_id (linked_body main)))
        (link_services main to_merge ss)

  -- The transaction of `link_account`: the routes are looked up and the accounts saved before the
  -- services are called.
  abbrev pub link_calls : User → User → List ℕ → (originals mine : List Original) → S → Bool × S
  link_calls main to_merge services originals mine w =
      if all_routes originals && can_give originals mine
      then link_services main to_merge (services ++ map (λ o. o.service) originals) w
      else (false, w)

  unfoldable pub link_account :
      User
      → User
      → (preserve_authenticators : Bool) → (services_to_merge : Option (List ℕ)) → Tables
      → S
      → Outcome S
  link_account main to_merge preserve services t w =
      if main.pk == to_merge.pk
      then record { returned = true; tables = t; services = w }
      else atomic t (link_tables main to_merge preserve t) (
          link_calls main to_merge (or_default services [])
            (keep (is_of to_merge.pk) t.original_accounts)
            (keep (is_of main.pk) t.original_accounts) w)
