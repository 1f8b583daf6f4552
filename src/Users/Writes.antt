-- ===== src/Users/Writes.antt =====
-- serializers/user.py: the fields `authenticators`, `authenticator_uid` and
-- `associated_authenticators` of an update are written to the rows of the user. Deprecation warnings
-- are left out.
pub mod Uids
pub mod Others
pub mod Owned
pub mod Accounts
pub mod Added
pub mod Legacy
use jewel.Prelude.{
  ℕ, Bool, true, false, not, ◌&&◌, ◌||◌, Text, text, text_eq, is_member, Option, none, some, List,
  [], ◌∷◌, ◌++◌, keep, map, ◌==◌, if◌then◌else◌,
}
use jewel.Users.{
  AuthenticatorUser, User, Result, ok, raised, ◌>>=◌, Env, Rows, difference, get_authenticator_uids,
  is_local_provider, create_authenticator_user,
}

-- `user_instance.authenticator_users.filter(provider__id=…).delete()`
abbrev pub is_at : ℕ → ℕ → AuthenticatorUser → Bool
is_at pk id r = r.user == pk && r.provider == id

-- `_remove_authenticators`
unfoldable pub remove_authenticators : List ℕ → ℕ → Rows → Rows
remove_authenticators [] pk rows = rows
remove_authenticators (id ∷ ids) pk rows =
    remove_authenticators ids pk (keep (λ r. not (is_at pk id r)) rows)

module _ (E : Env) where
  -- `_add_authenticators`
  unfoldable pub add_authenticators : List ℕ → Option Text → User → Rows → Result (User × Rows)
  add_authenticators [] uid u rows = ok (u, rows)
  add_authenticators (id ∷ ids) uid u rows =
      create_authenticator_user E id uid none u rows >>= λ s. add_authenticators ids uid s.0 s.1

  abbrev pub with_uid : (AuthenticatorUser → Text) → AuthenticatorUser → AuthenticatorUser
  with_uid f r = record r { uid = f r }

  -- `authenticator_user.save(update_fields=['uid'])` for each row of a user, in order; the rows
  -- before are done. A save that leaves the uid as it is writes nothing.
  unfoldable pub save_uids : (AuthenticatorUser → Text) → ℕ → Rows → Rows → Result Rows
  save_uids f pk done [] = ok done
  save_uids f pk done (r ∷ rows) =
      if not (r.user == pk) || text_eq (f r) r.uid
      then save_uids f pk (done ++ r ∷ []) rows
      else elim (E.admits (with_uid f r) (done ++ rows)) [
        | true ↦ save_uids f pk (done ++ with_uid f r ∷ []) rows
        | false ↦ raised
      ]

  abbrev pub local_uid : Text → AuthenticatorUser → Text
  local_uid username r = if is_local_provider E r.provider then username else r.uid

  abbrev pub new_uid : Text → Text → AuthenticatorUser → Text
  new_uid uid username r = if is_local_provider E r.provider then username else uid

  -- The uid that `_update_authenticator_uids` gives to a row.
  abbrev pub updated_uid : Option Text → List Text → Text → AuthenticatorUser → Text
  updated_uid none uids username = local_uid username
  updated_uid (some uid) uids username =
      if is_member uid uids then local_uid username else new_uid uid username

  -- `_update_authenticator_uids`
  unfoldable pub update_authenticator_uids : Option Text → User → Rows → Result Rows
  update_authenticator_uids uid u rows =
      save_uids (updated_uid uid (get_authenticator_uids u.pk rows) u.username) u.pk [] rows

  -- `user_instance.authenticator_users.get(provider=…)`: none missing, or several, which raises.
  unfoldable pub update_target : ℕ → Text → User → Rows → Rows → Result Rows
  update_target target uid u [] rows = ok rows
  update_target target uid u (r ∷ []) rows =
      save_uids (λ r. if r.provider == target then new_uid uid u.username r else r.uid) u.pk [] rows
  update_target target uid u (r ∷ q ∷ rs) rows = raised

  -- `_update_legacy_authenticator_uid`
  unfoldable pub update_legacy_authenticator_uid : Text → User → Rows → Result Rows
  update_legacy_authenticator_uid uid u rows = elim u.last_login_from [
    | none ↦ ok rows
    | some target ↦ update_target target uid u (keep (is_at u.pk target) rows) rows
  ]

  -- `user_instance.authenticator_users.all().delete()`, and `refresh_from_db`, which takes the user
  -- from the table again
  abbrev pub remove_all : Option User → ℕ → Rows → Result (User × Rows)
  remove_all none pk rows = raised
  remove_all (some u) pk rows = ok (u, keep (λ r. not (r.user == pk)) rows)

  -- `_process_legacy_authenticator_fields`; the accounts of the user before it are `existing`, and
  -- `stored` is the user in the table.
  unfoldable pub process_legacy_authenticator_fields :
      Option (List ℕ) → Option Text → User → Option User → List ℕ → Rows → Result (User × Rows)
  process_legacy_authenticator_fields (some []) uid u stored existing rows =
      remove_all stored u.pk rows
  process_legacy_authenticator_fields (some (a ∷ ids)) uid u stored existing rows =
      add_authenticators (difference (a ∷ ids) existing) uid u
        (remove_authenticators (difference existing (a ∷ ids)) u.pk rows)
      >>= λ s. update_authenticator_uids uid s.0 s.1 >>= λ rows'. ok (s.0, rows')
  process_legacy_authenticator_fields none none u stored existing rows = ok (u, rows)
  process_legacy_authenticator_fields none (some uid) u stored existing rows =
      update_legacy_authenticator_uid uid u rows >>= λ rows'. ok (u, rows')
