-- ===== src/Users/Update.antt =====
-- serializers/user.py: `update` and `create` of the serializer, with the field
-- `associated_authenticators`. A transaction that fails leaves the tables as they were; that it may
-- have dropped the user's cached token by then is left out, and so is the reset of the session.
pub mod Entries
mod Tests
pub mod Others
pub mod Submitted
pub mod Replaced
use jewel.Prelude.{
  ℕ, Bool, true, false, not, ◌&&◌, ◌||◌, Text, text, text_eq, Option, none, some, List, [], ◌∷◌,
  ◌++◌, keep, is_some, ◌==◌, if◌then◌else◌,
}
use jewel.Proxy.Session.{Cache, Issuer}
use jewel.Users.{
  AuthenticatorUser, User, Problem, Result, ok, invalid, raised, ◌>>=◌, Env, Rows, first,
  get_authenticator_ids, find_authenticator, is_local_provider, create_authenticator_user,
}
use jewel.Users.Json.{Json, null, str, other, object, Members, end, member, get}
use jewel.Users.Associated.{
  Number, not_integer, negative, natural, Readers, validate_associated_authenticators_conflicts,
}
use jewel.Users.Model.{Hashers, Instance, all_columns, email_column, State, save}
use jewel.Users.Password.{password_disabled}
use jewel.Users.Writes.{remove_authenticators, save_uids, process_legacy_authenticator_fields}

-- An entry of `associated_authenticators`, with `None` for what it does not have.
pub record Entry : Type 0 where
  pub key : Text
  pub uid : Option Text
  pub email : Option Text

module _ (P : Readers) where
  abbrev text_of : Option Json → Option Text
  text_of none = none
  text_of (some null) = none
  text_of (some (str s)) = some s
  text_of (some v) = some (P.as_text v)

  -- The items of the field. One that is not an object has raised in the search for conflicts.
  unfoldable pub entries : Members → List Entry
  entries end = []
  entries (member key (object ms) rest) =
      record {
        key = key;
        uid = text_of (get (text "uid") ms);
        email = text_of (get (text "email") ms);
      }
      ∷ entries rest
  entries (member key v rest) = entries rest

-- The first email that is not `None`.
unfoldable pub first_email : List Entry → Option Text
first_email [] = none
first_email (e ∷ es) = elim e.email [ none ↦ first_email es | some t ↦ some t ]

-- The user that `refresh_from_db` reads.
unfoldable pub stored_user : ℕ → List User → Option User
stored_user pk users = first (keep (λ u. u.pk == pk) users)

module _ (E : Env) (P : Readers) where
  abbrev retry_local : ℕ → Text → Option Text → User → Rows → List Problem → Result (User × Rows)
  retry_local id uid email u rows ps = elim (find_authenticator E id) [
    | none ↦ raised
    | some a ↦
        if E.is_local a.type && not (text_eq uid u.username)
        then create_authenticator_user E id (some u.username) email u rows
        else invalid ps
  ]

  abbrev or_retry :
      ℕ → Text → Option Text → User → Rows → Result (User × Rows) → Result (User × Rows)
  or_retry id uid email u rows (ok s) = ok s
  or_retry id uid email u rows raised = raised
  or_retry id uid email u rows (invalid ps) = retry_local id uid email u rows ps

  -- `_add_authenticator_from_associated_field`
  unfoldable pub add_authenticator_from_associated_field :
      ℕ → Text → Option Text → User → Rows → Result (User × Rows)
  add_authenticator_from_associated_field id uid email u rows =
      or_retry id uid email u rows (create_authenticator_user E id (some uid) email u rows)

  -- A negative id is found neither by the first lookup nor by the one in the handler.
  abbrev add_at : Number → Text → Option Text → User → Rows → Result (User × Rows)
  add_at not_integer uid email u rows = raised
  add_at negative uid email u rows = raised
  add_at (natural id) uid email u rows = add_authenticator_from_associated_field id uid email u rows

  abbrev add_entry : Text → Option Text → Option Text → User → Rows → Result (User × Rows)
  add_entry key none email u rows = ok (u, rows)
  add_entry key (some uid) email u rows = add_at (P.int key) uid email u rows

  unfoldable pub add_entries : List Entry → User → Rows → Result (User × Rows)
  add_entries [] u rows = ok (u, rows)
  add_entries (e ∷ es) u rows = add_entry e.key e.uid e.email u rows >>= λ s. add_entries es s.0 s.1

-- What the serializer has validated. `assign` is what the library sets on the user of the other
-- fields, the password included.
pub record Validated : Type 0 where
  pub username : Option Text
  pub password : Option Text
  pub authenticators : Option (List ℕ)
  pub authenticator_uid : Option Text
  pub associated_authenticators : Option Json

-- The library's functions: `setattr` of the validated fields, and `determine_username_from_uid` for a
-- username, an email and an authenticator.
pub record Library : Type 0 where
  pub encrypted_string : Text
  pub assign : Validated → User → User
  pub determine_username : Text → Option Text → ℕ → Text

module _ (E : Env) (P : Readers) (H : Hashers) (C : Cache) (I : Issuer) where
  abbrev save_email : Option Text → Instance → State H C I → Instance × State H C I
  save_email none i s = (i, s)
  save_email (some email) i s =
      save H C I email_column (record i { user = record (i.user) { email = some email } }) s

  abbrev with_rows : Instance → State H C I → Result (User × Rows) → Result (Instance × State H C I)
  with_rows i s r = r >>= λ q. ok (record i { user = q.0 }, record s { rows = q.1 })

  abbrev process_entries : List Entry → Instance → State H C I → Result (Instance × State H C I)
  process_entries es i s =
      let (i', s') = save_email (first_email es) i s in
      with_rows i' s' (add_entries E P es i'.user s'.rows)

  -- `_process_associated_authenticators_field`
  unfoldable pub process_associated_authenticators_field :
      Members → Instance → State H C I → Result (Instance × State H C I)
  process_associated_authenticators_field ms i s =
      validate_associated_authenticators_conflicts E P ms (some i.user.pk) s.rows >>= λ _.
      process_entries (entries P ms) i (record s {
        rows = remove_authenticators (get_authenticator_ids i.user.pk s.rows) i.user.pk s.rows;
      })

  -- A value without `items` raises.
  abbrev process_value : Option Json → Instance → State H C I → Result (Instance × State H C I)
  process_value none i s = ok (i, s)
  process_value (some (object ms)) i s = process_associated_authenticators_field ms i s
  process_value (some v) i s = raised

  -- `_update_users_authenticators`, where `has_associated` is whether the request has the new field
  unfoldable pub update_users_authenticators :
      (has_associated : Bool) → Validated → Instance → State H C I → Result (Instance × State H C I)
  update_users_authenticators has_associated v i s =
      with_rows i s (
        process_legacy_authenticator_fields E v.authenticators v.authenticator_uid i.user
          (stored_user i.user.pk s.users) (get_authenticator_ids i.user.pk s.rows) s.rows)
      >>= λ q. if has_associated then process_value v.associated_authenticators q.0 q.1 else ok q

  abbrev is_placeholder : Text → Option Text → Bool
  is_placeholder encrypted none = false
  is_placeholder encrypted (some p) = text_eq p encrypted || text_eq p password_disabled

  -- "We don't want the $encrypted$ password going back to the model"
  unfoldable pub without_placeholder : Text → Validated → Validated
  without_placeholder encrypted v =
      if is_placeholder encrypted v.password then record v { password = none } else v

  module _ (L : Library) where
    -- `update_local_authenticator_uid_from_username`
    unfoldable pub update_local_authenticator_uid_from_username : User → Rows → Result Rows
    update_local_authenticator_uid_from_username u rows =
        save_uids E
          (λ r.
            if is_local_provider E r.provider
            then L.determine_username u.username r.email r.provider
            else r.uid)
          u.pk [] rows

    abbrev renamed_rows : Bool → User → Rows → Result Rows
    renamed_rows true u rows = ok rows
    renamed_rows false u rows = update_local_authenticator_uid_from_username u rows

    abbrev rename : Bool → Option Text → Instance → State H C I → Result (Instance × State H C I)
    rename has_associated none i s = ok (i, s)
    rename has_associated (some name) i s =
        if text_eq i.user.username name
        then ok (i, s)
        else renamed_rows has_associated (record (i.user) { username = name }) s.rows >>= λ rows.
            ok (record i { user = record (i.user) { username = name } }, record s { rows = rows })

    abbrev refreshed : State H C I → Option User → Result (User × State H C I)
    refreshed s none = raised
    refreshed s (some u) = ok (u, s)

    -- The library's `update` and `refresh_from_db`
    abbrev save_assigned : Validated → Instance → State H C I → Result (User × State H C I)
    save_assigned v i s =
        let (i', s') = save H C I all_columns (record i { user = L.assign v i.user }) s in
        refreshed s' (stored_user i'.user.pk s'.users)

    -- `UserSerializer.update`
    unfoldable pub update :
        (has_associated : Bool) → Validated → Instance → State H C I → Result (User × State H C I)
    update has_associated v i s =
        let v' = without_placeholder L.encrypted_string v in
        rename has_associated v'.username i s
        >>= (λ q. update_users_authenticators has_associated v' q.0 q.1)
        >>= λ q. save_assigned v' q.0 q.1

  -- `UserSerializer.create`; `made` is the library's `create`.
  unfoldable pub create :
      (State H C I → Result (Instance × State H C I))
      → (has_associated : Bool) → Validated
      → State H C I
      → Result (Instance × State H C I)
  create made has_associated v s =
      made s >>= λ q. update_users_authenticators has_associated v q.0 q.1
