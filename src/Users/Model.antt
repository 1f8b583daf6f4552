-- ===== src/Users/Model.antt =====
-- models/user.py: saving a user. Only what concerns the password, the cached gateway token and the
-- table is modelled; what the library's `save` writes besides is left out, and so is the role of a
-- platform auditor, which is given to a new user after the save.
pub mod Saved
pub mod Written
pub mod Tokens
use jewel.Prelude.{
  ℕ, ◌+◌, ◌==◌, Bool, true, false, not, ◌&&◌, ◌||◌, Text, text_eq, starts_with, is_member, length,
  Option, none, some, List, [], ◌∷◌, map, any, if◌then◌else◌,
}
use jewel.Proxy.Session.{Cache, Issuer, invalidate_cached_jwt}
use jewel.Users.{User, Rows}

-- Django's password hashers: the algorithm that `identify_hasher` finds, the algorithms that are
-- loaded, and what `make_password` returns.
pub record Hashers : Type 0 where
  pub unusable_prefix : Text
  pub unusable_suffix_length : ℕ
  pub identify_hasher : Text → Option Text
  pub algorithms : List Text
  pub make_password : Option Text → Text

module _ (H : Hashers) where
  abbrev is_loaded : Option Text → Bool
  is_loaded none = false
  is_loaded (some algorithm) = is_member algorithm H.algorithms

  unfoldable pub password_is_hashed : Option Text → Bool
  password_is_hashed none = false
  password_is_hashed (some password) = is_loaded (H.identify_hasher password)

  unfoldable pub password_is_usable : Option Text → Bool
  password_is_usable none = true
  password_is_usable (some password) = not (
      starts_with password H.unusable_prefix
      && length password == length H.unusable_prefix + H.unusable_suffix_length)

  abbrev pub none_if_empty : Option Text → Option Text
  none_if_empty (some []) = none
  none_if_empty p = p

  abbrev hash_password : Option Text → Option Text
  hash_password p =
      if password_is_usable p && not (password_is_hashed p) then some (H.make_password p) else p

  -- The password that `User.save` writes.
  unfoldable pub saved_password : Option Text → Option Text
  saved_password p = hash_password (none_if_empty p)

  unfoldable pub with_saved_password : User → User
  with_saved_password u = record u { password = saved_password u.password }

abbrev same_email : Option Text → Option Text → Bool
same_email none none = true
same_email none (some t) = false
same_email (some s) none = false
same_email (some s) (some t) = text_eq s t

abbrev same_bool : Bool → Bool → Bool
same_bool true b = b
same_bool false b = not b

-- `fields_changed`, of the fields when the instance was made and now
unfoldable pub fields_changed : User → User → Bool
fields_changed original u =
    not (text_eq original.username u.username)
    || not (text_eq original.first_name u.first_name)
    || not (text_eq original.last_name u.last_name)
    || not (same_email original.email u.email)
    || not (same_bool original.is_superuser u.is_superuser)

-- A model instance: `_original_fields` is set when it is made, and never after that.
pub record Instance : Type 0 where
  pub original : User
  pub user : User

-- The columns that `save(update_fields=…)` writes.
pub data Columns : Type 0 where
  all_columns : Columns
  email_column : Columns

abbrev pub write_user : Columns → User → User → User
write_user all_columns u v = if v.pk == u.pk then u else v
write_user email_column u v = if v.pk == u.pk then record v { email = u.email } else v

module _ (H : Hashers) (C : Cache) (I : Issuer) where
  -- The table of users, that of their accounts, and the cache of gateway tokens.
  pub record State : Type 0 where
    pub users : List User
    pub rows : Rows
    pub cache : C.State

  abbrev cache_after : Instance → State → C.State
  cache_after i s =
      if not i.user.managed && fields_changed i.original i.user
      then invalidate_cached_jwt C I i.user.pk s.cache
      else s.cache

  -- `User.save` of a user that has a primary key
  unfoldable pub save : Columns → Instance → State → Instance × State
  save columns i s =
      let u = with_saved_password H i.user in
      (
        record i { user = u },
        record s { users = map (write_user columns u) s.users; cache = cache_after i s },
      )
