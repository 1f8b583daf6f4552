-- ===== src/Users/Update/Entries.antt =====
-- The entries of `associated_authenticators` are written for one user: the rows of the others stay.
use jewel.Prelude.{
  ℕ, refl, not, ◌&&◌, Text, text_eq, Option, none, some, List, [], ◌∷◌, Bool-cases, Option-cases,
  inl, inr,
}
use jewel.Users.{User, Result, ok, invalid, raised, Env, Rows, find_authenticator}
use jewel.Users.Returns.{Returns, Returns-bind, Returns-all, Returns-ok}
use jewel.Users.Associated.{Number, not_integer, negative, natural, Readers}
use jewel.Users.Writes.Others.{Keeps, Keeps-trans, create_authenticator_user-Keeps}
use jewel.Users.Update.{
  Entry, retry_local, or_retry, add_authenticator_from_associated_field, add_at, add_entry,
  add_entries,
}

module _ (E : Env) (P : Readers) where
  or_retry-Keeps :
      (id : ℕ) (uid : Text) (email : Option Text) (u : User) (rows : Rows)
      (r : Result (User × Rows))
      → Returns (Keeps u rows) r
      → Returns (Keeps u rows) (or_retry E P id uid email u rows r)
  or_retry-Keeps id uid email u rows (ok s) h = h
  or_retry-Keeps id uid email u rows raised h = tt
  or_retry-Keeps id uid email u rows (invalid ps) h =
      elim (Option-cases (find_authenticator E id)) [
        | inl e ↦ rw (e, Returns, retry_local) tt
        | inr (a, e) ↦ elim (Bool-cases (E.is_local a.type && not (text_eq uid u.username))) [
          | inl k ↦
              rw (e, k, Returns, retry_local)
                (create_authenticator_user-Keeps E id (some u.username) email u rows)
          | inr k ↦ rw (e, k, Returns, retry_local) tt
        ]
      ]

  add_at-Keeps :
      (n : Number) (uid : Text) (email : Option Text) (u : User) (rows : Rows)
      → Returns (Keeps u rows) (add_at E P n uid email u rows)
  unfolding add_authenticator_from_associated_field
  add_at-Keeps not_integer uid email u rows = tt
  add_at-Keeps negative uid email u rows = tt
  add_at-Keeps (natural id) uid email u rows =
      or_retry-Keeps id uid email u rows _
        (create_authenticator_user-Keeps E id (some uid) email u rows)

  add_entry-Keeps :
      (key : Text) (uid email : Option Text) (u : User) (rows : Rows)
      → Returns (Keeps u rows) (add_entry E P key uid email u rows)
  add_entry-Keeps key none email u rows = (refl, refl)
  add_entry-Keeps key (some uid) email u rows = add_at-Keeps (P.int key) uid email u rows

  pub add_entries-Keeps :
      (es : List Entry) (u : User) (rows : Rows)
      → Returns (Keeps u rows) (add_entries E P es u rows)
  unfolding add_entries
  add_entries-Keeps [] u rows = (refl, refl)
  add_entries-Keeps (e ∷ es) u rows =
      Returns-bind (Keeps u rows) (Keeps u rows) (add_entry E P e.key e.uid e.email u rows) _
        (add_entry-Keeps e.key e.uid e.email u rows)
        (λ s here. Returns-all _ _ (λ t h.
          Keeps-trans u rows s t here
            (Returns-ok (Keeps s.0 s.1) _ (add_entries-Keeps es s.0 s.1) h)))
