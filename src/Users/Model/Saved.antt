-- ===== src/Users/Model/Saved.antt =====
-- models/user.py: the passwords in the table.
use jewel.Prelude.{
  ◌≡◌, true, false, Text, Option, some, All, All-map, ◌⊎◌, inl, inr, Bool-cases, ◌==◌,
}
use jewel.Proxy.Session.{Cache, Issuer}
use jewel.Users.{User}
use jewel.Users.Model.{
  Hashers, password_is_hashed, password_is_usable, none_if_empty, hash_password, saved_password,
  with_saved_password, Instance, Columns, all_columns, email_column, write_user, State, save,
}

module _ (H : Hashers) where
  -- A password that is stored as a hash, or that no one can use.
  abbrev pub IsProtected : Option Text → Type 0
  IsProtected p = (password_is_hashed H p ≡ true) ⊎ (password_is_usable H p ≡ false)

  module _ (made : (p : Option Text) → IsProtected (some (H.make_password p))) where
    saved_password-IsProtected : (p : Option Text) → IsProtected (saved_password H p)
    unfolding saved_password
    saved_password-IsProtected p = go (none_if_empty H p)
      where
        go : (q : Option Text) → IsProtected (hash_password H q)
        go q = elim (Bool-cases (password_is_usable H q)) [
          | inr e ↦ rw (e, hash_password) (inr e)
          | inl e ↦ elim (Bool-cases (password_is_hashed H q)) [
            | inl e' ↦ rw (e, e', hash_password) (inl e')
            | inr e' ↦ rw (e, e', hash_password) (made q)
          ]
        ]

    -- Whatever is saved, and whichever columns, the passwords in the table stay protected.
    pub save-IsProtected :
        (C : Cache) (I : Issuer) (columns : Columns) (i : Instance) (s : State H C I)
        → All (λ u. IsProtected u.password) s.users
        → All (λ u. IsProtected u.password) (save H C I columns i s).1.users
    unfolding save with_saved_password
    save-IsProtected C I columns i s = All-map _ _ _ (written columns) s.users
      where
        written :
            (c : Columns) (v : User)
            → IsProtected v.password
            → IsProtected (write_user c (with_saved_password H i.user) v).password
        written all_columns v h = elim (Bool-cases (v.pk == i.user.pk)) [
          | inl e ↦ rw e (saved_password-IsProtected i.user.password)
          | inr e ↦ rw e h
        ]
        written email_column v h = elim (Bool-cases (v.pk == i.user.pk)) [
          | inl e ↦ rw e h
          | inr e ↦ rw e h
        ]
