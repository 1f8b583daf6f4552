-- ===== src/Users/Writes/Others.antt =====
-- The rows of the other users stay as they are, whatever the serializer writes for one user.
use mathlib.Core.List.{append-nil}
use jewel.Prelude.{
  ℕ, ◌≡◌, refl, sym, ◌∙◌, ap, Bool, true, false, not, Text, Option, none, some, List, [], ◌∷◌, ◌++◌,
  map, keep, keep-map, keep-keep, keep-append, keep-dropped, Bool-cases, Option-cases, ◌==◌, inl,
  inr, arith,
}
use jewel.Users.{
  Authenticator, AuthenticatorUser, User, Env, Rows, difference, check_uid_conflict,
  validate_authenticator_exists, corrected_uid, create_row, create_at, create_authenticator_user,
}
use jewel.Users.Writes.{
  is_at, remove_authenticators, add_authenticators, save_uids, update_authenticator_uids,
  update_target, update_legacy_authenticator_uid, remove_all, process_legacy_authenticator_fields,
}
use jewel.Users.Found.{pk-with_email}
use jewel.Users.Returns.{Returns, Returns-bind, Returns-all, Returns-ok}
use jewel.Users.Writes.Uids.{saved_row, save_uids-map}

-- The rows of the users other than this one.
abbrev pub others : ℕ → Rows → Rows
others pk rows = keep (λ r. not (r.user == pk)) rows

others-saved :
    (E : Env) (f : AuthenticatorUser → Text) (pk : ℕ) (rows : Rows)
    → others pk (map (saved_row E f pk) rows) ≡ others pk rows
others-saved E f pk rows =
    keep-map (λ r. not (r.user == pk)) (saved_row E f pk) rows (λ r h. other r h) (λ r h. own r h)
  where
    other : (r : AuthenticatorUser) → not (r.user == pk) ≡ true → saved_row E f pk r ≡ r
    other r h = ground arith

    own :
        (r : AuthenticatorUser)
        → not (r.user == pk) ≡ false
        → not ((saved_row E f pk r).user == pk) ≡ false
    own r h = ground arith

pub others-remove :
    (ids : List ℕ) (pk : ℕ) (rows : Rows)
    → others pk (remove_authenticators ids pk rows) ≡ others pk rows
unfolding remove_authenticators
others-remove [] pk rows = refl
others-remove (id ∷ ids) pk rows =
    others-remove ids pk _
    ∙ keep-keep (λ r. not (r.user == pk)) (λ r. not (is_at pk id r)) rows (λ r h. ground arith)

-- What a step for a user keeps: the key of the user in memory, and the rows of the others.
abbrev pub Keeps : User → Rows → User × Rows → Type 0
Keeps u rows s = (s.0.pk ≡ u.pk) × (others u.pk s.1 ≡ others u.pk rows)

pub Keeps-trans :
    (u : User) (rows : Rows) (s t : User × Rows) → Keeps u rows s → Keeps s.0 s.1 t → Keeps u rows t
Keeps-trans u rows s t (pk, same) h =
    let (pk', same') = h in
    (pk' ∙ pk, ap (λ n. others n t.1) (sym pk) ∙ same' ∙ ap (λ n. others n s.1) pk ∙ same)

-- The user in the table, if there is one, has the same key.
abbrev pub IsStored : User → Option User → Type 0
IsStored u none = Unit
IsStored u (some v) = v.pk ≡ u.pk

module _ (E : Env) where
  pub others-save_uids :
      (f : AuthenticatorUser → Text) (pk : ℕ) (rows : Rows)
      → Returns (λ rows'. others pk rows' ≡ others pk rows) (save_uids E f pk [] rows)
  others-save_uids f pk rows =
      Returns-all _ _
        (λ out h. ap (others pk) (save_uids-map E f pk [] rows h) ∙ others-saved E f pk rows)

  others-create_row :
      (pk id : ℕ) (uid email : Option Text) (rows : Rows)
      → Returns (λ rows'. others pk rows' ≡ others pk rows) (create_row E pk id uid email rows)
  unfolding create_row keep
  others-create_row pk id none email rows = tt
  others-create_row pk id (some uid) email rows =
      let row : AuthenticatorUser = record { user = pk; provider = id; uid = uid; email = email } in
      elim (Bool-cases (E.admits row rows)) [
        | inl e ↦ rw (e, Returns) (added row)
        | inr e ↦ rw (e, Returns) tt
      ]
    where
      added : (row : AuthenticatorUser) → others row.user (rows ++ row ∷ []) ≡ others row.user rows
      added row =
          keep-append is_theirs rows (row ∷ [])
          ∙ ap (λ l. others row.user rows ++ l) (keep-dropped is_theirs row [] (own row.user))
          ∙ append-nil (others row.user rows)
        where
          is_theirs : AuthenticatorUser → Bool
          is_theirs r = not (r.user == row.user)

          own : (n : ℕ) → not (n == n) ≡ false
          own n = ground arith

  create_at-Keeps :
      (a : Authenticator) (uid email : Option Text) (u : User) (rows : Rows)
      → Returns (Keeps u rows) (create_at E a uid email u rows)
  unfolding create_at
  create_at-Keeps a uid email u rows =
      elim (Option-cases (check_uid_conflict a.id uid (some u.pk) rows)) [
        | inr (r, e) ↦ rw (e, Returns) tt
        | inl e ↦
            rw (e, Returns)
              (Returns-bind _ (Keeps u rows)
                (create_row E u.pk a.id (corrected_uid E a uid u) email rows) _
                (others-create_row u.pk a.id (corrected_uid E a uid u) email rows)
                (λ rows' same. (pk-with_email E email u, same)))
      ]

  pub create_authenticator_user-Keeps :
      (id : ℕ) (uid email : Option Text) (u : User) (rows : Rows)
      → Returns (Keeps u rows) (create_authenticator_user E id uid email u rows)
  unfolding create_authenticator_user
  create_authenticator_user-Keeps id uid email u rows =
      Returns-bind (λ a. Unit {0}) (Keeps u rows) (validate_authenticator_exists E id) _
        (Returns-all _ _ (λ a h. tt)) (λ a h. create_at-Keeps a uid email u rows)

  add_authenticators-Keeps :
      (ids : List ℕ) (uid : Option Text) (u : User) (rows : Rows)
      → Returns (Keeps u rows) (add_authenticators E ids uid u rows)
  unfolding add_authenticators
  add_authenticators-Keeps [] uid u rows = (refl, refl)
  add_authenticators-Keeps (id ∷ ids) uid u rows =
      Returns-bind (Keeps u rows) (Keeps u rows) (create_authenticator_user E id uid none u rows) _
        (create_authenticator_user-Keeps id uid none u rows)
        (λ s here. Returns-all _ _ (λ t h.
          Keeps-trans u rows s t here
            (Returns-ok (Keeps s.0 s.1) _ (add_authenticators-Keeps ids uid s.0 s.1) h)))

  others-update_uids :
      (uid : Option Text) (u : User) (rows : Rows)
      → Returns
          (λ rows'. others u.pk rows' ≡ others u.pk rows)
          (update_authenticator_uids E uid u rows)
  unfolding update_authenticator_uids
  others-update_uids uid u rows = others-save_uids _ u.pk rows

  others-update_target :
      (target : ℕ) (uid : Text) (u : User) (found rows : Rows)
      → Returns
          (λ rows'. others u.pk rows' ≡ others u.pk rows)
          (update_target E target uid u found rows)
  unfolding update_target
  others-update_target target uid u [] rows = refl
  others-update_target target uid u (r ∷ []) rows = others-save_uids _ u.pk rows
  others-update_target target uid u (r ∷ q ∷ rs) rows = tt

  others-update_legacy :
      (uid : Text) (u : User) (rows : Rows)
      → Returns
          (λ rows'. others u.pk rows' ≡ others u.pk rows)
          (update_legacy_authenticator_uid E uid u rows)
  unfolding update_legacy_authenticator_uid
  others-update_legacy uid u rows = elim (Option-cases u.last_login_from) [
    | inl e ↦ rw (e, Returns) refl
    | inr (target, e) ↦ rw (e, Returns) (others-update_target target uid u _ rows)
  ]

  remove_all-Keeps :
      (u : User) (stored : Option User) (rows : Rows)
      → IsStored u stored
      → Returns (Keeps u rows) (remove_all E stored u.pk rows)
  remove_all-Keeps u none rows h = tt
  remove_all-Keeps u (some v) rows h = (h, keep-keep _ _ rows (λ r k. k))

  pub process_legacy_authenticator_fields-Keeps :
      (ids : Option (List ℕ)) (uid : Option Text) (u : User) (stored : Option User)
      (existing : List ℕ) (rows : Rows)
      → IsStored u stored
      → Returns
          (Keeps u rows)
          (process_legacy_authenticator_fields E ids uid u stored existing rows)
  unfolding process_legacy_authenticator_fields
  process_legacy_authenticator_fields-Keeps (some []) uid u stored existing rows h =
      remove_all-Keeps u stored rows h
  process_legacy_authenticator_fields-Keeps (some (a ∷ ids)) uid u stored existing rows h =
      let removed = remove_authenticators (difference existing (a ∷ ids)) u.pk rows in
      Returns-bind (Keeps u removed) (Keeps u rows)
        (add_authenticators E (difference (a ∷ ids) existing) uid u removed) _
        (add_authenticators-Keeps (difference (a ∷ ids) existing) uid u removed)
        (λ s kept.
          Returns-bind (λ rows'. others s.0.pk rows' ≡ others s.0.pk s.1) (Keeps u rows)
            (update_authenticator_uids E uid s.0 s.1) _ (others-update_uids uid s.0 s.1)
            (λ rows' same.
              Keeps-trans u rows s (s.0, rows')
                (kept.0, kept.1 ∙ others-remove (difference existing (a ∷ ids)) u.pk rows)
                (refl, same)))
  process_legacy_authenticator_fields-Keeps none none u stored existing rows h = (refl, refl)
  process_legacy_authenticator_fields-Keeps none (some uid) u stored existing rows h =
      Returns-bind _ (Keeps u rows) (update_legacy_authenticator_uid E uid u rows) _
        (others-update_legacy uid u rows) (λ rows' same. (refl, same))
