-- ===== src/Users/Update/Others.antt =====
-- An update of one user leaves the other users and their accounts as they are.
use jewel.Prelude.{
  ℕ, ◌≡◌, refl, sym, ◌∙◌, ap, Bool, true, false, not, Text, text_eq, Option, none, some, List, [],
  ◌∷◌, keep, keep-map, Bool-cases, ◌==◌, ==_iff, if◌then◌else◌, inl, inr, arith,
}
use jewel.Proxy.Session.{Cache, Issuer}
use jewel.Users.{User, Result, ok, invalid, raised, ◌>>=◌, Env, Rows, get_authenticator_ids}
use jewel.Users.Returns.{Returns, Returns-bind, Returns-all, Returns-ok}
use jewel.Users.Json.{Json, null, str, other, object, Members}
use jewel.Users.Associated.{Readers, validate_associated_authenticators_conflicts}
use jewel.Users.Model.{
  Hashers, Instance, Columns, all_columns, email_column, write_user, with_saved_password, State,
  save,
}
use jewel.Users.Writes.{remove_authenticators}
use jewel.Users.Writes.Others.{
  others, others-remove, Keeps, IsStored, others-save_uids,
  process_legacy_authenticator_fields-Keeps,
}
use jewel.Users.Update.{
  Entry, entries, first_email, stored_user, add_entries, Validated, Library, save_email, with_rows,
  process_associated_authenticators_field, process_value, update_users_authenticators,
  without_placeholder, update_local_authenticator_uid_from_username, renamed_rows, rename,
  refreshed, save_assigned, update,
}
use jewel.Users.Update.Entries.{add_entries-Keeps}

abbrev pub other_users : ℕ → List User → List User
other_users pk us = keep (λ u. not (u.pk == pk)) us

stored_user-IsStored : (u : User) (us : List User) → IsStored u (stored_user u.pk us)
unfolding stored_user keep
stored_user-IsStored u [] = tt
stored_user-IsStored u (v ∷ us) = elim (Bool-cases (v.pk == u.pk)) [
  | inl e ↦ rw (e, keep, IsStored) ((==_iff v.pk u.pk).0 e)
  | inr e ↦ rw (e, keep, IsStored) (stored_user-IsStored u us)
]

write_user-other : (c : Columns) (u v : User) → not (v.pk == u.pk) ≡ true → write_user c u v ≡ v
write_user-other all_columns u v h = ground arith
write_user-other email_column u v h = ground arith

write_user-own :
    (c : Columns) (u v : User)
    → not (v.pk == u.pk) ≡ false
    → not ((write_user c u v).pk == u.pk) ≡ false
write_user-own all_columns u v h = ground arith
write_user-own email_column u v h = ground arith

module _ (E : Env) (P : Readers) (H : Hashers) (C : Cache) (I : Issuer) where
  -- The key of the instance, the rows of the others, and the others themselves.
  abbrev Kept : Instance → State H C I → Instance × State H C I → Type 0
  Kept i s q =
      (q.0.user.pk ≡ i.user.pk)
      × (others i.user.pk q.1.rows ≡ others i.user.pk s.rows)
      × (other_users i.user.pk q.1.users ≡ other_users i.user.pk s.users)

  Kept-trans :
      (i : Instance) (s : State H C I) (q t : Instance × State H C I)
      → Kept i s q
      → Kept q.0 q.1 t
      → Kept i s t
  Kept-trans i s q t (pk, rows, users) (pk', rows', users') = (
    pk' ∙ pk,
    ap (λ n. others n t.1.rows) (sym pk) ∙ rows' ∙ ap (λ n. others n q.1.rows) pk ∙ rows,
    ap (λ n. other_users n t.1.users) (sym pk)
        ∙ users'
        ∙ ap (λ n. other_users n q.1.users) pk
        ∙ users,
  )

  save-Kept : (c : Columns) (i : Instance) (s : State H C I) → Kept i s (save H C I c i s)
  unfolding save with_saved_password
  save-Kept c i s = (
    refl,
    refl,
    keep-map (λ v. not (v.pk == i.user.pk)) (write_user c (with_saved_password H i.user)) s.users
        (λ v h. write_user-other c (with_saved_password H i.user) v h)
        (λ v h. write_user-own c (with_saved_password H i.user) v h),
  )

  save_email-Kept :
      (email : Option Text) (i : Instance) (s : State H C I)
      → Kept i s (save_email E P H C I email i s)
  save_email-Kept none i s = (refl, refl, refl)
  save_email-Kept (some t) i s =
      save-Kept email_column (record i { user = record (i.user) { email = some t } }) s

  with_rows-Kept :
      (i : Instance) (s : State H C I) (r : Result (User × Rows))
      → Returns (Keeps i.user s.rows) r
      → Returns (Kept i s) (with_rows E P H C I i s r)
  with_rows-Kept i s (ok (u, rows)) (pk, same) = (pk, same, refl)
  with_rows-Kept i s (invalid ps) h = tt
  with_rows-Kept i s raised h = tt

  after_email :
      (es : List Entry) (i : Instance) (s : State H C I) (q : Instance × State H C I)
      → Kept i s q
      → Returns (Kept i s) (with_rows E P H C I q.0 q.1 (add_entries E P es q.0.user q.1.rows))
  after_email es i s q kept = Returns-all _ _ (λ t h. Kept-trans i s q t kept (
      Returns-ok (Kept q.0 q.1) _
        (with_rows-Kept q.0 q.1 _ (add_entries-Keeps E P es q.0.user q.1.rows)) h))

  process_associated-Kept :
      (ms : Members) (i : Instance) (s : State H C I)
      → Returns (Kept i s) (process_associated_authenticators_field E P H C I ms i s)
  unfolding process_associated_authenticators_field
  process_associated-Kept ms i s =
      let ids = get_authenticator_ids i.user.pk s.rows in
      let s' : State H C I = record s { rows = remove_authenticators ids i.user.pk s.rows } in
      let (pk, rows, users) = save_email-Kept (first_email (entries P ms)) i s' in
      Returns-bind (λ t. Unit {0}) (Kept i s)
        (validate_associated_authenticators_conflicts E P ms (some i.user.pk) s.rows) _
        (Returns-all _ _ (λ t h. tt))
        (λ t h.
          after_email (entries P ms) i s (save_email E P H C I (first_email (entries P ms)) i s')
            (pk, rows ∙ others-remove ids i.user.pk s.rows, users))

  process_value-Kept :
      (v : Option Json) (i : Instance) (s : State H C I)
      → Returns (Kept i s) (process_value E P H C I v i s)
  process_value-Kept none i s = (refl, refl, refl)
  process_value-Kept (some (object ms)) i s = process_associated-Kept ms i s
  process_value-Kept (some null) i s = tt
  process_value-Kept (some (str t)) i s = tt
  process_value-Kept (some (other b)) i s = tt

  update_users-Kept :
      (has_associated : Bool) (v : Validated) (i : Instance) (s : State H C I)
      → Returns (Kept i s) (update_users_authenticators E P H C I has_associated v i s)
  unfolding update_users_authenticators
  update_users-Kept has_associated v i s =
      Returns-bind (Kept i s) (Kept i s) _ _
        (with_rows-Kept i s _ (
          process_legacy_authenticator_fields-Keeps E v.authenticators v.authenticator_uid i.user _
            _ s.rows (stored_user-IsStored i.user s.users)))
        (λ q kept. then_value has_associated q kept)
    where
      then_value :
          (b : Bool) (q : Instance × State H C I)
          → Kept i s q
          → Returns
              (Kept i s)
              (if b then process_value E P H C I v.associated_authenticators q.0 q.1 else ok q)
      then_value false q kept = kept
      then_value true q kept = Returns-all _ _ (λ t h.
          Kept-trans i s q t kept (
            Returns-ok (Kept q.0 q.1) _ (process_value-Kept v.associated_authenticators q.0 q.1) h))

  module _ (L : Library) (assigned : (v : Validated) (u : User) → (L.assign v u).pk ≡ u.pk) where
    renamed_others :
        (u : User) (rows : Rows)
        → Returns
            (λ rows'. others u.pk rows' ≡ others u.pk rows)
            (update_local_authenticator_uid_from_username E P H C I L u rows)
    unfolding update_local_authenticator_uid_from_username
    renamed_others u rows = others-save_uids E _ u.pk rows

    rename-Kept :
        (has_associated : Bool) (name : Option Text) (i : Instance) (s : State H C I)
        → Returns (Kept i s) (rename E P H C I L has_associated name i s)
    rename-Kept has_associated none i s = (refl, refl, refl)
    rename-Kept has_associated (some name) i s = elim (Bool-cases (text_eq i.user.username name)) [
      | inl e ↦ rw (e, Returns, rename) (refl, refl, refl)
      | inr e ↦ rw (e, Returns, rename) (renamed has_associated)
    ]
      where
        renamed :
            (b : Bool)
            → Returns (Kept i s) (
                renamed_rows E P H C I L b (record (i.user) { username = name }) s.rows >>= λ rows.
                ok (
                  record i { user = record (i.user) { username = name } },
                  record s { rows = rows },
                ))
        renamed true = (refl, refl, refl)
        renamed false =
            let u : User = record (i.user) { username = name } in
            Returns-bind (λ rows. others u.pk rows ≡ others u.pk s.rows) (Kept i s)
              (update_local_authenticator_uid_from_username E P H C I L u s.rows) _
              (renamed_others u s.rows) (λ rows same. (refl, same, refl))

    -- What the library's part leaves.
    abbrev KeptBy : Instance → State H C I → User × State H C I → Type 0
    KeptBy i s r =
        (others i.user.pk r.1.rows ≡ others i.user.pk s.rows)
        × (other_users i.user.pk r.1.users ≡ other_users i.user.pk s.users)

    KeptBy-trans :
        (i : Instance) (s : State H C I) (q : Instance × State H C I) (r : User × State H C I)
        → Kept i s q
        → KeptBy q.0 q.1 r
        → KeptBy i s r
    KeptBy-trans i s q r (pk, rows, users) (rows', users') = (
      ap (λ n. others n r.1.rows) (sym pk) ∙ rows' ∙ ap (λ n. others n q.1.rows) pk ∙ rows,
      ap (λ n. other_users n r.1.users) (sym pk)
          ∙ users'
          ∙ ap (λ n. other_users n q.1.users) pk
          ∙ users,
    )

    refreshed-KeptBy :
        (i : Instance) (s : State H C I) (q : Instance × State H C I) (o : Option User)
        → Kept i s q
        → Returns (KeptBy i s) (refreshed E P H C I L q.1 o)
    refreshed-KeptBy i s q none kept = tt
    refreshed-KeptBy i s q (some u) kept = (kept.1, kept.2)

    save_assigned-KeptBy :
        (v : Validated) (i : Instance) (s : State H C I)
        → Returns (KeptBy i s) (save_assigned E P H C I L v i s)
    save_assigned-KeptBy v i s =
        let i₁ : Instance = record i { user = L.assign v i.user } in
        let saved = save-Kept all_columns i₁ s in
        refreshed-KeptBy i s (save H C I all_columns i₁ s) _ (
          Kept-trans i s (i₁, s) (save H C I all_columns i₁ s) (assigned v i.user, refl, refl)
            saved)

    -- If the library's part sets no primary key, an update that returns has changed no other
    -- user and no account of another user.
    pub update-KeepsOthers :
        (has_associated : Bool) (v : Validated) (i : Instance) (s : State H C I) {u : User}
        {s' : State H C I}
        → update E P H C I L has_associated v i s ≡ ok (u, s')
        → (others i.user.pk s'.rows ≡ others i.user.pk s.rows)
          × (other_users i.user.pk s'.users ≡ other_users i.user.pk s.users)
    unfolding update
    update-KeepsOthers has_associated v i s h =
        let v' = without_placeholder E P H C I L.encrypted_string v in
        Returns-ok (KeptBy i s) _ (all_steps v') h
      where
        all_steps :
            (v' : Validated)
            → Returns (KeptBy i s) (
                rename E P H C I L has_associated v'.username i s
                >>= (λ q. update_users_authenticators E P H C I has_associated v' q.0 q.1)
                >>= λ q. save_assigned E P H C I L v' q.0 q.1)
        all_steps v' =
            Returns-bind (Kept i s) (KeptBy i s) _ _
              (Returns-bind (Kept i s) (Kept i s)
                (rename E P H C I L has_associated v'.username i s) _
                (rename-Kept has_associated v'.username i s)
                (λ q kept. Returns-all _ _ (λ t k.
                  Kept-trans i s q t kept
                    (Returns-ok (Kept q.0 q.1) _ (update_users-Kept has_associated v' q.0 q.1) k))))
              (λ q kept. Returns-all _ _ (λ r k.
                KeptBy-trans i s q r kept
                  (Returns-ok (KeptBy q.0 q.1) _ (save_assigned-KeptBy v' q.0 q.1) k)))
