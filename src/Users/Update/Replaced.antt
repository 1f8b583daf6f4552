-- ===== src/Users/Update/Replaced.antt =====
-- The field `associated_authenticators` replaces the accounts of the user.
use jewel.Prelude.{
  ℕ, ◌≡◌, refl, sym, ◌∙◌, ap, true, false, not, Text, Option, none, some, List, ◌++◌, keep-whole,
  All, All-mono, All-both, Bool-cases, ◌==◌, ==_iff, inl, inr, arith,
}
use jewel.Proxy.Session.{Cache, Issuer}
use jewel.Users.{
  AuthenticatorUser, User, Result, ok, invalid, raised, ◌>>=◌, Env, Rows, has_number,
  get_authenticator_ids,
}
use jewel.Users.Json.{Members}
use jewel.Users.Associated.{Readers, validate_associated_authenticators_conflicts}
use jewel.Users.Model.{Hashers, Instance, email_column, with_saved_password, State, save}
use jewel.Users.Writes.{remove_authenticators}
use jewel.Users.Writes.Others.{others, others-remove}
use jewel.Users.Writes.Owned.{AreAmong, own_ids, All-remove, gone}
use jewel.Users.Update.{
  Entry, entries, first_email, add_entries, save_email, with_rows, process_entries,
  process_associated_authenticators_field,
}
use jewel.Users.Update.Submitted.{submitted, add_entries-submitted}

removed :
    (pk : ℕ) (ids : List ℕ) (rows : Rows)
    → AreAmong pk ids rows
    → All (λ r. not (r.user == pk) ≡ true) (remove_authenticators ids pk rows)
removed pk ids rows h =
    All-mono _ _ (λ r k. other r k.0 k.1) _
      (All-both _ _ _ (gone ids pk rows) (All-remove _ ids pk rows h))
  where
    other :
        (r : AuthenticatorUser)
        → (r.user ≡ pk → has_number r.provider ids ≡ false)
        → (r.user ≡ pk → has_number r.provider ids ≡ true)
        → not (r.user == pk) ≡ true
    other r h k = elim (Bool-cases (r.user == pk)) [
      | inr e ↦ rw e refl
      | inl e ↦ let same : r.user ≡ pk = (==_iff r.user pk).0 e in cc (h same, k same)
    ]

-- Removing all the accounts of a user leaves those of the others.
remove-own :
    (pk : ℕ) (rows : Rows)
    → remove_authenticators (get_authenticator_ids pk rows) pk rows ≡ others pk rows
remove-own pk rows =
    let ids = get_authenticator_ids pk rows in
    sym (keep-whole _ _ (removed pk ids rows (own_ids pk rows))) ∙ others-remove ids pk rows

module _ (E : Env) (P : Readers) (H : Hashers) (C : Cache) (I : Issuer) where
  with_rows-ok :
      (i : Instance) (s : State H C I) (r : Result (User × Rows)) (q : Instance × State H C I)
      → with_rows E P H C I i s r ≡ ok q
      → (t : User × Rows) × (r ≡ ok t) × (q.1.rows ≡ t.1)
  with_rows-ok i s (ok t) q h = (t, refl, ground arith)
  with_rows-ok i s (invalid ps) q h = cc
  with_rows-ok i s raised q h = cc

  processed :
      (es : List Entry) (i : Instance) (s : State H C I) (q : Instance × State H C I)
      → process_entries E P H C I es i s ≡ ok q
      → q.1.rows ≡ s.rows ++ submitted E P i.user.pk i.user.username es
  unfolding save with_saved_password
  processed es i s q h = go (first_email es) h
    where
      go :
          (email : Option Text)
          → (let (i', s') = save_email E P H C I email i s in
              with_rows E P H C I i' s' (add_entries E P es i'.user s'.rows))
            ≡ ok q
          → q.1.rows ≡ s.rows ++ submitted E P i.user.pk i.user.username es
      go none k =
          let (t, added, same) = with_rows-ok i s (add_entries E P es i.user s.rows) q k in
          same ∙ (add_entries-submitted E P es i.user s.rows t added).2
      go (some email) k =
          let i₁ : Instance = record i { user = record (i.user) { email = some email } } in
          let (i', s₁) = save H C I email_column i₁ s in
          let (t, added, same) = with_rows-ok i' s₁ (add_entries E P es i'.user s₁.rows) q k in
          same ∙ (add_entries-submitted E P es i'.user s.rows t added).2

  unit-ok :
      (r : Result (Unit {0})) (f : Unit {0} → Result (Instance × State H C I))
      (q : Instance × State H C I)
      → (r >>= f) ≡ ok q
      → f tt ≡ ok q
  unit-ok (ok tt) f q h = h
  unit-ok (invalid ps) f q h = cc
  unit-ok raised f q h = cc

  -- If the field is written, the table has the rows of the other users as before, and after them
  -- one row for each entry with a uid, in the order of the request, with the uid and the email
  -- of the entry, but with the username as uid at a local authenticator.
  pub process_associated_authenticators_field-rows :
      (ms : Members) (i : Instance) (s : State H C I) {i' : Instance} {s' : State H C I}
      → process_associated_authenticators_field E P H C I ms i s ≡ ok (i', s')
      → s'.rows ≡ others i.user.pk s.rows ++ submitted E P i.user.pk i.user.username (entries P ms)
  unfolding process_associated_authenticators_field
  process_associated_authenticators_field-rows ms i s {i'} {s'} h =
      let left : State H C I = record s {
        rows = remove_authenticators (get_authenticator_ids i.user.pk s.rows) i.user.pk s.rows;
      } in
      processed (entries P ms) i left (i', s')
        (unit-ok (validate_associated_authenticators_conflicts E P ms (some i.user.pk) s.rows)
          (λ t. process_entries E P H C I (entries P ms) i left) (i', s') h)
      ∙ ap (λ l. l ++ submitted E P i.user.pk i.user.username (entries P ms))
          (remove-own i.user.pk s.rows)
