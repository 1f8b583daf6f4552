-- ===== src/Users/Writes/Uids.antt =====
-- The uids that the loop of saves writes.
use mathlib.Core.List.{append-nil, append_assoc}
use jewel.Prelude.{
  ℕ, ◌≡◌, refl, sym, ◌∙◌, ap, true, false, not, ◌||◌, Text, text_eq, text_eq_iff, [], ◌∷◌, ◌++◌,
  map, Bool-cases, ◌==◌, if◌then◌else◌, inl, inr,
}
use jewel.Users.{AuthenticatorUser, ok, Env, Rows}
use jewel.Users.Writes.{with_uid, save_uids}

module _ (E : Env) (f : AuthenticatorUser → Text) (pk : ℕ) where
  -- A row as the loop leaves it.
  abbrev pub saved_row : AuthenticatorUser → AuthenticatorUser
  saved_row r = if r.user == pk then with_uid E f r else r

  same_uid : (r : AuthenticatorUser) → text_eq (f r) r.uid ≡ true → with_uid E f r ≡ r
  same_uid r h = ap (λ (t : Text). uid_of r t) ((text_eq_iff (f r) r.uid).0 h)
    where
      uid_of : AuthenticatorUser → Text → AuthenticatorUser
      uid_of r t = record r { uid = t }

  skipped :
      (r : AuthenticatorUser) → not (r.user == pk) || text_eq (f r) r.uid ≡ true → saved_row r ≡ r
  skipped r h = elim (Bool-cases (r.user == pk)) [
    | inl e ↦ rw e (same_uid r (rw e at h))
    | inr e ↦ rw e refl
  ]

  written :
      (r : AuthenticatorUser)
      → not (r.user == pk) || text_eq (f r) r.uid ≡ false
      → saved_row r ≡ with_uid E f r
  written r h = elim (Bool-cases (r.user == pk)) [ inl e ↦ rw e refl | inr e ↦ cc (rw e at h) ]

  shift :
      (done rows out : Rows) (r r' : AuthenticatorUser)
      → saved_row r ≡ r'
      → out ≡ (done ++ r' ∷ []) ++ map saved_row rows
      → out ≡ done ++ saved_row r ∷ map saved_row rows
  shift done rows out r r' e h =
      h
      ∙ append_assoc done (r' ∷ []) (map saved_row rows)
      ∙ ap (λ x. done ++ x ∷ map saved_row rows) (sym e)

  pub save_uids-map :
      (done rows : Rows) {out : Rows}
      → save_uids E f pk done rows ≡ ok out
      → out ≡ done ++ map saved_row rows
  unfolding save_uids
  save_uids-map done [] {out} h = unwrap h ∙ sym (append-nil done)
    where
      unwrap : ok done ≡ ok out → out ≡ done
      unwrap e = cc
  save_uids-map done (r ∷ rows) {out} h =
      elim (Bool-cases (not (r.user == pk) || text_eq (f r) r.uid)) [
        | inl e ↦
            shift done rows out r r (skipped r e) (save_uids-map (done ++ r ∷ []) rows (rw e at h))
        | inr e ↦ elim (Bool-cases (E.admits (with_uid E f r) (done ++ rows))) [
          | inl a ↦
              shift done rows out r (with_uid E f r) (written r e)
                (save_uids-map (done ++ with_uid E f r ∷ []) rows (rw (e, a) at h))
          | inr a ↦ cc (rw (e, a) at h)
        ]
      ]
