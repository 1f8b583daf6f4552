-- ===== src/Users/Writes/Legacy.antt =====
-- The deprecated field `authenticators`: afterwards the accounts of the user are at those
-- authenticators and at no others, and the uids of local ones are the username.
use mathlib.Core.Path.{subst}
use jewel.Prelude.{
  ℕ, ◌≡◌, refl, sym, true, false, not, Text, is_member, Option, none, some, List, [], ◌∷◌, any, All,
  All-mono, All-map, All-of_keep, All-keep_sub, All-both, Bool-cases, ◌==◌, inl, inr, arith,
}
use jewel.Users.{
  AuthenticatorUser, User, Result, ok, Env, Rows, has_number, difference, is_local_provider,
  get_authenticator_uids, get_authenticator_ids,
}
use jewel.Users.Returns.{bind-ok}
use jewel.Users.Writes.{
  remove_authenticators, local_uid, new_uid, updated_uid, update_authenticator_uids,
  process_legacy_authenticator_fields,
}
use jewel.Users.Writes.Uids.{saved_row, save_uids-map}
use jewel.Users.Writes.Accounts.{HasAccount, Any-map, ids-HasAccount, removed-HasAccount}
use jewel.Users.Writes.Owned.{own_ids, not_in_difference, not_dropped, All-remove, gone}
use jewel.Users.Writes.Added.{AreWanted, add_authenticators-Added}

module _ (E : Env) where
  -- A row of the user, if it is one, is at one of these authenticators, with the uid that it
  -- should have there.
  pub record IsSettled (pk : ℕ) (username : Text) (ids : List ℕ) (r : AuthenticatorUser)
      : Type 0 where
    pub wanted : r.user ≡ pk → has_number r.provider ids ≡ true
    pub local : r.user ≡ pk → is_local_provider E r.provider ≡ true → r.uid ≡ username

  updated_uid-local :
      (uid : Option Text) (uids : List Text) (username : Text) (r : AuthenticatorUser)
      → is_local_provider E r.provider ≡ true
      → updated_uid E uid uids username r ≡ username
  updated_uid-local none uids username r h = rw (h, local_uid) refl
  updated_uid-local (some uid) uids username r h = elim (Bool-cases (is_member uid uids)) [
    | inl e ↦ rw (e, h, updated_uid, local_uid) refl
    | inr e ↦ rw (e, h, updated_uid, new_uid) refl
  ]

  -- After the uids are updated.
  settled :
      (uid : Option Text) (uids : List Text) (username : Text) (pk : ℕ) (wanted : List ℕ)
      (r : AuthenticatorUser)
      → (r.user ≡ pk → has_number r.provider wanted ≡ true)
      → IsSettled pk username wanted (saved_row E (updated_uid E uid uids username) pk r)
  settled uid uids username pk wanted r h = elim (Bool-cases (r.user == pk)) [
    | inr e ↦ rw (e, saved_row) (record { wanted = h; local = λ same. absurd (other r e same) })
    | inl e ↦
        rw (e, saved_row)
          (record { wanted = h; local = λ same here. updated_uid-local uid uids username r here })
  ]
    where
      other : (q : AuthenticatorUser) → (q.user == pk) ≡ false → q.user ≡ pk → ⊥
      other q e same = ground arith

  self-member : (xs : List ℕ) → All (λ n. has_number n xs ≡ true) xs
  unfolding any
  self-member [] = tt
  self-member (x ∷ xs) = (first_one x xs, All-mono _ _ (λ n h. later n x xs h) xs (self-member xs))
    where
      first_one : (n : ℕ) (ns : List ℕ) → has_number n (n ∷ ns) ≡ true
      first_one n ns = ground arith

      later : (n m : ℕ) (ns : List ℕ) → has_number n ns ≡ true → has_number n (m ∷ ns) ≡ true
      later n m ns h = ground arith

  -- The uids are updated: the accounts stay, and those at local authenticators get the username.
  updated-Settles :
      (wanted : List ℕ) (uid : Option Text) (u : User) (rows rows' : Rows)
      → AreWanted E u.pk wanted rows
      → update_authenticator_uids E uid u rows ≡ ok rows'
      → All (IsSettled u.pk u.username wanted) rows'
        × ((id : ℕ) → HasAccount u.pk id rows → HasAccount u.pk id rows')
  unfolding update_authenticator_uids
  updated-Settles wanted uid u rows rows' w h =
      let uids = get_authenticator_uids u.pk rows in
      let same = save_uids-map E (updated_uid E uid uids u.username) u.pk [] rows h in
      (
        subst (All (IsSettled u.pk u.username wanted)) (sym same)
            (All-map _ _ _ (settled uid uids u.username u.pk wanted) rows w),
        λ id k.
            subst (HasAccount u.pk id) (sym same)
              (Any-map _ _ rows (λ r p. row_stays uids r id p) k),
      )
    where
      row_stays :
          (uids : List Text) (r : AuthenticatorUser) (id : ℕ)
          → (r.user ≡ u.pk) × (r.provider ≡ id)
          → ((saved_row E (updated_uid E uid uids u.username) u.pk r).user ≡ u.pk)
            × ((saved_row E (updated_uid E uid uids u.username) u.pk r).provider ≡ id)
      row_stays uids r id (p, q) = elim (Bool-cases (r.user == u.pk)) [
        | inl e ↦ rw (e, saved_row) (p, q)
        | inr e ↦ rw (e, saved_row) (p, q)
      ]

  -- What is left after the removal is at authenticators that the field names.
  among_left :
      (wanted existing : List ℕ) (pk : ℕ) (rows : Rows)
      → All (λ r. r.user ≡ pk → has_number r.provider existing ≡ true) rows
      → AreWanted E pk wanted (remove_authenticators (difference existing wanted) pk rows)
  among_left wanted existing pk rows own =
      All-mono _ _ (λ r k same. not_in_difference r.provider existing wanted (k.1 same) (k.0 same))
        _
        (All-both _ _ _ (gone (difference existing wanted) pk rows)
          (All-remove _ (difference existing wanted) pk rows own))

  -- Each authenticator that the field names was there and stays, or is new.
  accounts-there :
      (wanted existing : List ℕ) (pk : ℕ) (left rows : Rows)
      → ((id : ℕ) → HasAccount pk id left → HasAccount pk id rows)
      → All (λ id. HasAccount pk id rows) (difference wanted existing)
      → All (λ id. has_number id wanted ≡ true) wanted
      → ((id : ℕ)
          → has_number id existing ≡ true
          → has_number id wanted ≡ true
          → HasAccount pk id left)
      → All (λ id. HasAccount pk id rows) wanted
  accounts-there wanted existing pk left rows keeps gains members there =
      All-mono _ _ (λ id k. one id k.0 k.1) wanted
        (All-both _ _ wanted members (
          All-of_keep (λ id. HasAccount pk id rows) (λ id. not (has_number id existing)) wanted
            gains))
    where
      one :
          (id : ℕ)
          → has_number id wanted ≡ true
          → (not (has_number id existing) ≡ true → HasAccount pk id rows)
          → HasAccount pk id rows
      one id w new = elim (Bool-cases (has_number id existing)) [
        | inl e ↦ keeps id (there id e w)
        | inr e ↦ new (rw e refl)
      ]

  abbrev returned : User → Rows → Result (User × Rows)
  returned v xs = ok (v, xs)

  -- After the field `authenticators` is written, where it is not empty, the accounts of the user
  -- are at exactly the authenticators that it names, and the uid of each at a local one is the
  -- username.
  pub process_legacy_authenticator_fields-Settles :
      (a : ℕ) (ids : List ℕ) (uid : Option Text) (u : User) (stored : Option User) (rows : Rows)
      {u' : User} {rows' : Rows}
      → process_legacy_authenticator_fields E
          (some (a ∷ ids))
          uid
          u
          stored
          (get_authenticator_ids u.pk rows)
          rows
        ≡ ok (u', rows')
      → All (IsSettled u.pk u.username (a ∷ ids)) rows'
        × All (λ id. HasAccount u.pk id rows') (a ∷ ids)
  unfolding process_legacy_authenticator_fields
  process_legacy_authenticator_fields-Settles a ids uid u stored rows {u'} {rows'} h =
      let wanted = a ∷ ids in
      let existing = get_authenticator_ids u.pk rows in
      let dropped = difference existing wanted in
      let left = remove_authenticators dropped u.pk rows in
      let (q, added, rest) = bind-ok _ _ (u', rows') h in
      let loop =
        add_authenticators-Added E wanted (difference wanted existing) uid u left q
          (All-keep_sub _ (λ n. not (has_number n existing)) wanted (self-member wanted)) added in
      let (done, updated, same) = bind-ok _ _ (u', rows') rest in
      let among = loop.stays_wanted (among_left wanted existing u.pk rows (own_ids u.pk rows)) in
      let (settled_q, stays) =
        updated-Settles wanted uid q.0 q.1 done
          (subst (λ n. AreWanted E n wanted q.1) (sym loop.pk) among) updated in
      let out = result q.0 u' done rows' same in
      (
        subst (All (IsSettled u.pk u.username wanted)) out (
            subst (λ n. All (IsSettled n u.username wanted) done) loop.pk
              (subst (λ t. All (IsSettled q.0.pk t wanted) done) loop.username settled_q)),
        All-mono _ _
            (λ id k. subst (HasAccount u.pk id) out (
              subst (λ n. HasAccount n id done) loop.pk
                (stays id (subst (λ n. HasAccount n id q.1) (sym loop.pk) k))))
            wanted
            (accounts-there wanted existing u.pk left q.1 loop.keeps loop.gains (self-member wanted)
              (there rows wanted)),
      )
    where
      result : (v v' : User) (xs ys : Rows) → returned v xs ≡ returned v' ys → xs ≡ ys
      result v v' xs ys h = cc

      there :
          (xs : Rows) (wanted : List ℕ) (id : ℕ)
          → has_number id (get_authenticator_ids u.pk xs) ≡ true
          → has_number id wanted ≡ true
          → HasAccount u.pk id
              (remove_authenticators (difference (get_authenticator_ids u.pk xs) wanted) u.pk xs)
      there xs wanted id h k =
          removed-HasAccount _ u.pk id xs (not_dropped id (get_authenticator_ids u.pk xs) wanted k)
            (ids-HasAccount u.pk id xs h)
