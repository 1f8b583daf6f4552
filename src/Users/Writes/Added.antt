-- ===== src/Users/Writes/Added.antt =====
-- What the loop of `_add_authenticators` leaves.
use mathlib.Core.Path.{subst}
use jewel.Prelude.{
  ℕ, ◌≡◌, refl, sym, ◌∙◌, ap, true, Text, Option, none, some, List, [], ◌∷◌, ◌++◌, All, All-append,
  Bool-cases, Option-cases, inl, inr,
}
use jewel.Users.{
  AuthenticatorUser, User, ok, ◌>>=◌, Env, Rows, has_number, create_authenticator_user,
  find_authenticator, validate_authenticator_exists, create_at, create_row, corrected_uid,
  check_uid_conflict, with_email, Authenticator,
}
use jewel.Users.Returns.{bind-ok}
use jewel.Users.Found.{find_authenticator-id}
use jewel.Users.Writes.{add_authenticators}
use jewel.Users.Writes.Accounts.{HasAccount, Any-left, Any-last}

module _ (E : Env) where
  -- A row is added for this user at this authenticator.
  abbrev AddsAt : User → Rows → ℕ → User × Rows → Type 0
  AddsAt u rows id s =
      (r : AuthenticatorUser) × (s.1 ≡ rows ++ r ∷ [])
      × (r.user ≡ u.pk)
      × (r.provider ≡ id)
      × (s.0.pk ≡ u.pk)
      × (s.0.username ≡ u.username)

  create_row-AddsAt :
      (a : Authenticator) (id : ℕ) (uid : Option Text) (u : User) (rows : Rows) (s : User × Rows)
      → a.id ≡ id
      → (create_row E u.pk a.id uid none rows >>= λ rows'. ok (u, rows')) ≡ ok s
      → AddsAt u rows id s
  unfolding create_row
  create_row-AddsAt a id none u rows s e h = cc
  create_row-AddsAt a id (some t) u rows s e h =
      let row : AuthenticatorUser = record {
        user = u.pk;
        provider = a.id;
        uid = t;
        email = none;
      } in
      elim (Bool-cases (E.admits row rows)) [
        | inr k ↦ cc (rw k at h)
        | inl k ↦
            let same = result row (rw k at h) in
            (row, ap (λ q. q.1) same, refl, e, ap (λ q. q.0.pk) same, ap (λ q. q.0.username) same)
      ]
    where
      result :
          (row : AuthenticatorUser) → ok (u, rows ++ row ∷ []) ≡ ok s → s ≡ (u, rows ++ row ∷ [])
      result row k = cc

  create-AddsAt :
      (id : ℕ) (uid : Option Text) (u : User) (rows : Rows) (s : User × Rows)
      → create_authenticator_user E id uid none u rows ≡ ok s
      → AddsAt u rows id s
  unfolding create_authenticator_user validate_authenticator_exists create_at with_email
  create-AddsAt id uid u rows s h = elim (Option-cases (find_authenticator E id)) [
    | inl e ↦ cc (rw (e, validate_authenticator_exists) at h)
    | inr (a, e) ↦ elim (Option-cases (check_uid_conflict a.id uid (some u.pk) rows)) [
      | inr (r, k) ↦ cc (rw (e, k, validate_authenticator_exists, create_at) at h)
      | inl k ↦
          create_row-AddsAt a id (corrected_uid E a uid u) u rows s (find_authenticator-id E id e)
            (rw (e, k, validate_authenticator_exists, create_at) at h)
    ]
  ]

  -- The rows of the user, if they are any, are at authenticators of the list.
  abbrev pub AreWanted : ℕ → List ℕ → Rows → Type 0
  AreWanted pk wanted rows = All (λ r. r.user ≡ pk → has_number r.provider wanted ≡ true) rows

  -- What the loop of `_add_authenticators` leaves: the accounts there were, and the new ones.
  pub record Added (wanted ids : List ℕ) (u : User) (rows : Rows) (s : User × Rows) : Type 0 where
    pub pk : s.0.pk ≡ u.pk
    pub username : s.0.username ≡ u.username
    pub keeps : (id : ℕ) → HasAccount u.pk id rows → HasAccount u.pk id s.1
    pub gains : All (λ id. HasAccount u.pk id s.1) ids
    pub stays_wanted : AreWanted u.pk wanted rows → AreWanted u.pk wanted s.1

  same_user : (u : User) (rows : Rows) (s : User × Rows) → ok (u, rows) ≡ ok s → s ≡ (u, rows)
  same_user u rows s h = cc

  pub add_authenticators-Added :
      (wanted ids : List ℕ) (uid : Option Text) (u : User) (rows : Rows) (s : User × Rows)
      → All (λ id. has_number id wanted ≡ true) ids
      → add_authenticators E ids uid u rows ≡ ok s
      → Added wanted ids u rows s
  unfolding add_authenticators
  add_authenticators-Added wanted [] uid u rows s w h =
      subst (Added wanted [] u rows) (sym (same_user u rows s h)) (record {
        pk = refl;
        username = refl;
        keeps = λ id k. k;
        gains = tt;
        stays_wanted = λ k. k;
      })
  add_authenticators-Added wanted (id ∷ ids) uid u rows s w h =
      let (q, one, rest) = bind-ok _ _ s h in
      let (r, rows_q, user_r, provider_r, pk, name) = create-AddsAt id uid u rows q one in
      let later = add_authenticators-Added wanted ids uid q.0 q.1 s w.1 rest in
      let kept : (j : ℕ) → HasAccount u.pk j q.1 → HasAccount u.pk j s.1 = λ j k.
        subst (λ n. HasAccount n j s.1) pk
          (later.keeps j (subst (λ n. HasAccount n j q.1) (sym pk) k)) in
      record {
        pk = later.pk ∙ pk;
        username = later.username ∙ name;
        keeps = λ j k. kept j (subst (HasAccount u.pk j) (sym rows_q) (Any-left _ rows (r ∷ []) k));
        gains = (
          kept id
              (subst (HasAccount u.pk id) (sym rows_q) (Any-last _ rows r (user_r, provider_r))),
          subst (λ n. All (λ j. HasAccount n j s.1) ids) pk later.gains,
        );
        stays_wanted = λ k.
            subst (λ n. AreWanted n wanted s.1) pk
              (later.stays_wanted (
                subst (λ n. AreWanted n wanted q.1) (sym pk)
                  (subst (AreWanted u.pk wanted) (sym rows_q) (
                    All-append _ rows (r ∷ []) k
                      (λ same. ap (λ n. has_number n wanted) provider_r ∙ w.0, tt)))));
      }
