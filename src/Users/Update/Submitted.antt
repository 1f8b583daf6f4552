-- ===== src/Users/Update/Submitted.antt =====
-- The rows that `associated_authenticators` leaves: those of the other users, and then one for each
-- entry with a uid, in the order of the request.
use mathlib.Core.List.{append-nil, append_assoc}
use jewel.Prelude.{
  ℕ, ◌≡◌, refl, sym, ◌∙◌, ap, Bool, true, not, ◌&&◌, Text, text_eq, text_eq_iff, Option, none, some,
  List, [], ◌∷◌, ◌++◌, Bool-cases, Option-cases, if◌then◌else◌, inl, inr, arith,
}
use jewel.Users.{
  Authenticator, AuthenticatorUser, User, Problem, Result, ok, invalid, raised, ◌>>=◌, Env, Rows,
  find_authenticator, validate_authenticator_exists, is_local_provider, corrected_uid, create_row,
  create_at, check_uid_conflict, create_authenticator_user,
}
use jewel.Users.Associated.{Number, not_integer, negative, natural, Readers}
use jewel.Users.Returns.{bind-ok}
use jewel.Users.Found.{find_authenticator-id, pk-with_email, username-with_email}
use jewel.Users.Update.{
  Entry, retry_local, or_retry, add_authenticator_from_associated_field, add_at, add_entry,
  add_entries,
}

module _ (E : Env) where
  -- The uid that a row gets: at a local authenticator the username.
  abbrev pub given_uid : ℕ → Text → Text → Text
  given_uid id username uid = if is_local_provider E id then username else uid

  abbrev pub row_for : (pk : ℕ) → (username : Text) → ℕ → Text → Option Text → AuthenticatorUser
  row_for pk username id uid email = record {
    user = pk;
    provider = id;
    uid = given_uid id username uid;
    email = email;
  }

  -- A row was added for this user, whose key and name are as before.
  abbrev Adds : User → Rows → ℕ → Text → Option Text → User × Rows → Type 0
  Adds u rows id uid email s =
      (s.0.pk ≡ u.pk)
      × (s.0.username ≡ u.username)
      × (s.1 ≡ rows ++ row_for u.pk u.username id uid email ∷ [])

  given-corrected :
      (id : ℕ) (a : Authenticator) (uid : Text) (u : User)
      → find_authenticator E id ≡ some a
      → corrected_uid E a (some uid) u ≡ some (given_uid id u.username uid)
  unfolding corrected_uid is_local_provider
  given-corrected id a uid u h =
      rw (h, is_local_provider) (ground (arith, text_eq_iff uid u.username))

  create_row-Adds :
      (pk id : ℕ) (uid : Text) (email : Option Text) (rows rows' : Rows)
      → create_row E pk id (some uid) email rows ≡ ok rows'
      → rows' ≡ rows ++ record { user = pk; provider = id; uid = uid; email = email } ∷ []
  unfolding create_row
  create_row-Adds pk id uid email rows rows' h =
      let row : AuthenticatorUser = record { user = pk; provider = id; uid = uid; email = email } in
      elim (Bool-cases (E.admits row rows)) [ inl e ↦ unwrap (rw e at h) | inr e ↦ cc (rw e at h) ]
    where
      unwrap : {xs ys : Rows} → ok xs ≡ ok ys → ys ≡ xs
      unwrap e = cc

  bind-row :
      (r : Result Rows) (u : User) (s : User × Rows)
      → (r >>= λ rows'. ok (u, rows')) ≡ ok s
      → (r ≡ ok s.1) × (s.0 ≡ u)
  bind-row (ok xs) u s h = ground arith
  bind-row (invalid ps) u s h = cc
  bind-row raised u s h = cc

  create_at-Adds :
      (id : ℕ) (a : Authenticator) (uid : Text) (email : Option Text) (u : User) (rows : Rows)
      (s : User × Rows)
      → find_authenticator E id ≡ some a
      → create_at E a (some uid) email u rows ≡ ok s
      → Adds u rows id uid email s
  unfolding create_at
  create_at-Adds id a uid email u rows s f h =
      elim (Option-cases (check_uid_conflict a.id (some uid) (some u.pk) rows)) [
        | inr (r, e) ↦ cc (rw (e, create_at) at h)
        | inl e ↦
            let (created, same) = bind-row _ _ s (rw (e, create_at) at h) in
            let row =
              create_row-Adds u.pk a.id (given_uid id u.username uid) email rows s.1
                (rw (given-corrected id a uid u f) at created) in
            (
              ap (λ v. v.pk) same ∙ pk-with_email E email u,
              ap (λ v. v.username) same ∙ username-with_email E email u,
              row ∙ ap (λ n. rows ++ row_at n ∷ []) (find_authenticator-id E id f),
            )
      ]
    where
      row_at : ℕ → AuthenticatorUser
      row_at n = record {
        user = u.pk;
        provider = n;
        uid = given_uid id u.username uid;
        email = email;
      }

  create-Adds :
      (id : ℕ) (uid : Text) (email : Option Text) (u : User) (rows : Rows) (s : User × Rows)
      → create_authenticator_user E id (some uid) email u rows ≡ ok s
      → Adds u rows id uid email s
  unfolding create_authenticator_user validate_authenticator_exists
  create-Adds id uid email u rows s h = elim (Option-cases (find_authenticator E id)) [
    | inl e ↦ cc (rw (e, create_authenticator_user, validate_authenticator_exists) at h)
    | inr (a, e) ↦
        create_at-Adds id a uid email u rows s e
          (rw (e, create_authenticator_user, validate_authenticator_exists) at h)
  ]

  -- At a local authenticator the uid makes no difference.
  given_local :
      (id : ℕ) (a : Authenticator) (username uid : Text)
      → find_authenticator E id ≡ some a
      → E.is_local a.type ≡ true
      → given_uid id username username ≡ given_uid id username uid
  unfolding is_local_provider
  given_local id a username uid f h = rw (f, h, is_local_provider) refl

  module _ (P : Readers) where
    retry-Adds :
        (id : ℕ) (uid : Text) (email : Option Text) (u : User) (rows : Rows) (ps : List Problem)
        (s : User × Rows)
        → retry_local E P id uid email u rows ps ≡ ok s
        → Adds u rows id uid email s
    retry-Adds id uid email u rows ps s h = elim (Option-cases (find_authenticator E id)) [
      | inl e ↦ cc (rw (e, retry_local) at h)
      | inr (a, e) ↦ elim (Bool-cases (E.is_local a.type && not (text_eq uid u.username))) [
        | inl k ↦
            let (pk, name, row) =
              create-Adds id u.username email u rows s (rw (e, k, retry_local) at h) in
            (
              pk,
              name,
              row
                  ∙ ap (λ t. rows ++ row_with t ∷ [])
                      (given_local id a u.username uid e (left _ _ k)),
            )
        | inr k ↦ cc (rw (e, k, retry_local) at h)
      ]
    ]
      where
        row_with : Text → AuthenticatorUser
        row_with t = record { user = u.pk; provider = id; uid = t; email = email }

        left : (a b : Bool) → a && b ≡ true → a ≡ true
        left a b h = ground arith

    or_retry-Adds :
        (id : ℕ) (uid : Text) (email : Option Text) (u : User) (rows : Rows)
        (r : Result (User × Rows)) (s : User × Rows)
        → create_authenticator_user E id (some uid) email u rows ≡ r
        → or_retry E P id uid email u rows r ≡ ok s
        → Adds u rows id uid email s
    or_retry-Adds id uid email u rows (ok t) s e h = create-Adds id uid email u rows s (e ∙ h)
    or_retry-Adds id uid email u rows raised s e h = cc
    or_retry-Adds id uid email u rows (invalid ps) s e h = retry-Adds id uid email u rows ps s h

    -- The row of an entry, if it has a uid.
    abbrev row_at : ℕ → Text → Number → Text → Option Text → List AuthenticatorUser
    row_at pk username not_integer uid email = []
    row_at pk username negative uid email = []
    row_at pk username (natural id) uid email = row_for pk username id uid email ∷ []

    abbrev row_of : ℕ → Text → Text → Option Text → Option Text → List AuthenticatorUser
    row_of pk username key none email = []
    row_of pk username key (some uid) email = row_at pk username (P.int key) uid email

    -- The rows that a request asks for, for the user with this key and name.
    abbrev pub submitted : ℕ → Text → List Entry → List AuthenticatorUser
    submitted pk username [] = []
    submitted pk username (e ∷ es) =
        row_of pk username e.key e.uid e.email ++ submitted pk username es

    abbrev AddsAll : User → Rows → List AuthenticatorUser → User × Rows → Type 0
    AddsAll u rows new s = (s.0.pk ≡ u.pk) × (s.0.username ≡ u.username) × (s.1 ≡ rows ++ new)

    adds_nothing :
        (u : User) (rows : Rows) (s : User × Rows) → ok (u, rows) ≡ ok s → AddsAll u rows [] s
    adds_nothing u rows s h =
        let e = same h in
        (ap (λ t. t.0.pk) e, ap (λ t. t.0.username) e, ap (λ t. t.1) e ∙ sym (append-nil rows))
      where
        same : ok (u, rows) ≡ ok s → s ≡ (u, rows)
        same k = cc

    add_at-Adds :
        (n : Number) (uid : Text) (email : Option Text) (u : User) (rows : Rows) (s : User × Rows)
        → add_at E P n uid email u rows ≡ ok s
        → AddsAll u rows (row_at u.pk u.username n uid email) s
    unfolding add_authenticator_from_associated_field
    add_at-Adds not_integer uid email u rows s h = cc
    add_at-Adds negative uid email u rows s h = cc
    add_at-Adds (natural id) uid email u rows s h = or_retry-Adds id uid email u rows _ s refl h

    add_entry-Adds :
        (key : Text) (uid email : Option Text) (u : User) (rows : Rows) (s : User × Rows)
        → add_entry E P key uid email u rows ≡ ok s
        → AddsAll u rows (row_of u.pk u.username key uid email) s
    add_entry-Adds key none email u rows s h = adds_nothing u rows s h
    add_entry-Adds key (some uid) email u rows s h = add_at-Adds (P.int key) uid email u rows s h

    -- The loop over the entries appends the rows that they ask for.
    pub add_entries-submitted :
        (es : List Entry) (u : User) (rows : Rows) (s : User × Rows)
        → add_entries E P es u rows ≡ ok s
        → AddsAll u rows (submitted u.pk u.username es) s
    unfolding add_entries
    add_entries-submitted [] u rows s h = adds_nothing u rows s h
    add_entries-submitted (e ∷ es) u rows s h =
        let (q, one, rest) = bind-ok _ _ s h in
        let (pk, name, new) = add_entry-Adds e.key e.uid e.email u rows q one in
        let (pk', name', new') = add_entries-submitted es q.0 q.1 s rest in
        (
          pk' ∙ pk,
          name' ∙ name,
          new'
              ∙ ap (λ l. l ++ submitted q.0.pk q.0.username es) new
              ∙ ap
                  (λ n.
                    (rows ++ row_of u.pk u.username e.key e.uid e.email)
                    ++ submitted n q.0.username es)
                  pk
              ∙ ap
                  (λ t. (rows ++ row_of u.pk u.username e.key e.uid e.email) ++ submitted u.pk t es)
                  name
              ∙ append_assoc rows _ _,
        )
