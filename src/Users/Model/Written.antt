-- ===== src/Users/Model/Written.antt =====
-- models/user.py with utils/jwt_cache.py and proxy/control_plane.py: what a save does
-- to the gateway tokens that the cache has.
use jewel.Prelude.{
  ℕ, ◌≤◌, ◌≡◌, ◌≢◌, refl, ap, sym, ◌∙◌, Bool, true, false, Text, text_eq, text_eq_iff, Option, none,
  some, [], map, All, All-both, All-map, inl, inr, arith, Bool-cases, if◌then◌else◌, or_default,
  ◌==◌, ==_iff,
}
use jewel.Proxy.Session.{
  Cache, IsLawful, UserData, Payload, Issuer, session_key, cached_jwt, invalidate_cached_jwt,
}
use jewel.Users.{User}
use jewel.Users.Model.{
  Hashers, with_saved_password, same_email, same_bool, fields_changed, Instance, Columns,
  all_columns, email_column, write_user, State,
}

abbrev pub data_of : User → UserData
data_of u = record {
  username = u.username;
  first_name = u.first_name;
  last_name = u.last_name;
  email = or_default u.email [];
  is_superuser = u.is_superuser;
}

same_email-eq : (s t : Option Text) → same_email s t ≡ true → s ≡ t
same_email-eq none none h = refl
same_email-eq none (some t) h = cc
same_email-eq (some s) none h = cc
same_email-eq (some s) (some t) h = ground (arith, text_eq_iff s t)

same_bool-eq : (a b : Bool) → same_bool a b ≡ true → a ≡ b
same_bool-eq a b h = ground arith

unchanged-data : (a b : User) → fields_changed a b ≡ false → data_of b ≡ data_of a
unfolding fields_changed
unchanged-data a b h = ground (
  arith,
  text_eq_iff a.username b.username,
  text_eq_iff a.first_name b.first_name,
  text_eq_iff a.last_name b.last_name,
  same_email-eq a.email b.email,
  same_bool-eq a.is_superuser b.is_superuser,
)

abbrev with_email_of : UserData → UserData → UserData
with_email_of d x = record d { email = x.email }

-- A row keeps its key.
write-pk : (columns : Columns) (u v : User) → (write_user columns u v).pk ≡ v.pk
write-pk all_columns u v = ground arith
write-pk email_column u v = ground arith

write-other : (columns : Columns) (u v : User) → (v.pk == u.pk) ≡ false → write_user columns u v ≡ v
write-other all_columns u v e = rw e refl
write-other email_column u v e = rw e refl

module _ (H : Hashers) (C : Cache) (I : Issuer) where
  -- The token was signed for the data of this user.
  abbrev pub Carries : User → Text → Type 0
  Carries u jwt = (p : Payload) × (I.encode p ≡ some jwt) × (p.user_data ≡ data_of u)

  -- From the time `t` on, a token that the cache has for a user carries the data of the table.
  abbrev pub IsCurrent : ℕ → State H C I → Type 0
  IsCurrent t s =
      (pk now : ℕ) (jwt : Text)
      → t ≤ now
      → cached_jwt C I pk now s.cache ≡ some jwt
      → All (λ u. u.pk ≡ pk → Carries u jwt) s.users

  -- The row of a user is as in this copy of it.
  abbrev pub IsLoaded : User → State H C I → Type 0
  IsLoaded copy s = All (λ v. v.pk ≡ copy.pk → data_of v ≡ data_of copy) s.users

  -- Writing a user whose data the row already has changes no data.
  write-data :
      (columns : Columns) (u v : User)
      → data_of v ≡ data_of u
      → data_of (write_user columns u v) ≡ data_of v
  write-data all_columns u v d = elim (Bool-cases (v.pk == u.pk)) [
    | inl e ↦ rw (e, data_of) (sym d)
    | inr e ↦ rw (e, data_of) refl
  ]
  write-data email_column u v d = elim (Bool-cases (v.pk == u.pk)) [
    | inl e ↦ rw (e, data_of) (ap (λ (x : UserData). with_email_of (data_of v) x) (sym d))
    | inr e ↦ rw (e, data_of) refl
  ]

  -- A save of a user whose data has not changed leaves every token as good as it was.
  write-Carries :
      (columns : Columns) (u v : User) (jwt : Text) (j : ℕ)
      → (v.pk ≡ u.pk → data_of v ≡ data_of u) × (v.pk ≡ j → Carries v jwt)
      → (write_user columns u v).pk ≡ j
      → Carries (write_user columns u v) jwt
  write-Carries columns u v jwt j (same, carries) k = elim (Bool-cases (v.pk == u.pk)) [
    | inl e ↦
        let here : v.pk ≡ u.pk = (==_iff v.pk u.pk).0 e in
        let (p, signed, d) = carries (sym (write-pk columns u v) ∙ k) in
        (p, signed, d ∙ sym (write-data columns u v (same here)))
    | inr e ↦
        let unwritten = write-other columns u v e in
        rw unwritten (carries (sym (write-pk columns u v) ∙ k))
  ]

  -- After an invalidation the cache has the tokens of the other users.
  pub invalidated :
      (lawful : IsLawful C) (pk j now : ℕ) (jwt : Text) (c : C.State)
      → cached_jwt C I j now (invalidate_cached_jwt C I pk c) ≡ some jwt
      → (pk ≢ j) × (cached_jwt C I j now c ≡ some jwt)
  unfolding cached_jwt invalidate_cached_jwt
  invalidated lawful pk j now jwt c h =
      go (text_eq (session_key pk) (session_key j)) refl
        (sym (lawful.get-delete c now (session_key pk) (session_key j)) ∙ h)
    where
      go :
          (b : Bool)
          → text_eq (session_key pk) (session_key j) ≡ b
          → (if b then none else C.get c now (session_key j)) ≡ some jwt
          → (pk ≢ j) × (C.get c now (session_key j) ≡ some jwt)
      go true e k = cc
      go false e k = (
        λ same. cc ((text_eq_iff (session_key pk) (session_key j)).1 (ap session_key same), e),
        k,
      )

  -- The instance is not of a managed user; and if it is to be saved with the fields that it was made
  -- with, the table still has these fields.
  pub record IsEdited (i : Instance) (s : State H C I) : Type 0 where
    pub same_pk : i.original.pk ≡ i.user.pk
    pub loaded : fields_changed i.original i.user ≡ false → IsLoaded i.original s
    pub unmanaged : i.user.managed ≡ false

  data_of_saved : (u : User) → data_of (with_saved_password H u) ≡ data_of u
  unfolding with_saved_password
  data_of_saved u = refl

  pk_of_saved : (u : User) → (with_saved_password H u).pk ≡ u.pk
  unfolding with_saved_password
  pk_of_saved u = refl

  pub unchanged-IsCurrent :
      (columns : Columns) (i : Instance) (s : State H C I)
      → IsEdited i s
      → fields_changed i.original i.user ≡ false
      → (j : ℕ) (jwt : Text) → All (λ v. v.pk ≡ j → Carries v jwt) s.users
      → All
          (λ v. v.pk ≡ j → Carries v jwt)
          (map (write_user columns (with_saved_password H i.user)) s.users)
  unchanged-IsCurrent columns i s edited e j jwt old =
      let u = with_saved_password H i.user in
      All-map _ _ _ (λ v h. write-Carries columns u v jwt j (λ k. same v (h.0 (at v k)), h.1))
        s.users (All-both _ _ s.users (edited.loaded e) old)
    where
      at : (v : User) → v.pk ≡ (with_saved_password H i.user).pk → v.pk ≡ i.original.pk
      at v k = k ∙ pk_of_saved i.user ∙ sym edited.same_pk

      same :
          (v : User)
          → data_of v ≡ data_of i.original
          → data_of v ≡ data_of (with_saved_password H i.user)
      same v d = d ∙ sym (unchanged-data i.original i.user e) ∙ sym (data_of_saved i.user)

  pub changed-IsCurrent :
      (columns : Columns) (i : Instance) (s : State H C I) (j : ℕ) (jwt : Text)
      → i.user.pk ≢ j
      → All (λ v. v.pk ≡ j → Carries v jwt) s.users
      → All
          (λ v. v.pk ≡ j → Carries v jwt)
          (map (write_user columns (with_saved_password H i.user)) s.users)
  changed-IsCurrent columns i s j jwt ne old = All-map _ _ _ other s.users old
    where
      other :
          (v : User)
          → (v.pk ≡ j → Carries v jwt)
          → (write_user columns (with_saved_password H i.user) v).pk ≡ j
          → Carries (write_user columns (with_saved_password H i.user) v) jwt
      other v h k = elim (Bool-cases (v.pk == (with_saved_password H i.user).pk)) [
        | inl e ↦ absurd (
            ne (
              sym (pk_of_saved i.user)
              ∙ sym ((==_iff v.pk _).0 e)
              ∙ sym (write-pk columns (with_saved_password H i.user) v)
              ∙ k))
        | inr e ↦
            rw (write-other columns (with_saved_password H i.user) v e)
              (h (sym (write-pk columns (with_saved_password H i.user) v) ∙ k))
      ]
