-- ===== src/Users/Model/Tokens.antt =====
-- models/user.py with utils/jwt_cache.py and proxy/control_plane.py: the cached gateway token of a
-- user, and the data that the table has.
use jewel.Prelude.{
  ℕ, ◌≤◌, ◌-◌, ◌≡◌, refl, ap, sym, ◌∙◌, Bool, true, false, not, ◌&&◌, Text, text_eq_iff, Option,
  none, some, [], All-mono, ◌⊎◌, inl, inr, arith, Bool-cases, if◌then◌else◌, or_default,
}
use jewel.Proxy.Session.{
  Cache, IsLawful, UserData, Payload, Issuer, Clock, payload, create_signed_jwt, session_key,
  store_jwt, cached_jwt, invalidate_cached_jwt, get_jwt_for_user,
}
use jewel.Proxy.Session
use jewel.Proxy.Session.Fresh.{session_key-injective, get_jwt_for_user-state}
use jewel.Users.{User}
use jewel.Users.Model.{Hashers, fields_changed, Instance, Columns, State, save}
use jewel.Users.Model.Written.{
  data_of, Carries, IsCurrent, IsLoaded, IsEdited, invalidated, unchanged-IsCurrent,
  changed-IsCurrent,
}

pick {ℓ} :
    {A : Type ℓ} (m c b : Bool) (x y : A)
    → m ≡ false
    → c ≡ b
    → (if not m && c then x else y) ≡ (if b then x else y)
pick m c b x y e e' = ground arith

-- What a lookup after a store can be.
if_entry :
    (same hit : Bool) (jwt found : Text) (before : Option Text)
    → (if same then (if hit then some jwt else none) else before) ≡ some found
    → ((same ≡ true) × (jwt ≡ found)) ⊎ (before ≡ some found)
if_entry same hit jwt found before h = ground arith

module _ (H : Hashers) (C : Cache) (I : Issuer) (lawful : IsLawful C) where
  save-IsCurrent :
      (t : ℕ) (columns : Columns) (i : Instance) (s : State H C I)
      → IsCurrent H C I t s
      → IsEdited H C I i s
      → IsCurrent H C I t (save H C I columns i s).1
  unfolding save
  save-IsCurrent t columns i s current edited j now jwt le h =
      elim (Bool-cases (fields_changed i.original i.user)) [
        | inl e ↦
            let cached =
              sym (ap (λ c. cached_jwt C I j now c) (pick _ _ true _ _ edited.unmanaged e)) ∙ h in
            let (ne, before) = invalidated H C I lawful i.user.pk j now jwt s.cache cached in
            changed-IsCurrent H C I columns i s j jwt ne (current j now jwt le before)
        | inr e ↦
            let cached =
              sym (ap (λ c. cached_jwt C I j now c) (pick _ _ false _ _ edited.unmanaged e)) ∙ h in
            unchanged-IsCurrent H C I columns i s edited e j jwt (current j now jwt le cached)
      ]

  -- What `get_jwt_for_user` reads of a user.
  abbrev pub session_user : User → Text → Session.User
  session_user u ansible_id = record {
    pk = some u.pk;
    username = u.username;
    first_name = u.first_name;
    last_name = u.last_name;
    email = or_default u.email [];
    is_superuser = u.is_superuser;
    ansible_id = ansible_id;
  }

  -- The state after a gateway token is asked for.
  abbrev pub after_request : User → Text → Clock → State H C I → State H C I
  after_request u ansible_id clock s = record s {
    cache = (get_jwt_for_user C I u.pk (session_user u ansible_id) clock s.cache).1;
  }

  stored-cases :
      (pk j t now : ℕ) (signed jwt : Text) (c : C.State)
      → t ≤ now
      → cached_jwt C I j now (store_jwt C I pk signed t c) ≡ some jwt
      → ((pk ≡ j) × (signed ≡ jwt)) ⊎ (cached_jwt C I j now c ≡ some jwt)
  unfolding cached_jwt store_jwt
  stored-cases pk j t now signed jwt c le k =
      elim (if_entry _ _ signed jwt (C.get c now (session_key j)) (
        sym (
          lawful.get-set c t now (I.expiration - I.buffer) (session_key pk) (session_key j) signed
            le)
        ∙ k)) [
          | inl (same, e) ↦ inl (session_key-injective pk j ((text_eq_iff _ _).0 same), e)
          | inr before ↦ inr before
        ]

  signed-Carries :
      (u : User) (ansible_id : Text) (clock : Clock) (jwt : Text)
      → create_signed_jwt I (session_user u ansible_id) [] clock.signed ≡ some jwt
      → Carries H C I u jwt
  unfolding create_signed_jwt payload
  signed-Carries u ansible_id clock jwt h =
      (payload I (session_user u ansible_id) [] clock.signed, h, refl)

  served-IsCurrent :
      (t : ℕ) (u : User) (ansible_id : Text) (clock : Clock) (s : State H C I)
      → IsCurrent H C I t s
      → t ≤ clock.stored
      → IsLoaded H C I u s
      → IsCurrent H C I clock.stored (after_request u ansible_id clock s)
  served-IsCurrent t u ansible_id clock s current le loaded j now jwt le' h =
      elim (get_jwt_for_user-state C I lawful u.pk (session_user u ansible_id) clock s.cache) [
        | inl e ↦ current j now jwt (omega arith) (sym (ap (cached_jwt C I j now) e) ∙ h)
        | inr (signed, created, e) ↦ elim (stored signed (sym (ap (cached_jwt C I j now) e) ∙ h)) [
          | inl (here, same) ↦
              All-mono _ _ (λ v k at. carries v signed created (k (at ∙ sym here)) same) s.users
                loaded
          | inr before ↦ current j now jwt (omega arith) before
        ]
      ]
    where
      stored :
          (signed : Text)
          → cached_jwt C I j now (store_jwt C I u.pk signed clock.stored s.cache) ≡ some jwt
          → ((u.pk ≡ j) × (signed ≡ jwt)) ⊎ (cached_jwt C I j now s.cache ≡ some jwt)
      stored signed k = stored-cases u.pk j clock.stored now signed jwt s.cache le' k

      carries :
          (v : User) (signed : Text)
          → create_signed_jwt I (session_user u ansible_id) [] clock.signed ≡ some signed
          → data_of v ≡ data_of u
          → signed ≡ jwt
          → Carries H C I v jwt
      carries v signed created d same =
          let (p, encoded, du) = signed-Carries u ansible_id clock signed created in
          (p, encoded ∙ ap some same, du ∙ sym d)

  -- Saves of users, and requests that are given gateway tokens, in any order, with the time of the
  -- last token that was stored. An instance may be saved several times.
  pub data Run (t₀ : ℕ) (s₀ : State H C I) : ℕ → State H C I → Type 0 where
    start : Run t₀ s₀ t₀ s₀
    saved :
        {t : ℕ} {s : State H C I} (columns : Columns) (i : Instance)
        → Run t₀ s₀ t s
        → IsEdited H C I i s
        → Run t₀ s₀ t (save H C I columns i s).1
    served :
        {t : ℕ} {s : State H C I} (u : User) (ansible_id : Text) (clock : Clock)
        → Run t₀ s₀ t s
        → t ≤ clock.stored
        → IsLoaded H C I u s
        → Run t₀ s₀ clock.stored (after_request u ansible_id clock s)

  -- If every gateway token in the cache carries the data that the table has of its user, then so it
  -- is after any sequence of saves of unmanaged users and of requests, whose times do not go back.
  -- Each user who makes a request is as the table has them then; and an instance that is saved with
  -- just the fields that it was made with, so that the save finds no change, was made with fields
  -- that the table still has. The cache behaves as Django documents it.
  pub Run-IsCurrent :
      {t₀ : ℕ} {s₀ : State H C I} {t : ℕ} {s : State H C I}
      → IsCurrent H C I t₀ s₀
      → Run t₀ s₀ t s
      → IsCurrent H C I t s
  Run-IsCurrent h start = h
  Run-IsCurrent h (saved {t} {s} columns i run edited) =
      save-IsCurrent t columns i s (Run-IsCurrent h run) edited
  Run-IsCurrent h (served {t} {s} u ansible_id clock run le loaded) =
      served-IsCurrent t u ansible_id clock s (Run-IsCurrent h run) le loaded
