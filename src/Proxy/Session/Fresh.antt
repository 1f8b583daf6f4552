-- ===== src/Proxy/Session/Fresh.antt =====
-- Cached gateway tokens: they belong to their user, and they are not about to expire.
use mathlib.Core.List.{append_cancel_left}
use jewel.Prelude.{
  ℕ, ◌+◌, ◌-◌, ◌≤◌, ◌<◌, ◌≡◌, refl, sym, ◌∙◌, Text, text_eq, text_eq_iff, text_eq_refl, Option,
  none, some, [], ◌∷◌, arith, if◌then◌else◌, inl, inr, ◌⊎◌, Bool, show, show-injective, text, ltb,
  ltb→lt, true,
}
use jewel.Proxy.Session.{
  Cache, IsLawful, User, Payload, Issuer, Clock, payload, create_signed_jwt, session_key, store_jwt,
  cached_jwt, invalidate_cached_jwt, issue_jwt, use_cached, get_jwt_for_user,
}

-- Different users have different cache keys.
pub session_key-injective : (m n : ℕ) → session_key m ≡ session_key n → m ≡ n
unfolding session_key
session_key-injective m n h =
    show-injective m n (append_cancel_left (text "jwt-session-") (show m) (show n) h)

-- What a lookup after a store can be: the stored entry, or what was there before.
if_entry :
    (same hit : Bool) (jwt found : Text) (before : Option Text)
    → (if same then (if hit then some jwt else none) else before) ≡ some found
    → ((same ≡ true) × (hit ≡ true) × (jwt ≡ found)) ⊎ (before ≡ some found)
if_entry same hit jwt found before h = ground arith

module _ (C : Cache) (I : Issuer) (owner : ℕ → Text) (drift : ℕ) where
  -- A token for the user with this key, with more than the buffer left at the time `now`, up to
  -- the time that one call takes between signing and storing.
  abbrev pub IsGood : ℕ → ℕ → Text → Type 0
  IsGood pk now jwt =
      (p : Payload) × (I.encode p ≡ some jwt)
      × (p.sub ≡ owner pk)
      × (now + I.buffer < p.exp + drift)

  -- From the time `t` on, all that the cache gives out is good.
  abbrev pub IsFresh : ℕ → C.State → Type 0
  IsFresh t s =
      (pk now : ℕ) (jwt : Text) → t ≤ now → cached_jwt C I pk now s ≡ some jwt → IsGood pk now jwt

  module _ (lawful : IsLawful C) (enough : I.buffer < I.expiration) where
    cached-store :
        (pk j t now : ℕ) (jwt : Text) (s : C.State)
        → t ≤ now
        → cached_jwt C I j now (store_jwt C I pk jwt t s) ≡ (
            if text_eq (session_key pk) (session_key j)
            then (if ltb now (t + (I.expiration - I.buffer)) then some jwt else none)
            else cached_jwt C I j now s)
    unfolding cached_jwt store_jwt
    cached-store pk j t now jwt s le =
        lawful.get-set s t now (I.expiration - I.buffer) (session_key pk) (session_key j) jwt le

    store-IsFresh :
        (pk t₀ t : ℕ) (jwt : Text) (s : C.State) (p : Payload)
        → IsFresh t₀ s
        → t₀ ≤ t
        → I.encode p ≡ some jwt
        → p.sub ≡ owner pk
        → t + I.expiration ≤ p.exp + drift
        → IsFresh t (store_jwt C I pk jwt t s)
    store-IsFresh pk t₀ t jwt s p fresh le encoded own late j now found le' h =
        elim (if_entry (text_eq (session_key pk) (session_key j))
          (ltb now (t + (I.expiration - I.buffer))) jwt found (cached_jwt C I j now s)
          (sym (cached-store pk j t now jwt s le') ∙ h)) [
            | inl (same, hit, e) ↦
                let pk_j : pk ≡ j = session_key-injective pk j ((text_eq_iff _ _).0 same) in
                (p, rw (← e) encoded, rw (← pk_j) own, omega (arith, ltb→lt _ _ hit))
            | inr older ↦ fresh j now found (omega arith) older
          ]

    -- A new token is good when it is handed out, and in the cache from then on.
    issue-IsFresh :
        (pk t₀ : ℕ) (user : User) (clock : Clock) (s : C.State)
        → IsFresh t₀ s
        → t₀ ≤ clock.looked_up
        → clock.looked_up ≤ clock.signed
        → clock.signed ≤ clock.stored
        → clock.stored ≤ clock.signed + drift
        → user.ansible_id ≡ owner pk
        → (r : Option Text) → r ≡ create_signed_jwt I user [] clock.signed
        → IsFresh clock.stored (issue_jwt C I pk r clock.stored s).1
          × ((jwt : Text)
              → (issue_jwt C I pk r clock.stored s).0 ≡ some jwt
              → IsGood pk clock.looked_up jwt)
    unfolding create_signed_jwt payload
    issue-IsFresh pk t₀ user clock s fresh a b c d own none e =
        (λ j now jwt le h. fresh j now jwt (omega arith) h, λ jwt h. cc)
    issue-IsFresh pk t₀ user clock s fresh a b c d own (some jwt) e =
        let p : Payload = payload I user [] clock.signed in
        (
          store-IsFresh pk t₀ clock.stored jwt s p fresh (omega arith) (sym e) own (omega arith),
          λ found h. (p, sym e ∙ h, own, omega arith),
        )

    -- A call of `get_jwt_for_user` returns a token that was signed for this user and has more than
    -- the expiration buffer left, and keeps this true of every cached token, of every user.
    pub get_jwt_for_user-IsFresh :
        (pk t₀ : ℕ) (user : User) (clock : Clock) (s : C.State)
        → IsFresh t₀ s
        → t₀ ≤ clock.looked_up
        → clock.looked_up ≤ clock.signed
        → clock.signed ≤ clock.stored
        → clock.stored ≤ clock.signed + drift
        → user.ansible_id ≡ owner pk
        → IsFresh clock.stored (get_jwt_for_user C I pk user clock s).1
          × ((jwt : Text)
              → (get_jwt_for_user C I pk user clock s).0 ≡ some jwt
              → IsGood pk clock.looked_up jwt)
    unfolding get_jwt_for_user
    get_jwt_for_user-IsFresh pk t₀ user clock s fresh a b c d own =
        from_cache (cached_jwt C I pk clock.looked_up s) refl
      where
        issued :
            IsFresh clock.stored
              (issue_jwt C I pk (create_signed_jwt I user [] clock.signed) clock.stored s).1
            × ((jwt : Text)
                → (issue_jwt C I pk (create_signed_jwt I user [] clock.signed) clock.stored s).0
                  ≡ some jwt
                → IsGood pk clock.looked_up jwt)
        issued = issue-IsFresh pk t₀ user clock s fresh a b c d own _ refl

        from_cache :
            (o : Option Text)
            → cached_jwt C I pk clock.looked_up s ≡ o
            → IsFresh clock.stored (use_cached C I pk user clock s o).1
              × ((jwt : Text)
                  → (use_cached C I pk user clock s o).0 ≡ some jwt
                  → IsGood pk clock.looked_up jwt)
        from_cache none e = issued
        from_cache (some []) e = issued
        from_cache (some (x ∷ t)) e = (
          λ j now jwt le h. fresh j now jwt (omega arith) h,
          λ jwt h. fresh pk clock.looked_up jwt a (e ∙ h),
        )

module _ (C : Cache) (I : Issuer) (lawful : IsLawful C) where
  cached-invalidate :
      (pk now : ℕ) (s : C.State) → cached_jwt C I pk now (invalidate_cached_jwt C I pk s) ≡ none
  unfolding cached_jwt invalidate_cached_jwt
  cached-invalidate pk now s =
      rw (lawful.get-delete s now (session_key pk) (session_key pk), text_eq_refl)

  issue-result : (pk now : ℕ) (r : Option Text) (s : C.State) → (issue_jwt C I pk r now s).0 ≡ r
  issue-result pk now none s = refl
  issue-result pk now (some jwt) s = refl

  -- After the cached token of a user is invalidated, the next call for this user signs a new one,
  -- from the user's data and the time of that call.
  pub get_jwt_for_user-invalidate :
      (pk : ℕ) (user : User) (clock : Clock) (s : C.State)
      → (get_jwt_for_user C I pk user clock (invalidate_cached_jwt C I pk s)).0
        ≡ create_signed_jwt I user [] clock.signed
  unfolding get_jwt_for_user
  get_jwt_for_user-invalidate pk user clock s =
      rw (cached-invalidate pk clock.looked_up s) (issue-result pk clock.stored _ _)

  -- A call leaves the cache, or stores the token that it has signed.
  pub get_jwt_for_user-state :
      (pk : ℕ) (user : User) (clock : Clock) (s : C.State)
      → ((get_jwt_for_user C I pk user clock s).1 ≡ s)
        ⊎ ((jwt : Text) × (create_signed_jwt I user [] clock.signed ≡ some jwt)
            × ((get_jwt_for_user C I pk user clock s).1 ≡ store_jwt C I pk jwt clock.stored s))
  unfolding get_jwt_for_user
  get_jwt_for_user-state pk user clock s = go (cached_jwt C I pk clock.looked_up s)
    where
      issued :
          (r : Option Text)
          → r ≡ create_signed_jwt I user [] clock.signed
          → ((issue_jwt C I pk r clock.stored s).1 ≡ s)
            ⊎ ((jwt : Text) × (create_signed_jwt I user [] clock.signed ≡ some jwt)
                × ((issue_jwt C I pk r clock.stored s).1 ≡ store_jwt C I pk jwt clock.stored s))
      issued none e = inl refl
      issued (some jwt) e = inr (jwt, sym e, refl)

      go :
          (found : Option Text)
          → ((use_cached C I pk user clock s found).1 ≡ s)
            ⊎ ((jwt : Text) × (create_signed_jwt I user [] clock.signed ≡ some jwt)
                × ((use_cached C I pk user clock s found).1 ≡ store_jwt C I pk jwt clock.stored s))
      go none = issued _ refl
      go (some []) = issued _ refl
      go (some (c ∷ jwt)) = inl refl
