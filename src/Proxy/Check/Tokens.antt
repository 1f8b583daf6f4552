-- ===== src/Proxy/Check/Tokens.antt =====
-- Which responses carry a gateway token, and whose.
use jewel.Prelude.{
  ℕ, true, ◌≡◌, ◌≤◌, ◌<◌, ◌+◌, refl, ◌⊎◌, inl, inr, Text, text, text_eq, Option, none, some, [],
  ◌∷◌, Bool-cases, if◌then◌else◌, any, arith,
}
use jewel.Proxy.Request.{
  Request, Response, ok_response, Outcome, returned, DjangoRequest, django_request,
}
use jewel.Proxy.Denial.Shape.{is_ok}
use jewel.Proxy.Check.Cases.{bare_response, check_rule}
use jewel.Proxy.Session.{Cache, IsLawful, User, get_jwt_for_user}
use jewel.Proxy.Session.Fresh.{IsFresh, get_jwt_for_user-IsFresh}
use jewel.Proxy.Check.{
  Auth, Credentials, accepted, Env, check_oauth2_scope_permission, add_trusted_proxy_header,
  return_authenticated, check, with_jwt,
}

module _ (C : Cache) (E : Env) where
  -- The response with a token, which hides the client's own Authorization header unless the token
  -- is sent under that name.
  abbrev pub token_response : Text → Response
  token_response jwt =
      ok_response
        (add_trusted_proxy_header E (record { key = E.gateway_token_name; value = jwt } ∷ []))
        (if text_eq E.gateway_token_name (text "Authorization")
          then []
          else text "Authorization" ∷ [])
        []

  -- The token in the response is the one of the user that was authenticated, with a scope that
  -- permits the request.
  abbrev pub HasToken : DjangoRequest → Credentials → C.State → Response → Type 0
  HasToken r c s response =
      (user : User) × (auth : Option Auth) × (pk : ℕ) × (jwt : Text) × (c
        ≡ accepted (some user) auth)
      × (user.pk ≡ some pk)
      × (check_oauth2_scope_permission E r auth ≡ none)
      × ((get_jwt_for_user C E.issuer pk user E.clock s).0 ≡ some jwt)
      × (response ≡ token_response jwt)

  return_authenticated-token :
      (jwt : Text)
      → return_authenticated E (record { key = E.gateway_token_name; value = jwt } ∷ [])
        ≡ token_response jwt
  unfolding return_authenticated any
  return_authenticated-token jwt =
      elim (Bool-cases (text_eq E.gateway_token_name (text "Authorization"))) [
        | inl same ↦ rw same
        | inr other ↦ rw other
      ]

  abbrev Passes : DjangoRequest → Credentials → C.State → Outcome × C.State → Type 0
  Passes r c s (o, s') =
      (response : Response)
      → o ≡ returned response
      → is_ok response ≡ true
      → (response ≡ bare_response C E) ⊎ HasToken r c s response

  issued-Passes :
      (r : DjangoRequest) (c : Credentials) (s : C.State) (user : User) (auth : Option Auth)
      (pk : ℕ)
      → c ≡ accepted (some user) auth
      → user.pk ≡ some pk
      → check_oauth2_scope_permission E r auth ≡ none
      → (found : Option Text) (s' : C.State)
      → (get_jwt_for_user C E.issuer pk user E.clock s).0 ≡ found
      → Passes r c s (with_jwt C E (found, s'))
  issued-Passes r c s user auth pk e e' scope none s' found response h ok = cc
  issued-Passes r c s user auth pk e e' scope (some jwt) s' found response h ok =
      inr (user, auth, pk, jwt, e, e', scope, found, cc (return_authenticated-token jwt))

  -- A request passes the filter in one of two ways. With a bare response, which gives the service
  -- no token; or with a gateway token, which then is that of the authenticated user, who has a
  -- primary key and whose scope permits the request, and the response hides the client's own
  -- Authorization header unless the token itself is sent under that name.
  pub check_passes_cases :
      (q : Request) (r : DjangoRequest) (s : C.State) (response : Response)
      → E.middleware (django_request q) ≡ some r
      → (check C E q s).0 ≡ returned response
      → is_ok response ≡ true
      → (response ≡ bare_response C E) ⊎ HasToken r (E.credentials r) s response
  check_passes_cases q r s response built h ok =
      check_rule C E r q.path s (E.credentials r) (Passes r (E.credentials r) s) (λ d e _. inl (cc))
        (λ d e d' e' ok'. ground (arith, e)) (λ d e _. cc)
        (λ user auth pk e e' scope.
          let (found, s') = get_jwt_for_user C E.issuer pk user E.clock s in
          issued-Passes r _ s user auth pk e e' scope found s' refl)
        q refl refl built response h ok

  -- After any request the cache holds no token of another user and none about to expire, if this
  -- held before, the users that authenticate are those that the keys stand for, and the clock does
  -- not run backwards.
  pub check-IsFresh :
      (owner : ℕ → Text) (drift t₀ : ℕ) (q : Request) (r : DjangoRequest) (s : C.State)
      → IsLawful C
      → E.issuer.buffer < E.issuer.expiration
      → E.middleware (django_request q) ≡ some r
      → ((user : User) (auth : Option Auth) (pk : ℕ)
          → E.credentials r ≡ accepted (some user) auth
          → user.pk ≡ some pk
          → user.ansible_id ≡ owner pk)
      → t₀ ≤ E.clock.looked_up
      → E.clock.looked_up ≤ E.clock.signed
      → E.clock.signed ≤ E.clock.stored
      → E.clock.stored ≤ E.clock.signed + drift
      → IsFresh C E.issuer owner drift t₀ s
      → IsFresh C E.issuer owner drift E.clock.stored (check C E q s).1
  check-IsFresh owner drift t₀ q r s lawful enough built own a b c d fresh =
      check_rule C E r q.path s (E.credentials r)
        (λ o. IsFresh C E.issuer owner drift E.clock.stored o.1) later (λ _ _. later) later
        (λ user auth pk e e' scope.
          with_jwt-IsFresh _
            (get_jwt_for_user-IsFresh C E.issuer owner drift lawful enough pk t₀ user E.clock s
              fresh a b c d (own user auth pk e e')).0)
        q refl refl built
    where
      later : IsFresh C E.issuer owner drift E.clock.stored s
      later = λ pk now jwt le h. fresh pk now jwt (omega arith) h

      with_jwt-IsFresh :
          (o : Option Text × C.State)
          → IsFresh C E.issuer owner drift E.clock.stored o.1
          → IsFresh C E.issuer owner drift E.clock.stored (with_jwt C E o).1
      with_jwt-IsFresh (none, s') h = h
      with_jwt-IsFresh (some jwt, s') h = h
