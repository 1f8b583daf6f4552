-- ===== src/Proxy/Check/Cases.antt =====
-- How a call of `_ExternalAuth.Check` can end: one rule for all that is claimed of every call.
use jewel.Prelude.{
  ℕ, Bool, false, not, ◌&&◌, ◌≡◌, refl, zero, suc, inl, inr, Text, text, Option, none, some, [],
  Bool-cases,
}
use jewel.Proxy.Request.{
  Request, Response, ok_response, Outcome, returned, raised, DjangoRequest, django_request,
}
use jewel.Proxy.Denial.{return_no_auth_with_reason}
use jewel.Proxy.Denial.Shape.{is_ok, is_ok-denied}
use jewel.Proxy.Session.{Cache, User, get_jwt_for_user}
use jewel.Proxy.Check.{
  Auth, Credentials, accepted, authentication_failed, permission_denied, other_error, Env,
  is_basic_auth, is_service_auth, is_gateway_path, check_oauth2_scope_permission,
  add_trusted_proxy_header, return_no_authentication_required, return_not_authenticated,
  try_authenticate_request, skips_authentication, check, after_user, authorize, authorize_pk,
  authorize_scope, with_jwt,
}

module _ (C : Cache) (E : Env) where
  -- A response with no token: at most the signed proxy header is added.
  abbrev pub bare_response : Response
  bare_response = ok_response (add_trusted_proxy_header E []) [] []

  module _ (r : DjangoRequest) (path : Text) (s : C.State) (c : Credentials)
      (P : Outcome × C.State → Type 0) (bare : P (returned bare_response, s))
      (denied : (d : Response) → is_ok d ≡ false → P (returned d, s)) (failed : P (raised, s))
      (issued : (user : User) (auth : Option Auth) (pk : ℕ)
        → c ≡ accepted (some user) auth
        → user.pk ≡ some pk
        → check_oauth2_scope_permission E r auth ≡ none
        → P (with_jwt C E (get_jwt_for_user C E.issuer pk user E.clock s))) where
    scope_denies :
        (auth : Option Auth) (d : Response)
        → check_oauth2_scope_permission E r auth ≡ some d
        → is_ok d ≡ false
    unfolding check_oauth2_scope_permission
    scope_denies auth d e = elim (Bool-cases (E.scope_permits r auth)) [
      | inl permitted ↦ cc (rw permitted at e)
      | inr forbidden ↦ from_token auth (rw forbidden at e)
    ]
      where
        reason : Text
        reason = text "Your token has insufficient scope to perform this action"

        denial : (a : Option Auth) → Option Response
        denial none = none
        denial (some a) = some (return_no_auth_with_reason r reason none 7 403)

        from_token : (a : Option Auth) → denial a ≡ some d → is_ok d ≡ false
        from_token none h = cc
        from_token (some a) h = cc (is_ok-denied r reason none 7 403)

    scope_rule :
        (user : User) (auth : Option Auth) (pk : ℕ)
        → c ≡ accepted (some user) auth
        → user.pk ≡ some pk
        → (o : Option Response) → check_oauth2_scope_permission E r auth ≡ o
        → P (authorize_scope C E pk user o s)
    scope_rule user auth pk e e' none scope = issued user auth pk e e' scope
    scope_rule user auth pk e e' (some d) scope = denied d (scope_denies auth d scope)

    pk_rule :
        (user : User) (auth : Option Auth)
        → c ≡ accepted (some user) auth
        → (o : Option ℕ) → user.pk ≡ o
        → P (authorize_pk C E r user auth o s)
    unfolding return_not_authenticated
    pk_rule user auth e none e' = bare
    pk_rule user auth e (some zero) e' = bare
    pk_rule user auth e (some (suc n)) e' = scope_rule user auth (suc n) e e' _ refl

    authorize_rule :
        (user : Option User) (auth : Option Auth)
        → c ≡ accepted user auth
        → P (authorize C E r user auth s)
    unfolding return_not_authenticated
    authorize_rule none auth e = bare
    authorize_rule (some user) auth e = pk_rule user auth e user.pk refl

    -- The two guards on internal routes, around what is left to show.
    after_user_rule :
        (internal : Bool) (user : Option User) (auth : Option Auth)
        → P (authorize C E r user auth s)
        → P (after_user C E internal path r user auth s)
    unfolding return_no_authentication_required
    after_user_rule internal user auth rest =
        elim (Bool-cases (internal && not (is_service_auth auth))) [
          | inl foreign ↦ rw foreign (denied _ (is_ok-denied r _ none 16 401))
          | inr service ↦ elim (Bool-cases (internal && is_gateway_path path)) [
            | inl gateway ↦ rw (service, gateway) bare
            | inr other ↦ rw (service, other) rest
          ]
        ]

    try_rule :
        (internal reject : Bool) (c' : Credentials)
        → c ≡ c'
        → P (try_authenticate_request C E internal reject path r c' s)
    unfolding try_authenticate_request return_not_authenticated
    try_rule internal reject (accepted user auth) e =
        after_user_rule internal user auth (authorize_rule user auth e)
    try_rule internal reject authentication_failed e =
        elim (Bool-cases (reject && is_basic_auth r)) [
          | inl basic ↦ rw basic (denied _ (is_ok-denied r _ none 16 401))
          | inr other ↦ rw other (after_user_rule internal none none bare)
        ]
    try_rule internal reject (permission_denied t) e = denied _ (is_ok-denied r t _ 7 403)
    try_rule internal reject other_error e = failed

    pub check_rule :
        (q : Request)
        → q.path ≡ path
        → E.credentials r ≡ c
        → E.middleware (django_request q) ≡ some r
        → P (check C E q s)
    unfolding check return_no_authentication_required
    check_rule q same e built = elim (Bool-cases (skips_authentication C E q)) [
      | inl skipped ↦ rw (built, skipped) bare
      | inr guarded ↦ rw (built, guarded, same, e) (try_rule _ _ c refl)
    ]
