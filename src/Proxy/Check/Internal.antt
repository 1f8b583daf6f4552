-- ===== src/Proxy/Check/Internal.antt =====
-- Internal routes: which requests pass the filter.
use jewel.Prelude.{
  Bool, true, false, ◌&&◌, ◌≡◌, refl, Text, Option, none, some, Bool-cases, inl, inr,
}
use jewel.Proxy.Request.{
  Request, Outcome, returned, raised, DjangoRequest, django_request, is_route_internal,
  should_reject_failed_basic_auth,
}
use jewel.Proxy.Denial.Shape.{is_ok, is_ok-denied, IsDenied, return_no_auth_with_reason-IsDenied}
use jewel.Proxy.Session.{Cache, User}
use jewel.Proxy.Check.{
  Auth, Credentials, accepted, authentication_failed, permission_denied, other_error, Env,
  is_service_auth, is_basic_auth, try_authenticate_request, skips_authentication, check, after_user,
  denied_internal,
}

abbrev pub passes : Outcome → Bool
passes (returned r) = is_ok r
passes raised = false

-- The credentials are a service token.
abbrev pub is_service : Credentials → Bool
is_service (accepted user auth) = is_service_auth auth
is_service _ = false

-- A refusal of an unauthorised request.
abbrev pub IsUnauthorized : Outcome → Type 0
IsUnauthorized (returned r) = IsDenied 16 401 r
IsUnauthorized raised = ⊥

abbrev reads_user : Credentials → Bool
reads_user (accepted user auth) = true
reads_user authentication_failed = true
reads_user _ = false

module _ (C : Cache) (E : Env) where
  after_user_refused :
      (path : Text) (r : DjangoRequest) (user : Option User) (auth : Option Auth) (s : C.State)
      → is_service_auth auth ≡ false
      → after_user C E true path r user auth s ≡ (returned (denied_internal r), s)
  after_user_refused path r user auth s e = rw e

  try_refused :
      (reject : Bool) (path : Text) (r : DjangoRequest) (c : Credentials) (s : C.State)
      → reads_user c ≡ true
      → is_service c ≡ false
      → IsUnauthorized (try_authenticate_request C E true reject path r c s).0
  unfolding try_authenticate_request is_service_auth
  try_refused reject path r (accepted user auth) s h e =
      rw (after_user_refused path r user auth s e)
        (return_no_auth_with_reason-IsDenied r _ none 16 401)
  try_refused reject path r authentication_failed s h e =
      elim (Bool-cases (reject && is_basic_auth r)) [
        | inl basic ↦ rw basic (return_no_auth_with_reason-IsDenied r _ none 16 401)
        | inr other ↦ rw other (return_no_auth_with_reason-IsDenied r _ none 16 401)
      ]
  try_refused reject path r (permission_denied t) s h e = cc
  try_refused reject path r other_error s h e = cc

  refused_fails : (o : Outcome) → IsUnauthorized o → passes o ≡ false
  refused_fails (returned r) (kind, body, message, e) = rw e
  refused_fails raised h = refl

  try_passes :
      (reject : Bool) (path : Text) (r : DjangoRequest) (c : Credentials) (s : C.State)
      → passes (try_authenticate_request C E true reject path r c s).0 ≡ true
      → is_service c ≡ true
  try_passes reject path r (accepted user auth) s h = elim (Bool-cases (is_service_auth auth)) [
    | inl service ↦ service
    | inr other ↦ cc (refused_fails _ (try_refused reject path r (accepted user auth) s refl other))
  ]
  try_passes reject path r authentication_failed s h =
      cc (refused_fails _ (try_refused reject path r authentication_failed s refl refl))
  try_passes reject path r (permission_denied t) s h =
      unfold try_authenticate_request in cc (is_ok-denied r t (some (E.csrf_page r t)) 7 403)
  try_passes reject path r other_error s h = unfold try_authenticate_request in h

  module _ (q : Request) (r : DjangoRequest) (s : C.State)
      (built : E.middleware (django_request q) ≡ some r) (internal : is_route_internal q ≡ true)
      (guarded : skips_authentication C E q ≡ false) where
    check-try :
        check C E q s
        ≡ try_authenticate_request C E true
            (should_reject_failed_basic_auth q)
            q.path
            r
            (E.credentials r)
            s
    unfolding check
    check-try = rw (built, guarded, internal)

    -- On an internal route that none of the guards of `Check` lets through, a request passes the
    -- filter only with the credentials of a service token.
    pub check_internal_passes :
        passes (check C E q s).0 ≡ true → is_service (E.credentials r) ≡ true
    check_internal_passes h = try_passes _ q.path r _ s (rw check-try at h)
