-- ===== src/Proxy/Profiling.antt =====
-- `ExternalAuth` of aap_gateway_api/proxy/control_plane.py: the profiling wrapper of `Check`. The
-- profiler's file, the measured times and the query count are parameters.
use jewel.Prelude.{
  ℕ, Bool, false, not, ◌&&◌, ◌≡◌, refl, Text, text, show, starts_with, Option, none, some, List, [],
  ◌∷◌, ◌++◌, any, Bool-cases, inl, inr, if◌then◌else◌,
}
use jewel.Proxy.Request.{
  Request, Header, Response, ok_response, denied_response, Outcome, returned, raised, DjangoRequest,
  django_request,
}
use jewel.Proxy.Session.{Cache}
use jewel.Proxy.Check.{Env, check, with_jwt, return_authenticated}
use jewel.Proxy.Denial.Shape.{is_ok}
use jewel.Proxy.Check.Cases.{check_rule}

pub record Settings : Type 0 where
  pub profiling_enabled : Bool
  pub sql_enabled : Bool
  pub exclude_paths : List Text
  pub cluster_host_id : Text

-- What the run of one call measures.
pub record Measured : Type 0 where
  pub auth_time : Text
  pub profile_file : Option Text
  pub query_count : ℕ
  pub query_time : Text

abbrev header : Text → Text → List Header
header k v = record { key = k; value = v } ∷ []

unfoldable pub profile_headers : Settings → Measured → List Header
profile_headers S m =
    header (text "X-GRPC-Auth-Time") m.auth_time
    ++ ((if S.profiling_enabled
          then elim m.profile_file [
            | none ↦ []
            | some file ↦ header (text "X-GRPC-Auth-Profile-File") file
          ]
          else [])
        ++ (header (text "X-GRPC-Auth-Node") S.cluster_host_id
            ++ (if S.sql_enabled
                then header (text "X-GRPC-Auth-Query-Count") (show m.query_count)
                  ++ header (text "X-GRPC-Auth-Query-Time") m.query_time
                else [])))

-- `response.ok_response.response_headers_to_add.extend(…)`, if the response is an OK
unfoldable pub extend_headers : List Header → Outcome → Outcome
extend_headers new (returned (ok_response h remove old)) =
    returned (ok_response h remove (old ++ new))
extend_headers new (returned (denied_response c t h b m)) = returned (denied_response c t h b m)
extend_headers new raised = raised

module _ (C : Cache) (E : Env) (S : Settings) (m : Measured) where
  unfoldable pub check_with_profiling : Request → C.State → Outcome × C.State
  check_with_profiling q s =
      let (o, s') = check C E q s in (extend_headers (profile_headers S m) o, s')

  -- `ExternalAuth.Check`
  unfoldable pub external_check : Request → C.State → Outcome × C.State
  external_check q =
      if not S.profiling_enabled && not S.sql_enabled
      then check C E q
      else if any (starts_with q.path) S.exclude_paths
      then check C E q
      else check_with_profiling q

  -- The answer without the headers that go back to the client.
  abbrev pub decision : Outcome → Outcome
  decision (returned (ok_response h remove x)) = returned (ok_response h remove [])
  decision (returned (denied_response c t h b m')) = returned (denied_response c t h b m')
  decision raised = raised

  decision-extend_headers :
      (new : List Header) (o : Outcome) → decision (extend_headers new o) ≡ decision o
  unfolding extend_headers
  decision-extend_headers new (returned (ok_response h remove x)) = refl
  decision-extend_headers new (returned (denied_response c t h b m')) = refl
  decision-extend_headers new raised = refl

  decision-external_check :
      (q : Request) (s : C.State)
      → (decision (external_check q s).0 ≡ decision (check C E q s).0)
        × ((external_check q s).1 ≡ (check C E q s).1)
  unfolding external_check check_with_profiling
  decision-external_check q s = elim (Bool-cases (not S.profiling_enabled && not S.sql_enabled)) [
    | inl off ↦ rw off (refl, refl)
    | inr on ↦ elim (Bool-cases (any (starts_with q.path) S.exclude_paths)) [
      | inl excluded ↦ rw (on, excluded) (refl, refl)
      | inr profiled ↦ rw (on, profiled) (decision-extend_headers _ _, refl)
    ]
  ]

  denied-decision : (d : Response) → is_ok d ≡ false → decision (returned d) ≡ returned d
  denied-decision (ok_response h remove x) e = cc
  denied-decision (denied_response c t h b m') e = refl

  with_jwt-decision : (o : Option Text × C.State) → decision (with_jwt C E o).0 ≡ (with_jwt C E o).0
  unfolding return_authenticated
  with_jwt-decision (none, s) = refl
  with_jwt-decision (some jwt, s) = refl

  -- Profiling, in any setting, changes neither the decision nor what the service is sent nor the
  -- cache: the wrapped call answers as the handler does, up to headers that it adds to an OK
  -- response on its way back to the client.
  pub external_check_transparent :
      (q : Request) (r : DjangoRequest) (s : C.State)
      → E.middleware (django_request q) ≡ some r
      → (decision (external_check q s).0 ≡ (check C E q s).0)
        × ((external_check q s).1 ≡ (check C E q s).1)
  external_check_transparent q r s built =
      let (same, state) = decision-external_check q s in
      (
        rw same (
            check_rule C E r q.path s (E.credentials r) (λ o. decision o.0 ≡ o.0) refl
              denied-decision refl (λ user auth pk e e' scope. with_jwt-decision _) q refl refl
              built),
        state,
      )
