-- ===== src/Proxy/Request.antt =====
-- Requests and responses of aap_gateway_api/proxy/control_plane.py. The protobuf messages of Envoy
-- are records with the fields that the handler reads or writes.
use jewel.Prelude.{
  Text, text, text_eq, upper, replace, Option, none, some, Bool, false, List, ◌∷◌, ◌++◌, ℕ,
  or_default,
}
use jewel.Prelude.Dict.{Dict, lookup, insert, erase}

-- `AttributeContext`: the HTTP request, and the per-route context extensions.
pub record Request : Type 0 where
  pub extensions : Dict Text
  pub scheme : Text
  pub method : Text
  pub path : Text
  pub query : Text
  pub host : Text
  pub headers : Dict Text
  pub raw_body : Text

pub record Header : Type 0 where
  pub key : Text
  pub value : Text

-- `CheckResponse`: an `OkHttpResponse`, or a status with a `DeniedHttpResponse`.
pub data Response : Type 0 where
  ok_response :
      (headers : List Header) (headers_to_remove : List Text) (response_headers : List Header)
      → Response
  denied_response : (code http_status : ℕ) (headers : List Header) (body message : Text) → Response

-- A call returns a response or raises.
pub data Outcome : Type 0 where
  returned : Response → Outcome
  raised : Outcome

-- The Django request. META["CONTENT_LENGTH"] is a field of its own, since its default is the number
-- 0, written `none`.
pub record DjangoRequest : Type 0 where
  pub scheme : Text
  pub method : Text
  pub path : Text
  pub cookie_header : Text
  pub meta : Dict Text
  pub content_length : Option Text
  pub stream : Text

unfoldable pub meta_key : Text → Text
meta_key k = text "HTTP_" ++ replace b'-' b'_' (upper k)

-- The dict comprehension: a later header of the same key wins.
meta_of_headers : Dict Text → Dict Text → Dict Text
meta_of_headers List.[] meta = meta
meta_of_headers ((k, v) ∷ headers) meta = meta_of_headers headers (insert (meta_key k) v meta)

-- The part of `get_drf_request` before the middleware runs.
unfoldable pub django_request : Request → DjangoRequest
unfolding meta_of_headers meta_key
django_request r =
    let headers = meta_of_headers r.headers List.[] in
    let meta = insert (text "HTTP_HOST") r.host (insert (text "QUERY_STRING") r.query headers) in
    record {
      scheme = r.scheme;
      method = r.method;
      path = r.path;
      cookie_header = or_default (lookup (text "cookie") r.headers) List.[];
      meta = erase (text "HTTP_CONTENT_LENGTH") meta;
      content_length = lookup (text "HTTP_CONTENT_LENGTH") meta;
      stream = r.raw_body;
    }

-- A protobuf `map<string, string>` reads a missing key as the empty text.
unfoldable pub extension : Text → Request → Text
extension k r = or_default (lookup k r.extensions) List.[]

unfoldable pub is_route_internal : Request → Bool
is_route_internal r = text_eq (extension (text "is_internal_route") r) (text "t")

-- `.get(…) == "t"`: no default, and `None` is not "t".
unfoldable pub should_reject_failed_basic_auth : Request → Bool
should_reject_failed_basic_auth r = elim (lookup (text "reject_failed_basic_auth") r.extensions) [
  | none ↦ false
  | some v ↦ text_eq v (text "t")
]
