-- ===== src/Proxy/Denial.antt =====
-- `_return_no_auth_with_reason` of aap_gateway_api/proxy/control_plane.py, and the part of Python's
-- `json.dumps` that it calls.
pub mod Shape
use jewel.Prelude.{
  ℕ, ◌+◌, ◌-◌, ◌/◌, ◌%◌, Text, text, has_part, Option, none, some, List, [], ◌∷◌, ◌++◌, ltb, leb,
  ◌==◌, if◌then◌else◌, or_default, ◌&&◌,
}
use jewel.Prelude.Dict.{lookup}
use jewel.Proxy.Request.{DjangoRequest, Header, Response, denied_response}

hex_digit : ℕ → ℕ
hex_digit n = if ltb n 10 then 48 + n else 87 + n

-- `\uXXXX`
hex_escape : ℕ → Text
unfolding hex_digit
hex_escape n =
    92
    ∷ b'u'
    ∷ hex_digit (n / 4096 % 16)
    ∷ hex_digit (n / 256 % 16)
    ∷ hex_digit (n / 16 % 16)
    ∷ hex_digit (n % 16)
    ∷ []

-- One character of a JSON string under `ensure_ascii`; past the basic plane, a surrogate pair.
json_char : ℕ → Text
unfolding hex_escape
json_char c =
    if c == 34
    then 92 ∷ 34 ∷ []
    else if c == 92
    then 92 ∷ 92 ∷ []
    else if c == 10
    then 92 ∷ b'n' ∷ []
    else if c == 13
    then 92 ∷ b'r' ∷ []
    else if c == 9
    then 92 ∷ b't' ∷ []
    else if c == 12
    then 92 ∷ b'f' ∷ []
    else if c == 8
    then 92 ∷ b'b' ∷ []
    else if leb 32 c && leb c 126
    then c ∷ []
    else if ltb c 65536
    then hex_escape c
    else hex_escape (55296 + (c - 65536) / 1024) ++ hex_escape (56320 + (c - 65536) % 1024)

unfoldable pub json_string : Text → Text
unfolding json_char
json_string [] = []
json_string (c ∷ s) = json_char c ++ json_string s

-- `json.dumps({"details": reason})`
unfoldable pub json_details : Text → Text
json_details reason = text "{\"details\": \"" ++ (json_string reason ++ text "\"}")

unfoldable pub accept : DjangoRequest → Text
accept r = or_default (lookup (text "HTTP_ACCEPT") r.meta) []

abbrev pub content_type : Text → List Header
content_type t = record { key = text "content-type"; value = t } ∷ []

-- The HTML page is an argument only on the CSRF path; an empty one counts as none.
abbrev pub html_or_text : Option Text → Text → (Text → Text → Response) → Response
html_or_text (some (c ∷ page)) reason deny = deny (text "text/html") (c ∷ page)
html_or_text _ reason deny = deny (text "text/plain") reason

unfoldable pub return_no_auth_with_reason :
    DjangoRequest → Text → Option Text → (code http_status : ℕ) → Response
return_no_auth_with_reason r reason html_body code http_status =
    let deny =
      λ (kind body : Text). denied_response code http_status (content_type kind) body reason in
    if has_part (text "application/json") (accept r)
    then deny (text "application/json") (json_details reason)
    else html_or_text html_body reason deny
