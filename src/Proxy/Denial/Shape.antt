-- ===== src/Proxy/Denial/Shape.antt =====
-- What a denied response looks like.
use jewel.Prelude.{
  ℕ, Bool, true, false, ◌≡◌, refl, inl, inr, Text, text, has_part, Option, none, some, [], ◌∷◌,
  Bool-cases,
}
use jewel.Proxy.Request.{DjangoRequest, Response, ok_response, denied_response}
use jewel.Proxy.Denial.{
  return_no_auth_with_reason, html_or_text, content_type, json_details, accept,
}

abbrev pub is_ok : Response → Bool
is_ok (ok_response h r x) = true
is_ok (denied_response c t h b m) = false

abbrev pub IsDenied : (code http_status : ℕ) → Response → Type 0
IsDenied code status r =
    (kind body message : Text) × (r ≡ denied_response code status (content_type kind) body message)

html_or_text-IsDenied :
    (html : Option Text) (reason : Text) (code status : ℕ)
    → IsDenied code status (
        html_or_text html reason
          (λ kind body. denied_response code status (content_type kind) body reason))
html_or_text-IsDenied none reason code status = (text "text/plain", reason, reason, refl)
html_or_text-IsDenied (some []) reason code status = (text "text/plain", reason, reason, refl)
html_or_text-IsDenied (some (c ∷ page)) reason code status =
    (text "text/html", c ∷ page, reason, refl)

-- A refusal has the status it was asked for and one header, the content type.
pub return_no_auth_with_reason-IsDenied :
    (r : DjangoRequest) (reason : Text) (html : Option Text) (code status : ℕ)
    → IsDenied code status (return_no_auth_with_reason r reason html code status)
unfolding return_no_auth_with_reason
return_no_auth_with_reason-IsDenied r reason html code status =
    elim (Bool-cases (has_part (text "application/json") (accept r))) [
      | inl json ↦ rw json (text "application/json", json_details reason, reason, refl)
      | inr other ↦ rw other (html_or_text-IsDenied html reason code status)
    ]

pub is_ok-denied :
    (r : DjangoRequest) (reason : Text) (html : Option Text) (code status : ℕ)
    → is_ok (return_no_auth_with_reason r reason html code status) ≡ false
is_ok-denied r reason html code status =
    let (kind, body, message, e) = return_no_auth_with_reason-IsDenied r reason html code status in
    rw e refl
