-- ===== src/ServiceToken/Validate.antt =====
-- Which tokens `validate_service_token` accepts.
use jewel.Prelude.{
  ℕ, ◌≡◌, refl, true, Text, text_eq_iff, Option, none, some, [], ◌∷◌, arith, Bool-cases,
  Option-cases, inl, inr,
}
use jewel.ServiceIdSync.{Cluster, Clusters}
use jewel.ServiceIdSync.Populate.{populate_service_id-Claims}
use jewel.ServiceToken.{
  ServiceKey, Payload, Result, ok, invalid, error, with_user, validate_payload, ◌>>=◌, active_keys,
  Env, State, cluster_by_id, verify_token_signature, get_user_from_payload, ValidatedToken,
  same_type, validate_for_cluster, validate_found, validate_lookup, validate_issuer,
  validate_unverified, validate_service_token,
}
use jewel.ServiceToken.Keys.{Accepts, IsNewest, accepted-IsNewest, try_keys-Accepts, try_keys_finds}

same_type_sound : (r t : Option Text) → same_type r t ≡ true → r ≡ t
same_type_sound none none h = refl
same_type_sound none (some t) h = cc
same_type_sound (some r) none h = cc
same_type_sound (some r) (some t) h = ground (arith, text_eq_iff r t)

same_type_refl : (r : Option Text) → same_type r r ≡ true
same_type_refl none = refl
same_type_refl (some r) = ground (arith, text_eq_iff r r)

cluster_by_id_sound :
    (id : Text) (c : Cluster) (cs : Clusters)
    → cluster_by_id id cs ≡ some c
    → c.service_id ≡ some id
unfolding cluster_by_id
cluster_by_id_sound id c [] h = cc
cluster_by_id_sound id c (c₀ ∷ cs) h = elim (Option-cases c₀.service_id) [
  | inl null ↦ cluster_by_id_sound id c cs (rw (null, cluster_by_id) at h)
  | inr (u, set) ↦
      let h' = rw (set, cluster_by_id) at h in
      ground (arith, set, h', cluster_by_id_sound id c cs, text_eq_iff u id)
]

module _ {ℓ κ} {A : Type ℓ} {B : Type κ} where
  bind_ok :
      (m : Result A) (f : A → Result B) (b : B)
      → m >>= f ≡ ok b
      → (a : A) × (m ≡ ok a) × (f a ≡ ok b)
  bind_ok (ok a) f b h = (a, refl, h)
  bind_ok invalid f b h = cc
  bind_ok error f b h = cc

module _ (E : Env) (token : Text) (required : Option Text) where
  -- The first active key, newest first, that decodes the token confirms the issuer, and the
  -- payload has the required type and names the user.
  abbrev pub IsSigned : Text → Cluster → Payload → ServiceKey → E.User → Type 0
  IsSigned iss c p k user =
      Accepts E token iss p k (active_keys (E.keys c.pk))
      × (required ≡ p.token_type)
      × (get_user_from_payload E p ≡ ok user)

  with_user_ok :
      (c : Cluster) (p : Payload) (k : ServiceKey) (m : Result E.User) (v : ValidatedToken E)
      → (m >>= λ user. ok (with_user E c p k user)) ≡ ok v
      → (user : E.User) × (m ≡ ok user) × (with_user E c p k user ≡ v)
  with_user_ok c p k (ok user) v h = (user, refl, cc)
  with_user_ok c p k invalid v h = cc
  with_user_ok c p k error v h = cc

  payload_ok :
      (c : Cluster) (p : Payload) (k : ServiceKey) (v : ValidatedToken E)
      → validate_payload E required c (p, k) ≡ ok v
      → (required ≡ p.token_type)
        × (user : E.User) × (get_user_from_payload E p ≡ ok user)
        × (with_user E c p k user ≡ v)
  payload_ok c p k v h = elim (Bool-cases (same_type required p.token_type)) [
    | inl same ↦
        let (user, found, built) = with_user_ok c p k _ v (rw same at h) in
        (same_type_sound required p.token_type same, user, found, built)
    | inr other ↦ cc (rw other at h)
  ]

  for_cluster :
      (iss : Text) (c : Cluster) (v : ValidatedToken E)
      → validate_for_cluster E token required iss c ≡ ok v
      → (v.service_cluster ≡ c) × IsSigned iss c v.payload v.key v.user
  unfolding validate_for_cluster verify_token_signature
  for_cluster iss c v h =
      let ((p, k), verified, h₁) =
        bind_ok (verify_token_signature E token c iss) (validate_payload E required c) v h in
      let (typed, user, found, same) = payload_ok c p k v h₁ in
      rw (← same) (refl, (try_keys-Accepts E token iss p k _ verified, typed, found))

  -- The cluster that an issuer stands for, by its canonical id.
  abbrev pub IsIssuer : Text → Cluster → Type 0
  IsIssuer iss c = (id : Text) × (E.canonical iss ≡ some id) × (c.service_id ≡ some id)

  abbrev pub IsValid : Text → ValidatedToken E → Type 0
  IsValid iss v =
      IsIssuer iss v.service_cluster × IsSigned iss v.service_cluster v.payload v.key v.user

  validate_for_cluster-IsValid :
      (iss : Text) (c : Cluster) (v : ValidatedToken E)
      → IsIssuer iss c
      → validate_for_cluster E token required iss c ≡ ok v
      → IsValid iss v
  validate_for_cluster-IsValid iss c v issuer h =
      let (same, signed) = for_cluster iss c v h in rw same (issuer, signed)

  validate_found-IsValid :
      (iss : Text) (o : Option Cluster) (v : ValidatedToken E)
      → ((c : Cluster) → o ≡ some c → IsIssuer iss c)
      → validate_found E token required iss o ≡ ok v
      → IsValid iss v
  validate_found-IsValid iss none v issuer h = cc
  validate_found-IsValid iss (some c) v issuer h =
      validate_for_cluster-IsValid iss c v (issuer c refl) h

  validate_lookup-IsValid :
      (iss id : Text) (now : ℕ) (s : State) (o : Option Cluster) (v : ValidatedToken E)
      → E.canonical iss ≡ some id
      → cluster_by_id id s.clusters ≡ o
      → (validate_lookup E token required iss now s o).0 ≡ ok v
      → IsValid iss v
  validate_lookup-IsValid iss id now s (some c) v e found h =
      validate_for_cluster-IsValid iss c v (id, e, cluster_by_id_sound id c s.clusters found) h
  validate_lookup-IsValid iss id now s none v e found h =
      validate_found-IsValid iss _ v
        (λ c populated.
          let (u, claims) =
            populate_service_id-Claims E.canonical E.metadata E.meanwhile iss now E.api_routes
              s.cooldowns s.clusters c populated in
          (u, claims.0, claims.1))
        h

  validate_issuer-IsValid :
      (iss : Text) (now : ℕ) (s : State) (o : Option Text) (v : ValidatedToken E)
      → E.canonical iss ≡ o
      → (validate_issuer E token required iss now s o).0 ≡ ok v
      → IsValid iss v
  validate_issuer-IsValid iss now s none v e h = cc
  validate_issuer-IsValid iss now s (some id) v e h =
      validate_lookup-IsValid iss id now s _ v e refl h

  validate_unverified-IsValid :
      (now : ℕ) (s : State) (o : Option Text) (v : ValidatedToken E)
      → (validate_unverified E token required now s o).0 ≡ ok v
      → (iss : Text) × (o ≡ some iss) × IsValid iss v
  validate_unverified-IsValid now s none v h = cc
  validate_unverified-IsValid now s (some iss) v h =
      (iss, refl, validate_issuer-IsValid iss now s _ v refl h)

  -- A token that is accepted names an issuer, whose canonical id is that of the cluster returned;
  -- the first of this cluster's active keys, newest first, that decodes the token gives a payload
  -- with the same issuer and the required type, and the user returned is the one it names.
  pub validate_service_token_sound :
      (now : ℕ) (s : State) (v : ValidatedToken E)
      → (validate_service_token E token required now s).0 ≡ ok v
      → (iss : Text) × (E.decode_unverified token ≡ some iss) × IsValid iss v
  unfolding validate_service_token
  validate_service_token_sound now s v h = validate_unverified-IsValid now s _ v h

  -- The key of an accepted token is an active one of the cluster returned, and every active key of
  -- this cluster that is newer fails to decode the token.
  pub validate_service_token-IsNewest :
      (now : ℕ) (s : State) (v : ValidatedToken E)
      → (validate_service_token E token required now s).0 ≡ ok v
      → IsNewest E token v.key (E.keys v.service_cluster.pk)
  validate_service_token-IsNewest now s v h =
      let (iss, e, valid) = validate_service_token_sound now s v h in
      accepted-IsNewest E token iss v.payload v.key (E.keys v.service_cluster.pk) valid.1.0

  -- A token whose issuer is a cluster of the table, that an active key of it decodes and no newer
  -- active one does, with the same issuer, the required type and a known user, is accepted with
  -- this key, and no state changes.
  pub validate_service_token_accepts :
      (now : ℕ) (s : State) (iss id : Text) (c : Cluster) (p : Payload) (k : ServiceKey)
      (user : E.User)
      → E.decode_unverified token ≡ some iss
      → E.canonical iss ≡ some id
      → cluster_by_id id s.clusters ≡ some c
      → IsSigned iss c p k user
      → validate_service_token E token required now s ≡ (ok (with_user E c p k user), s)
  unfolding validate_service_token validate_for_cluster verify_token_signature
  validate_service_token_accepts now s iss id c p k user e canonical found
        ((newer, older, keys, failed, decoded, same), typed, named) =
      rw
        (
          e,
          canonical,
          found,
          keys,
          try_keys_finds E token iss p k newer older failed decoded same,
          named,
          ← typed,
          same_type_refl required,
        )
        refl
