-- ===== src/ServiceToken/Keys.antt =====
-- The keys that a token is tried against.
use jewel.Prelude.{
  ◌≤◌, ◌≡◌, refl, true, Text, text_eq, text_eq_iff, none, some, List, [], ◌∷◌, ◌++◌, keep, All,
  All-of_keep, All-mono, leb, leb→le, leb→ge, trans_le, ap, ◌⊎◌, Bool-cases, inl, inr, arith,
  Option-cases,
}
use jewel.ServiceToken.{
  ServiceKey, Payload, ok, Env, insert_key, newest_first, active_keys, try_keys, cross_check,
}

-- In order of creation, the newest first.
abbrev pub IsSorted : List ServiceKey → Type 0
IsSorted [] = Unit
IsSorted (k ∷ keys) = All (λ j. j.created ≤ k.created) keys × IsSorted keys

module _ (P : ServiceKey → Type 0) where
  insert_key-All :
      (k : ServiceKey) (keys : List ServiceKey) → P k → All P keys → All P (insert_key k keys)
  unfolding insert_key
  insert_key-All k [] p h = (p, tt)
  insert_key-All k (j ∷ keys) p h = elim (Bool-cases (leb j.created k.created)) [
    | inl newer ↦ rw newer (p, h)
    | inr older ↦ rw older (h.0, insert_key-All k keys p h.1)
  ]

  newest_first-All : (keys : List ServiceKey) → All P keys → All P (newest_first keys)
  unfolding newest_first
  newest_first-All [] h = tt
  newest_first-All (k ∷ keys) h =
      insert_key-All k (newest_first keys) h.0 (newest_first-All keys h.1)

keep_active :
    (keys : List ServiceKey) → All (λ k. k.is_active ≡ true) (keep (λ k. k.is_active) keys)
unfolding keep
keep_active [] = tt
keep_active (k ∷ keys) = elim (Bool-cases k.is_active) [
  | inl active ↦ rw active (refl, keep_active keys)
  | inr other ↦ rw other (keep_active keys)
]

-- Only active keys are tried.
pub active_keys_active : (keys : List ServiceKey) → All (λ k. k.is_active ≡ true) (active_keys keys)
unfolding active_keys
active_keys_active keys = newest_first-All (λ k. k.is_active ≡ true) _ (keep_active keys)

insert_key-IsSorted :
    (k : ServiceKey) (keys : List ServiceKey) → IsSorted keys → IsSorted (insert_key k keys)
unfolding insert_key
insert_key-IsSorted k [] h = (tt, tt)
insert_key-IsSorted k (j ∷ keys) h = elim (Bool-cases (leb j.created k.created)) [
  | inl newer ↦
      let le : j.created ≤ k.created = leb→le _ _ newer in
      rw newer ((le, All-mono _ _ (λ i i_le. trans_le i_le le) keys h.0), h)
  | inr older ↦
      rw older (insert_key-All _ k keys (leb→ge _ _ older) h.0, insert_key-IsSorted k keys h.1)
]

newest_first-IsSorted : (keys : List ServiceKey) → IsSorted (newest_first keys)
unfolding newest_first
newest_first-IsSorted [] = tt
newest_first-IsSorted (k ∷ keys) = insert_key-IsSorted k _ (newest_first-IsSorted keys)

-- The newest keys are tried first.
pub active_keys-IsSorted : (keys : List ServiceKey) → IsSorted (active_keys keys)
unfolding active_keys
active_keys-IsSorted keys = newest_first-IsSorted (keep (λ k. k.is_active) keys)

module _ (P : ServiceKey → Type 0) where
  of_insert_key :
      (k : ServiceKey) (keys : List ServiceKey) → All P (insert_key k keys) → P k × All P keys
  unfolding insert_key
  of_insert_key k [] h = h
  of_insert_key k (j ∷ keys) h = elim (Bool-cases (leb j.created k.created)) [
    | inl newer ↦ rw (newer, insert_key) at h
    | inr older ↦
        let h' = rw (older, insert_key) at h in
        let (p, rest) = of_insert_key k keys h'.1 in (p, (h'.0, rest))
  ]

  of_newest_first : (keys : List ServiceKey) → All P (newest_first keys) → All P keys
  unfolding newest_first
  of_newest_first [] h = tt
  of_newest_first (k ∷ keys) h =
      let (p, rest) = of_insert_key k (newest_first keys) h in (p, of_newest_first keys rest)

  -- What holds of the keys that are tried holds of every active key.
  pub of_active_keys :
      (keys : List ServiceKey) → All P (active_keys keys) → All (λ k. k.is_active ≡ true → P k) keys
  unfolding active_keys
  of_active_keys keys h =
      All-of_keep P (λ k. k.is_active) keys (of_newest_first (keep (λ k. k.is_active) keys) h)

  middle :
      (newer : List ServiceKey) (k : ServiceKey) (older : List ServiceKey)
      → All P (newer ++ k ∷ older)
      → P k
  middle [] k older h = h.0
  middle (j ∷ newer) k older h = middle newer k older h.1

-- A key of a sorted list is as new as any after it.
older_than :
    (P : ServiceKey → Type 0) (newer : List ServiceKey) (k : ServiceKey) (older : List ServiceKey)
    → IsSorted (newer ++ k ∷ older)
    → All P newer
    → All (λ j. P j ⊎ (j.created ≤ k.created)) (newer ++ k ∷ older)
older_than P [] k older h failed = (inr (omega arith), All-mono _ _ (λ j le. inr le) older h.0)
older_than P (j ∷ newer) k older h failed = (inl failed.0, older_than P newer k older h.1 failed.1)

-- The key is active, and no active key that decodes the token is newer.
abbrev pub IsNewest : Env → Text → ServiceKey → List ServiceKey → Type 0
IsNewest E token k keys =
    (k.is_active ≡ true)
    × All
        (λ j.
          j.is_active ≡ true
          → (E.decode token j.secret j.algorithm ≡ none) ⊎ (j.created ≤ k.created))
        keys

module _ (E : Env) (token iss : Text) where
  -- The key is the first of the list that decodes the token, and it confirms the issuer.
  abbrev pub Accepts : Payload → ServiceKey → List ServiceKey → Type 0
  Accepts p k keys =
      (newer older : List ServiceKey) × (keys ≡ newer ++ k ∷ older)
      × All (λ j. E.decode token j.secret j.algorithm ≡ none) newer
      × (E.decode token k.secret k.algorithm ≡ some p)
      × (p.iss ≡ iss)

  cross_checked :
      (q p : Payload) (j k : ServiceKey)
      → cross_check E iss j q ≡ ok (p, k)
      → (q ≡ p) × (j ≡ k) × (q.iss ≡ iss)
  cross_checked q p j k h = elim (Bool-cases (text_eq q.iss iss)) [
    | inl same ↦ (cc (rw same at h), cc (rw same at h), ground (arith, text_eq_iff q.iss iss))
    | inr other ↦ cc (rw other at h)
  ]

  pub try_keys-Accepts :
      (p : Payload) (k : ServiceKey) (keys : List ServiceKey)
      → try_keys E token iss keys ≡ ok (p, k)
      → Accepts p k keys
  unfolding try_keys
  try_keys-Accepts p k [] h = cc
  try_keys-Accepts p k (j ∷ keys) h = elim (Option-cases (E.decode token j.secret j.algorithm)) [
    | inl none_decoded ↦
        let (newer, older, e, failed, decoded, same) =
          try_keys-Accepts p k keys (rw (none_decoded, try_keys) at h) in
        (j ∷ newer, older, ap (λ l. j ∷ l) e, (none_decoded, failed), decoded, same)
    | inr (q, decoded) ↦
        let (same, key, issuer) = cross_checked q p j k (rw (decoded, try_keys) at h) in
        ([], keys, ap (λ l. l ∷ keys) key, tt, rw (← key, ← same) decoded, rw (← same) issuer)
  ]

  pub try_keys_finds :
      (p : Payload) (k : ServiceKey) (newer older : List ServiceKey)
      → All (λ j. E.decode token j.secret j.algorithm ≡ none) newer
      → E.decode token k.secret k.algorithm ≡ some p
      → p.iss ≡ iss
      → try_keys E token iss (newer ++ k ∷ older) ≡ ok (p, k)
  unfolding try_keys
  try_keys_finds p k [] older h decoded same = rw decoded (ground (arith, text_eq_iff p.iss iss))
  try_keys_finds p k (j ∷ newer) older h decoded same =
      rw h.0 (try_keys_finds p k newer older h.1 decoded same)

  pub accepted-IsNewest :
      (p : Payload) (k : ServiceKey) (keys : List ServiceKey)
      → Accepts p k (active_keys keys)
      → IsNewest E token k keys
  accepted-IsNewest p k keys (newer, older, e, failed, decoded, same) =
      let active = active_keys_active keys in
      let sorted = active_keys-IsSorted keys in
      (
        middle _ newer k older (rw e at active),
        of_active_keys _ keys (rw e (older_than _ newer k older (rw e at sorted) failed)),
      )
