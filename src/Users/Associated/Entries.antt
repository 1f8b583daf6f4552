-- ===== src/Users/Associated/Entries.antt =====
-- An entry of `associated_authenticators` in which the validations find no problem.
use jewel.Prelude.{
  append-eq_nil, ℕ, Bool, true, false, not, ◌≡◌, ◌≢◌, refl, Text, text, text_eq_iff, Option, none,
  some, List, [], ◌∷◌, ◌++◌, any, All, All-mono, All-of_any, keep, Bool-cases, Option-cases, inl,
  inr, arith, ==_iff,
}
use jewel.Users.{
  Authenticator, AuthenticatorUser, Problem, unknown_keys, Result, ok, invalid, raised, ◌>>=◌, Env,
  Rows, is_conflict, check_uid_conflict, find_authenticator,
}
use jewel.Users.Json.{Json, null, str, other, object, Members, end, member, get, keys}
use jewel.Users.Associated.{
  Number, not_integer, negative, natural, Readers, exists_number, is_integer,
  validate_authenticator_keys_exist, validate_email_value, has_text, is_allowed_key, problem_if,
  validate_single_authenticator_entry, entry_problems, conflict_at, conflict_of_number,
  conflict_of_uid, conflict_of, conflicts,
}

bind-nil :
    (r : Result (List Problem)) (s : Result (List Problem))
    → (r >>= λ ps. s >>= λ qs. ok (ps ++ qs)) ≡ ok []
    → (r ≡ ok []) × (s ≡ ok [])
bind-nil (ok ps) (ok qs) h = let both = append-eq_nil ps qs (cc) in (ap-ok both.0, ap-ok both.1)
  where
    ap-ok : {ps : List Problem} → ps ≡ [] → ok ps ≡ ok []
    ap-ok e = rw e
bind-nil (ok ps) (invalid qs) h = cc
bind-nil (ok ps) raised h = cc
bind-nil (invalid ps) s h = cc
bind-nil raised s h = cc

no_conflict :
    (id : ℕ) (uid : Option Text) (user : Option ℕ) (rows : Rows)
    → check_uid_conflict id uid user rows ≡ none
    → All (λ r. is_conflict id uid user r ≡ false) rows
unfolding check_uid_conflict keep
no_conflict id uid user [] h = tt
no_conflict id uid user (r ∷ rows) h = elim (Bool-cases (is_conflict id uid user r)) [
  | inl e ↦ cc (rw (e, keep) at h)
  | inr e ↦ (e, no_conflict id uid user rows (rw (e, keep) at h))
]

-- The row is one of this user.
abbrev pub IsOf : Option ℕ → AuthenticatorUser → Type 0
IsOf none r = ⊥
IsOf (some pk) r = r.user ≡ pk

-- No other user has this uid at this authenticator.
abbrev pub IsFree : ℕ → Text → Option ℕ → Rows → Type 0
IsFree id uid user rows = All (λ r. r.provider ≡ id → r.uid ≡ uid → IsOf user r) rows

not_conflict-IsOf :
    (id : ℕ) (uid : Text) (user : Option ℕ) (r : AuthenticatorUser)
    → is_conflict id (some uid) user r ≡ false
    → r.provider ≡ id
    → r.uid ≡ uid
    → IsOf user r
not_conflict-IsOf id uid none r h same_id same_uid =
    ground (arith, ==_iff r.provider id, text_eq_iff r.uid uid)
not_conflict-IsOf id uid (some pk) r h same_id same_uid =
    ground (arith, ==_iff r.provider id, text_eq_iff r.uid uid, ==_iff r.user pk)

pub no_conflict-IsFree :
    (id : ℕ) (uid : Text) (user : Option ℕ) (rows : Rows)
    → check_uid_conflict id (some uid) user rows ≡ none
    → IsFree id uid user rows
no_conflict-IsFree id uid user rows h =
    All-mono _ _ (not_conflict-IsOf id uid user) rows (no_conflict id (some uid) user rows h)

has_text-uid :
    (v : Option Json) → has_text v ≡ true → (uid : Text) × (v ≡ some (str uid)) × (uid ≢ [])
has_text-uid none h = cc
has_text-uid (some null) h = cc
has_text-uid (some (str [])) h = cc
has_text-uid (some (str (c ∷ s))) h = (c ∷ s, refl, λ e. cc)
has_text-uid (some (other b)) h = cc
has_text-uid (some (object ms)) h = cc

module _ (E : Env) (P : Readers) (user : Option ℕ) (rows : Rows) where
  abbrev pub IsEmail : Option Json → Type 0
  IsEmail none = Unit
  IsEmail (some null) = Unit
  IsEmail (some (str s)) = P.is_email s ≡ true
  IsEmail (some (other b)) = ⊥
  IsEmail (some (object ms)) = ⊥

  -- The members of an entry for the authenticator `key`.
  abbrev pub IsEntry : Text → Members → Type 0
  IsEntry key ms =
      (id : ℕ) × (a : Authenticator) × (uid : Text) × (P.int key ≡ natural id)
      × (find_authenticator E id ≡ some a)
      × All (λ k. is_allowed_key k ≡ true) (keys ms)
      × (get (text "uid") ms ≡ some (str uid))
      × (uid ≢ [])
      × IsEmail (get (text "email") ms)
      × IsFree a.id uid user rows

  abbrev pub AreEntries : Members → Type 0
  AreEntries end = Unit
  AreEntries (member key (object ms) rest) = IsEntry key ms × AreEntries rest
  AreEntries (member key null rest) = ⊥
  AreEntries (member key (str s) rest) = ⊥
  AreEntries (member key (other b) rest) = ⊥

  validate_email_value-IsEmail :
      (key : Text) (v : Option Json) → validate_email_value E P key v ≡ [] → IsEmail v
  unfolding validate_email_value
  validate_email_value-IsEmail key none h = tt
  validate_email_value-IsEmail key (some null) h = tt
  validate_email_value-IsEmail key (some (str s)) h = ground arith
  validate_email_value-IsEmail key (some (other b)) h = cc
  validate_email_value-IsEmail key (some (object ms)) h = cc

  exists_number-natural :
      (n : Number)
      → not (exists_number E P n) ≡ false
      → (id : ℕ) × (a : Authenticator) × (n ≡ natural id) × (find_authenticator E id ≡ some a)
  exists_number-natural not_integer h = cc
  exists_number-natural negative h = cc
  exists_number-natural (natural id) h = elim (Option-cases (find_authenticator E id)) [
    | inl e ↦ cc (rw e at h)
    | inr (a, e) ↦ (id, a, refl, e)
  ]

  pub keys-Exist :
      (ks : List Text)
      → validate_authenticator_keys_exist E P ks ≡ ok tt
      → All (λ k. not (exists_number E P (P.int k)) ≡ false) ks
  unfolding validate_authenticator_keys_exist
  keys-Exist ks h = elim (Bool-cases (any (λ k. not (is_integer E P (P.int k))) ks)) [
    | inl e ↦ cc (rw e at h)
    | inr e ↦ elim (Bool-cases (any (λ k. not (exists_number E P (P.int k))) ks)) [
      | inl e' ↦ cc (rw (e, e') at h)
      | inr e' ↦ All-of_any (λ k. not (exists_number E P (P.int k))) ks e'
    ]
  ]

  pub keys-ne : (ks : List Text) → validate_authenticator_keys_exist E P ks ≢ invalid []
  unfolding validate_authenticator_keys_exist
  keys-ne ks h = ground arith

  conflict_at-nil :
      (id : ℕ) (uid : Text)
      → conflict_at E P id (some uid) user rows ≡ []
      → check_uid_conflict id (some uid) user rows ≡ none
  conflict_at-nil id uid h = elim (Option-cases (check_uid_conflict id (some uid) user rows)) [
    | inl e ↦ e
    | inr (r, e) ↦ cc (rw (e, conflict_at) at h)
  ]

  conflict_of_uid-IsFree :
      (key : Text) (id : ℕ) (a : Authenticator) (uid : Text)
      → P.int key ≡ natural id
      → find_authenticator E id ≡ some a
      → uid ≢ []
      → conflict_of_uid E P key (some (str uid)) user rows ≡ ok []
      → IsFree a.id uid user rows
  unfolding conflict_of_uid conflict_of_number
  conflict_of_uid-IsFree key id a [] n f ne h = absurd (ne refl)
  conflict_of_uid-IsFree key id a (c ∷ s) n f ne h =
      no_conflict-IsFree a.id (c ∷ s) user rows
        (conflict_at-nil a.id (c ∷ s) (ok-eq (rw (n, f, conflict_of_number) at h)))
    where
      ok-eq : {ps : List Problem} → ok ps ≡ ok [] → ps ≡ []
      ok-eq e = cc

  members-IsEntry :
      (key : Text) (ms : Members)
      → not (exists_number E P (P.int key)) ≡ false
      → validate_single_authenticator_entry E P key (object ms) ≡ []
      → conflict_of E P key (object ms) user rows ≡ ok []
      → IsEntry key ms
  unfolding validate_single_authenticator_entry conflict_of
  members-IsEntry key ms e h k =
      let (id, a, n, f) = exists_number-natural (P.int key) e in
      let (both, email) = append-eq_nil _ _ h in
      let (unknown, uidless) = append-eq_nil _ _ both in
      let (uid, u, ne) = has_text-uid (get (text "uid") ms) (problem_if-nil _ _ uidless) in
      (
        id,
        a,
        uid,
        n,
        f,
        allowed _ unknown,
        u,
        ne,
        validate_email_value-IsEmail key _ email,
        conflict_of_uid-IsFree key id a uid n f ne (rw u at k),
      )
    where
      problem_if-nil : (b : Bool) (p : Problem) → problem_if (not b) p ≡ [] → b ≡ true
      problem_if-nil true p h = refl
      problem_if-nil false p h = cc

      not-false : (b : Bool) → not b ≡ false → b ≡ true
      not-false true h = refl
      not-false false h = cc

      problem-none : (b : Bool) → problem_if b (unknown_keys key) ≡ [] → b ≡ false
      problem-none true h = cc
      problem-none false h = refl

      allowed :
          (ks : List Text)
          → problem_if (any (λ k. not (is_allowed_key k)) ks) (unknown_keys key) ≡ []
          → All (λ k. is_allowed_key k ≡ true) ks
      allowed ks h = All-mono _ _ (λ k e. not-false _ e) ks (All-of_any _ ks (problem-none _ h))

  pub entries-AreEntries :
      (ms : Members)
      → All (λ k. not (exists_number E P (P.int k)) ≡ false) (keys ms)
      → entry_problems E P ms ≡ []
      → conflicts E P ms user rows ≡ ok []
      → AreEntries ms
  unfolding keys entry_problems conflicts conflict_of
  entries-AreEntries end e h k = tt
  entries-AreEntries (member key (object ms) rest) e h k =
      let (here, there) = append-eq_nil _ _ h in
      let (free, others) = bind-nil _ _ k in
      (members-IsEntry key ms e.0 here free, entries-AreEntries rest e.1 there others)
  entries-AreEntries (member key null rest) e h k = cc
  entries-AreEntries (member key (str s) rest) e h k = cc
  entries-AreEntries (member key (other b) rest) e h k = cc
