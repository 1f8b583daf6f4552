-- ===== src/Users/Associated/Reports.antt =====
-- The search for conflicts reports them, or raises an exception that is no `ValidationError`.
use jewel.Prelude.{
  ℕ, true, false, Text, text, Option, none, some, List, [], ◌∷◌, ◌++◌, Option-cases, inl, inr,
}
use jewel.Users.{Problem, Result, ok, invalid, raised, ◌>>=◌, Env, Rows, find_authenticator}
use jewel.Users.Json.{Json, null, str, other, object, Members, end, member, get}
use jewel.Users.Associated.{
  Number, not_integer, negative, natural, Readers, conflict_of_number, conflict_of_uid, conflict_of,
  conflicts,
}

-- A list of problems, or an exception of another kind.
abbrev pub Reports : Result (List Problem) → Type 0
Reports (ok ps) = Unit
Reports (invalid ps) = ⊥
Reports raised = Unit

bind-Reports :
    (r s : Result (List Problem))
    → Reports r
    → Reports s
    → Reports (r >>= λ ps. s >>= λ qs. ok (ps ++ qs))
bind-Reports (ok ps) (ok qs) h k = tt
bind-Reports (ok ps) raised h k = tt
bind-Reports (ok ps) (invalid qs) h k = absurd k
bind-Reports (invalid ps) s h k = absurd h
bind-Reports raised s h k = tt

module _ (E : Env) (P : Readers) (user : Option ℕ) (rows : Rows) where
  conflict_of_number-Reports :
      (n : Number) (uid : Option Text) → Reports (conflict_of_number E P n uid user rows)
  unfolding conflict_of_number
  conflict_of_number-Reports not_integer uid = tt
  conflict_of_number-Reports negative uid = tt
  conflict_of_number-Reports (natural id) uid = elim (Option-cases (find_authenticator E id)) [
    | inl e ↦ rw (e, Reports) tt
    | inr (a, e) ↦ rw (e, Reports) tt
  ]

  conflict_of_uid-Reports :
      (key : Text) (v : Option Json) → Reports (conflict_of_uid E P key v user rows)
  unfolding conflict_of_uid
  conflict_of_uid-Reports key none = tt
  conflict_of_uid-Reports key (some null) = tt
  conflict_of_uid-Reports key (some (str [])) = tt
  conflict_of_uid-Reports key (some (str (c ∷ s))) = conflict_of_number-Reports _ _
  conflict_of_uid-Reports key (some (other true)) = conflict_of_number-Reports _ _
  conflict_of_uid-Reports key (some (other false)) = tt
  conflict_of_uid-Reports key (some (object end)) = tt
  conflict_of_uid-Reports key (some (object (member k v ms))) = conflict_of_number-Reports _ _

  pub conflict_of-Reports : (key : Text) (v : Json) → Reports (conflict_of E P key v user rows)
  unfolding conflict_of
  conflict_of-Reports key (object ms) = conflict_of_uid-Reports key (get (text "uid") ms)
  conflict_of-Reports key null = tt
  conflict_of-Reports key (str s) = tt
  conflict_of-Reports key (other b) = tt

  pub conflicts-Reports : (ms : Members) → Reports (conflicts E P ms user rows)
  unfolding conflicts
  conflicts-Reports end = tt
  conflicts-Reports (member key v ms) =
      bind-Reports (conflict_of E P key v user rows) (conflicts E P ms user rows)
        (conflict_of-Reports key v) (conflicts-Reports ms)
