-- ===== src/Users/Associated/Sound.antt =====
-- What the validation of `associated_authenticators` lets through, and what makes it fail.
use jewel.Prelude.{append-eq_nil, ℕ, Bool, true, false, ◌≡◌, ◌≢◌, refl, Option, List, [], ◌∷◌}
use jewel.Users.{Problem, Result, ok, invalid, raised, ◌>>=◌, Env, Rows}
use jewel.Users.Json.{Json, null, str, other, object, Members, is_true, keys}
use jewel.Users.Associated.{
  Readers, collect, report, entry_problems, validate_authenticator_details_format, conflicts,
  validate_associated_authenticators_conflicts, entries_problems, is_unchanged, accept_if_none,
  validate_object, validate_associated_authenticators,
}
use jewel.Users.Associated.Reports.{Reports, conflicts-Reports}
use jewel.Users.Associated.Entries.{AreEntries, entries-AreEntries, keys-Exist, keys-ne}

-- Nothing is collected if each of the functions returns, or reports an empty list.
collect-nil :
    (r : Result (Unit {0})) (s : Result (List Problem))
    → r ≢ invalid []
    → collect r s ≡ ok []
    → (r ≡ ok tt) × (s ≡ ok [])
unfolding collect
collect-nil (ok tt) s ne h = (refl, h)
collect-nil (invalid ps) (ok qs) ne h =
    let both = append-eq_nil ps qs (cc) in absurd (ne (rw both.0))
collect-nil (invalid ps) (invalid qs) ne h = cc
collect-nil (invalid ps) raised ne h = cc
collect-nil raised s ne h = cc

report-ne : (ps : List Problem) → report ps ≢ invalid []
report-ne [] h = cc
report-ne (p ∷ ps) h = cc

report-ok : (ps : List Problem) → report ps ≡ ok tt → ps ≡ []
report-ok [] h = refl
report-ok (p ∷ ps) h = cc

module _ (E : Env) (P : Readers) (user : Option ℕ) (rows : Rows) where
  abbrev pub AreObjectEntries : Json → Type 0
  AreObjectEntries (object ms) = AreEntries E P user rows ms
  AreObjectEntries null = ⊥
  AreObjectEntries (str s) = ⊥
  AreObjectEntries (other b) = ⊥

  entries_problems-AreEntries :
      (ms : Members) → entries_problems E P ms user rows ≡ ok [] → AreEntries E P user rows ms
  unfolding entries_problems validate_authenticator_details_format
      validate_associated_authenticators_conflicts
  entries_problems-AreEntries ms h =
      let (exist, rest) = collect-nil _ _ (keys-ne E P user rows (keys ms)) h in
      let (formed, rest') = collect-nil _ _ (report-ne (entry_problems E P ms)) rest in
      let (free, _) =
        collect-nil _ _
          (conflicts-ne (conflicts E P ms user rows) (conflicts-Reports E P user rows ms)) rest' in
      entries-AreEntries E P user rows ms (keys-Exist E P user rows (keys ms) exist)
        (report-ok _ formed) (conflicts-nil (conflicts E P ms user rows) free)
    where
      conflicts-ne : (r : Result (List Problem)) → Reports r → (r >>= report) ≢ invalid []
      conflicts-ne (ok ps) reports h = report-ne ps h
      conflicts-ne (invalid ps) reports h = absurd reports
      conflicts-ne raised reports h = cc

      conflicts-nil : (r : Result (List Problem)) → (r >>= report) ≡ ok tt → r ≡ ok []
      conflicts-nil (ok []) h = refl
      conflicts-nil (ok (p ∷ ps)) h = cc
      conflicts-nil (invalid ps) h = cc
      conflicts-nil raised h = cc

  accept-ok :
      (v w : Json) (r : Result (List Problem))
      → (r >>= accept_if_none E P v) ≡ ok w
      → (r ≡ ok []) × (w ≡ v)
  accept-ok v w (ok []) h = (refl, cc)
  accept-ok v w (ok (p ∷ ps)) h = cc
  accept-ok v w (invalid ps) h = cc
  accept-ok v w raised h = cc

  object-IsSound :
      (v w : Json) → validate_object E P v user rows ≡ ok w → AreObjectEntries v × (w ≡ v)
  unfolding validate_object
  object-IsSound (object ms) w h =
      let (none_found, same) = accept-ok (object ms) w _ h in
      (entries_problems-AreEntries ms none_found, same)
  object-IsSound null w h = cc
  object-IsSound (str s) w h = cc
  object-IsSound (other b) w h = cc

  -- A value that is not empty and differs from what the user has passes only if a superuser
  -- submits it, and unchanged. It is then an object whose keys are the ids of existing
  -- authenticators, and each entry has no members but uid and email, a uid that is not empty and
  -- that no other user has at this authenticator, and an email that is missing, null or valid.
  pub validate_associated_authenticators-IsSound :
      (superuser : Bool) (v w : Json)
      → is_true v ≡ true
      → is_unchanged E P v user rows ≡ false
      → validate_associated_authenticators E P superuser v user rows ≡ ok w
      → (superuser ≡ true) × AreObjectEntries v × (w ≡ v)
  unfolding validate_associated_authenticators
  validate_associated_authenticators-IsSound true v w t u h =
      let sound = object-IsSound v w (rw (t, u) at h) in (refl, sound.0, sound.1)
  validate_associated_authenticators-IsSound false v w t u h = cc (rw (t, u) at h)
