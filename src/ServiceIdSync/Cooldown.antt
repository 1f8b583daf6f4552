-- ===== src/ServiceIdSync/Cooldown.antt =====
-- The cooldown of token issuers: its size is bounded, and one issuer is let through once a minute.
use jewel.Prelude.{
  ℕ, ◌+◌, ◌-◌, ◌≤◌, ◌<◌, ◌≡◌, refl, true, false, Text, text_eq_iff, text_eq_refl, some, List, [],
  ◌∷◌, length, keep, length-keep-le, All, arith,
}
use jewel.Prelude.Dict.{lookup, lookup-insert, length-insert-le}
use jewel.ServiceIdSync.{
  Cooldowns, cooldown_nanoseconds, max_cooldown_entries, prune, try_issuer, check_and_set_cooldown,
}

length-prune-le : (now : ℕ) (d : Cooldowns) → length (prune now d) ≤ length d
unfolding prune
length-prune-le now d = length-keep-le _ d

prune_at_start : (now : ℕ) (d : Cooldowns) → now < cooldown_nanoseconds → prune now d ≡ d
unfolding prune keep
prune_at_start now [] h = refl
prune_at_start now ((j, t) ∷ d) h = ground (arith, prune_at_start now d h)

length-try_issuer-le :
    (now : ℕ) (issuer : Text) (d : Cooldowns) → length (try_issuer now issuer d).1 ≤ length d + 1
unfolding try_issuer
length-try_issuer-le now issuer d = ground (arith, length-insert-le issuer now d)

-- The dictionary never holds more than the maximum number of entries, whatever the issuers are.
pub check_and_set_cooldown_bounded :
    (now : ℕ) (issuer : Text) (d : Cooldowns)
    → length d ≤ max_cooldown_entries
    → length (check_and_set_cooldown now issuer d).1 ≤ max_cooldown_entries
unfolding check_and_set_cooldown
check_and_set_cooldown_bounded now issuer d h = ground (
  arith,
  length-prune-le now d,
  length-try_issuer-le now issuer d,
  length-try_issuer-le now issuer (prune now d),
)

-- An issuer's entry that is younger than the cooldown stays when old entries are dropped.
lookup-prune :
    (now t : ℕ) (issuer : Text) (d : Cooldowns)
    → lookup issuer d ≡ some t
    → now - t < cooldown_nanoseconds
    → lookup issuer (prune now d) ≡ some t
unfolding prune keep lookup
lookup-prune now t issuer [] e h = e
lookup-prune now t issuer ((j, u) ∷ d) e h = ground (arith, lookup-prune now t issuer d)

try_issuer_blocked :
    (now t : ℕ) (issuer : Text) (d : Cooldowns)
    → lookup issuer d ≡ some t
    → now - t < cooldown_nanoseconds
    → try_issuer now issuer d ≡ (true, d)
unfolding try_issuer
try_issuer_blocked now t issuer d e h = rw e (ground arith)

-- The other cases of `try_issuer`: an entry stays, whoever asks.
lookup-try_issuer :
    (now t : ℕ) (asked issuer : Text) (d : Cooldowns)
    → lookup issuer d ≡ some t
    → now - t < cooldown_nanoseconds
    → lookup issuer (try_issuer now asked d).1 ≡ some t
unfolding try_issuer
lookup-try_issuer now t asked issuer d e h =
    ground (arith, text_eq_iff asked issuer, lookup-insert asked issuer now d)

lookup-check :
    (now t : ℕ) (asked issuer : Text) (d : Cooldowns)
    → lookup issuer d ≡ some t
    → now - t < cooldown_nanoseconds
    → lookup issuer (check_and_set_cooldown now asked d).1 ≡ some t
unfolding check_and_set_cooldown
lookup-check now t asked issuer d e h = ground (
  arith,
  lookup-prune now t issuer d e h,
  lookup-try_issuer now t asked issuer d e h,
  lookup-try_issuer now t asked issuer (prune now d),
)

check_blocked :
    (now t : ℕ) (issuer : Text) (d : Cooldowns)
    → lookup issuer d ≡ some t
    → now - t < cooldown_nanoseconds
    → (check_and_set_cooldown now issuer d).0 ≡ true
unfolding check_and_set_cooldown
check_blocked now t issuer d e h = ground (
  arith,
  lookup-prune now t issuer d e h,
  try_issuer_blocked now t issuer d e h,
  try_issuer_blocked now t issuer (prune now d),
)

-- The state after calls for any issuers, each with its time.
abbrev pub after_calls : List (ℕ × Text) → Cooldowns → Cooldowns
after_calls [] d = d
after_calls ((now, asked) ∷ calls) d = after_calls calls (check_and_set_cooldown now asked d).1

-- A call that lets an issuer through has written the time of the call.
admitted_entry :
    (now : ℕ) (issuer : Text) (d : Cooldowns)
    → (check_and_set_cooldown now issuer d).0 ≡ false
    → lookup issuer (check_and_set_cooldown now issuer d).1 ≡ some now
unfolding check_and_set_cooldown try_issuer
admitted_entry now issuer d h = ground (
  arith,
  lookup-insert issuer issuer now d,
  lookup-insert issuer issuer now (prune now d),
  text_eq_refl issuer,
)

after_calls_entry :
    (t : ℕ) (issuer : Text) (calls : List (ℕ × Text)) (d : Cooldowns)
    → All (λ c. c.0 - t < cooldown_nanoseconds) calls
    → lookup issuer d ≡ some t
    → lookup issuer (after_calls calls d) ≡ some t
after_calls_entry t issuer [] d h e = e
after_calls_entry t issuer ((now, asked) ∷ calls) d h e =
    after_calls_entry t issuer calls (check_and_set_cooldown now asked d).1 h.1
      (lookup-check now t asked issuer d e h.0)

-- Once an issuer is let through, it is blocked for the whole cooldown, whatever calls for this and
-- other issuers come in between, also when they fill the dictionary.
pub check_and_set_cooldown_limits :
    (t now : ℕ) (issuer : Text) (calls : List (ℕ × Text)) (d : Cooldowns)
    → (check_and_set_cooldown t issuer d).0 ≡ false
    → All (λ c. c.0 - t < cooldown_nanoseconds) calls
    → now - t < cooldown_nanoseconds
    → (check_and_set_cooldown now issuer
        (after_calls calls (check_and_set_cooldown t issuer d).1)).0
      ≡ true
check_and_set_cooldown_limits t now issuer calls d admitted h young =
    check_blocked now t issuer _
      (after_calls_entry t issuer calls _ h (admitted_entry t issuer d admitted)) young

-- While the clock reads less than the cooldown every issuer is blocked and nothing is recorded,
-- also one that was never asked for: the default of a missing entry is the time 0.
pub check_and_set_cooldown_at_start :
    (now : ℕ) (issuer : Text) (d : Cooldowns)
    → now < cooldown_nanoseconds
    → ((check_and_set_cooldown now issuer d).0 ≡ true)
      × (lookup issuer (check_and_set_cooldown now issuer d).1 ≡ lookup issuer d)
unfolding check_and_set_cooldown try_issuer
check_and_set_cooldown_at_start now issuer d h =
    (ground arith, ground (arith, prune_at_start now d h))
