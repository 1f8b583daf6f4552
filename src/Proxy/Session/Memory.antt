-- ===== src/Proxy/Session/Memory.antt =====
-- A cache as Django documents it: a dictionary of values with the times at which they expire.
use jewel.Prelude.{ℕ, ◌+◌, Text, Option, none, some, ltb, if◌then◌else◌, arith}
use jewel.Prelude.Dict.{Dict, lookup, insert, erase, lookup-insert, lookup-erase}
use jewel.Proxy.Session.{Cache, IsLawful}

unfoldable pub entry_at : ℕ → Option (Text × ℕ) → Option Text
entry_at now none = none
entry_at now (some (v, expires)) = if ltb now expires then some v else none

abbrev pub memory : Cache
memory = record {
  State = Dict (Text × ℕ);
  get = λ s now k. entry_at now (lookup k s);
  set = λ s now k v timeout. insert k (v, now + timeout) s;
  delete = λ s k. erase k s;
}

pub memory-IsLawful : IsLawful memory
unfolding entry_at
memory-IsLawful = record {
  get-set = λ s t now timeout k j v le. rw (lookup-insert k j (v, t + timeout) s) (ground arith);
  get-delete = λ s now k j. rw (lookup-erase k j s) (ground arith);
}
