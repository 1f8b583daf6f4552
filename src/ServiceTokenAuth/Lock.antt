-- ===== src/ServiceTokenAuth/Lock.antt =====
-- No service token is looked at before a migration has completed.
use jewel.Prelude.{
  ℕ, ◌-◌, ◌≡◌, refl, sym, ap, ◌∙◌, ◌⊎◌, inl, inr, Bool, true, false, Text, Option, none, some, List,
  ltb, Bool-cases,
}
use mathlib.Core.Option.{some-injective}
use jewel.Orchestration.{ServiceApi, Phases, Settings}
use jewel.UserMerge.Groups.{service_type_order}
use jewel.Orchestration.Services.{in_order, handle}
use jewel.Orchestration.Completion.{IsComplete, handle-IsComplete}
use jewel.ServiceToken.{Env, State}
use jewel.ServiceTokenAuth.{
  FlagCache, cache_lifetime, cached_since, read_flag, has_migration_completed, Request, Urls, World,
  Answer, anonymous, locked, when_completed, with_token, authenticate,
}

module _ (E : Env) (P : Phases) (C : Settings) where
  -- The worlds that requests and runs of the command lead to, from one without the flag. A run is in a
  -- process of its own and may end as it will.
  pub data IsReached : World E → Type 1 where
    start :
        (tokens : State)
        → IsReached
            (record { has_ran = false; cache = record { ts = none; val = none }; tokens = tokens })
    request :
        (w : World E) (urls : Urls) (r : Request) (now : ℕ)
        → IsReached w
        → IsReached (authenticate E urls r now w).1
    command :
        (w : World E) (completed rerun : Bool) (username : Text) (configured : List ServiceApi)
        (s : P.State)
        → IsReached w
        → IsReached (record w {
          has_ran = (handle P C completed rerun username configured w.has_ran s).has_ran;
        })

  -- One of the runs of the command has completed the migration.
  abbrev pub HasCompleted : {w : World E} → IsReached w → Type 0
  HasCompleted (start tokens) = ⊥
  HasCompleted (request w urls r now before) = HasCompleted before
  HasCompleted (command w completed rerun username configured s before) =
      HasCompleted before
      ⊎ IsComplete P C (in_order P C service_type_order configured)
          (handle P C completed rerun username configured w.has_ran s).state

  cached_since_cases :
      (now : ℕ) (ts : Option ℕ) (val : Option Bool)
      → (cached_since now ts val ≡ none) ⊎ (cached_since now ts val ≡ val)
  cached_since_cases now none val = inl refl
  cached_since_cases now (some ts) val = elim (Bool-cases (ltb (now - ts) cache_lifetime)) [
    | inl fresh ↦ inr (rw fresh refl)
    | inr stale ↦ inl (rw stale refl)
  ]

  -- A flag and a cache that are set only if something holds.
  abbrev OnlyIf : Type 0 → Bool → FlagCache → Type 0
  OnlyIf G has_ran c = (has_ran ≡ true → G) × (c.val ≡ some true → G)

  abbrev ReadsOnlyIf : Type 0 → Bool × FlagCache → Type 0
  ReadsOnlyIf G (b, c) = (b ≡ true → G) × (c.val ≡ some true → G)

  read_flag-OnlyIf :
      (G : Type 0) (now : ℕ) (has_ran : Bool) (c : FlagCache) (o : Option Bool)
      → OnlyIf G has_ran c
      → (o ≡ none) ⊎ (o ≡ c.val)
      → ReadsOnlyIf G (read_flag now has_ran c o)
  read_flag-OnlyIf G now has_ran c none h k = (h.0, (λ e. h.0 (some-injective _ _ e)))
  read_flag-OnlyIf G now has_ran c (some val) h (inl missing) = cc
  read_flag-OnlyIf G now has_ran c (some val) h (inr same) =
      ((λ e. h.1 (sym same ∙ ap some e)), h.1)

  completed-OnlyIf :
      (G : Type 0) (now : ℕ) (has_ran : Bool) (c : FlagCache)
      → OnlyIf G has_ran c
      → ReadsOnlyIf G (has_migration_completed now has_ran c)
  unfolding has_migration_completed
  completed-OnlyIf G now has_ran c h =
      read_flag-OnlyIf G now has_ran c (cached_since now c.ts c.val) h
        (cached_since_cases now c.ts c.val)

  -- What the answer to a token and the world after it show.
  abbrev Shows : Type 0 → Answer E × World E → Type 0
  Shows G (a, w) = OnlyIf G w.has_ran w.cache × ((a ≡ locked) ⊎ G)

  when_completed-Shows :
      (G : Type 0) (urls : Urls) (r : Request) (token : Text) (now : ℕ) (w : World E)
      (read : Bool × FlagCache)
      → (w.has_ran ≡ true → G)
      → ReadsOnlyIf G read
      → Shows G (when_completed E urls r token now w read)
  when_completed-Shows G urls r token now w (false, cache) h k = ((h, k.1), inl refl)
  when_completed-Shows G urls r token now w (true, cache) h k = ((h, k.1), inr (k.0 refl))

  authenticate-Shows :
      (G : Type 0) (urls : Urls) (r : Request) (now : ℕ) (w : World E)
      → OnlyIf G w.has_ran w.cache
      → ((r.service_token ≡ none) × (authenticate E urls r now w ≡ (anonymous, w)))
        ⊎ Shows G (authenticate E urls r now w)
  unfolding authenticate
  authenticate-Shows G urls r now w h = by_token r.service_token
    where
      by_token :
          (o : Option Text)
          → ((o ≡ none) × (with_token E urls r o now w ≡ (anonymous, w)))
            ⊎ Shows G (with_token E urls r o now w)
      by_token none = inl (refl, refl)
      by_token (some token) = inr (
          when_completed-Shows G urls r token now w (has_migration_completed now w.has_ran w.cache)
            h.0 (completed-OnlyIf G now w.has_ran w.cache h))

  reached-OnlyIf :
      (w : World E) (reached : IsReached w) → OnlyIf (HasCompleted reached) w.has_ran w.cache
  reached-OnlyIf _ (start tokens) = ((λ e. cc), (λ e. cc))
  reached-OnlyIf _ (request w urls r now before) =
      let h = reached-OnlyIf w before in
      elim (authenticate-Shows (HasCompleted before) urls r now w h) [
        | inl (missing, same) ↦ rw same h
        | inr shows ↦ shows.0
      ]
  reached-OnlyIf _ (command w completed rerun username configured s before) =
      let h = reached-OnlyIf w before in
      (
        (λ marked.
            elim (handle-IsComplete P C completed rerun username configured w.has_ran s marked) [
              | inl marked_before ↦ inl (h.0 marked_before)
              | inr complete ↦ inr complete
            ]),
        (λ e. inl (h.1 e)),
      )

  -- However requests and runs of the migration command have followed each other: a request with a service
  -- token is refused as locked, unless a run before it has merged the users, then migrated every service
  -- with success, and then made the superusers consistent.
  pub authenticate-HasCompleted :
      (w : World E) (reached : IsReached w) (urls : Urls) (r : Request) (now : ℕ)
      → (r.service_token ≡ none)
        ⊎ (((authenticate E urls r now w).0 ≡ locked) ⊎ HasCompleted reached)
  authenticate-HasCompleted w reached urls r now =
      elim (authenticate-Shows (HasCompleted reached) urls r now w (reached-OnlyIf w reached)) [
        | inl (missing, same) ↦ inl missing
        | inr shows ↦ inr shows.1
      ]
