-- ===== src/ResourceMigration/Superusers.antt =====
-- `SuperuserSyncMixin` of superuser_sync.py: the flags of one user. A dictionary of user data is
-- read and written through the parameters of `Gateway`.
use jewel.Prelude.{
  ◌≡◌, ◌≢◌, ◌⊎◌, text_eq_refl, refl, Bool, true, false, Text, text, text_eq, Option, none, some,
  if◌then◌else◌, ◌||◌, Bool-cases, inl, inr,
}

-- Gateway's users, and the keys of the user data that are used.
pub record Gateway : Type 1 where
  pub State : Type 0
  pub Data : Type 0
  -- whether the user of this name is a superuser
  pub get_user : State → Text → Option Bool
  -- `save` of a user with the flag set
  pub promote : State → Text → State
  pub username : Data → Text
  pub is_superuser : Data → Bool
  pub set_superuser : Bool → Data → Data

pub record IsLawful (G : Gateway) : Type 0 where
  pub get_user-promote :
      (s : G.State) (u v : Text)
      → G.get_user (G.promote s u) v ≡ (
          if text_eq u v
          then elim (G.get_user s v) [ none ↦ none | some b ↦ some true ]
          else G.get_user s v)
  pub is_superuser-set_superuser :
      (b : Bool) (d : G.Data) → G.is_superuser (G.set_superuser b d) ≡ b

module _ (G : Gateway) where
  abbrev pub promote_if : Option Bool → Text → G.State → G.State
  promote_if none username s = s
  promote_if (some true) username s = s
  promote_if (some false) username s = G.promote s username

  -- `_sync_controller_superuser`
  unfoldable pub sync_controller_superuser : Text → Bool → G.State → G.Data → G.State × G.Data
  sync_controller_superuser username false s d = (s, d)
  sync_controller_superuser username true s d =
      (promote_if (G.get_user s username) username s, G.set_superuser true d)

  abbrev pub is_gateway_superuser : Option Bool → Bool
  is_gateway_superuser none = false
  is_gateway_superuser (some b) = b

  -- `_sync_hub_eda_superuser`
  unfoldable pub sync_hub_eda_superuser : Text → G.State → G.Data → G.State × G.Data
  sync_hub_eda_superuser username s d =
      (s, G.set_superuser (is_gateway_superuser (G.get_user s username)) d)

  -- `_sync_user_superuser_flag`: the data of the resource, and the validated data.
  unfoldable pub sync_user_superuser_flag : Text → G.State → G.Data → G.Data → G.State × G.Data
  sync_user_superuser_flag service_type s d validated =
      if text_eq service_type (text "controller")
      then sync_controller_superuser (G.username validated) (G.is_superuser validated) s d
      else if text_eq service_type (text "hub") || text_eq service_type (text "eda")
      then sync_hub_eda_superuser (G.username validated) s d
      else (s, d)

module _ (G : Gateway) (L : IsLawful G) where
  -- A superuser stays one.
  abbrev pub KeepsSuperusers : G.State → G.State → Type 0
  KeepsSuperusers s s' = (u : Text) → G.get_user s u ≡ some true → G.get_user s' u ≡ some true

  promote_if-KeepsSuperusers :
      (o : Option Bool) (name : Text) (s : G.State) → KeepsSuperusers s (promote_if G o name s)
  promote_if-KeepsSuperusers none name s u h = h
  promote_if-KeepsSuperusers (some true) name s u h = h
  promote_if-KeepsSuperusers (some false) name s u h = elim (Bool-cases (text_eq name u)) [
    | inl same ↦ rw (L.get_user-promote s name u, same, h) refl
    | inr other ↦ rw (L.get_user-promote s name u, other) h
  ]

  promoted :
      (o : Option Bool) (name : Text) (s : G.State)
      → G.get_user s name ≡ o
      → G.get_user (promote_if G o name s) name ≢ some false
  promoted none name s e h = cc
  promoted (some true) name s e h = cc
  promoted (some false) name s e h =
      let after = L.get_user-promote s name name in
      let forced = rw (text_eq_refl name, e) at after in cc

  -- With the controller, no one loses the superuser flag in the gateway; and for a superuser of the
  -- controller the gateway's user, if there is one, has the flag afterwards, and so has the data
  -- that is migrated.
  pub sync_controller-KeepsSuperusers :
      (s : G.State) (d validated : G.Data)
      → KeepsSuperusers s (sync_user_superuser_flag G (text "controller") s d validated).0
        × ((G.is_superuser validated ≡ false)
            ⊎ ((G.get_user
                    (sync_user_superuser_flag G (text "controller") s d validated).0
                    (G.username validated)
                  ≢ some false)
                × (G.is_superuser (sync_user_superuser_flag G (text "controller") s d validated).1
                    ≡ true)))
  unfolding sync_user_superuser_flag sync_controller_superuser
  sync_controller-KeepsSuperusers s d validated =
      rw (text_eq_refl (text "controller")) (elim (Bool-cases (G.is_superuser validated)) [
        | inr plain ↦ rw plain ((λ u h. h), inl refl)
        | inl flagged ↦ rw flagged (
          promote_if-KeepsSuperusers (G.get_user s (G.username validated)) (G.username validated) s,
          inr (
            promoted (G.get_user s (G.username validated)) (G.username validated) s refl,
            L.is_superuser-set_superuser true d,
          ),
        )
      ])
