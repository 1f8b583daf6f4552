-- ===== src/ResourceMigration/Consistency.antt =====
-- `_ensure_superuser_consistency` of superuser_sync.py: the pass after a migration. A service's user
-- list is given by its pages, in their order, up to the one with no `next`.
use jewel.Prelude.{
  is_member, add_member, ◌≡◌, All, Bool, true, false, not, ◌&&◌, ◌||◌, Text, text, text_eq, Option,
  none, some, List, [], ◌∷◌, ◌++◌, keep, if◌then◌else◌,
}
use jewel.ResourceMigration.Superusers.{Gateway, IsLawful, KeepsSuperusers}

pub record UserItem (D : Type 0) : Type 0 where
  pub ansible_id : Text
  pub resource_data : D

abbrev pub Pages : Type 0 → Type 0
Pages D = List (List (UserItem D))

pub record ServiceApi (D : Type 0) : Type 0 where
  pub service_type : Text
  pub pages : Pages D

-- An `update_resource` call: the id and the new data.
pub record Demotion (D : Type 0) : Type 0 where
  pub ansible_id : Text
  pub resource_data : D

-- What the pass does: `CommandError` or not, the gateway after it and the calls to the services.
pub record Checked (S D : Type 0) : Type 0 where
  pub raised : Bool
  pub state : S
  pub demotions : List (Demotion D)

module _ (G : Gateway) (superusers : G.State → List Text) where
  unfoldable pub page_superusers : List (UserItem G.Data) → List Text → List Text
  page_superusers [] us = us
  page_superusers (i ∷ items) us =
      page_superusers items
        (if G.is_superuser i.resource_data then add_member (G.username i.resource_data) us else us)

  -- `_collect_controller_superusers`
  unfoldable pub collect_controller_superusers : Pages G.Data → List Text → List Text
  collect_controller_superusers [] us = us
  collect_controller_superusers (items ∷ pages) us =
      collect_controller_superusers pages (page_superusers items us)

  abbrev pub promote_or_miss : Text → Option Bool → G.State × List Text → G.State × List Text
  promote_or_miss u none (s, missing) = (s, u ∷ missing)
  promote_or_miss u (some flag) (s, missing) = (G.promote s u, missing)

  -- The loop over the users that only the controller has as superusers: the missing ones.
  unfoldable pub promote_all : List Text → G.State × List Text → G.State × List Text
  promote_all [] r = r
  promote_all (u ∷ us) r = promote_all us (promote_or_miss u (G.get_user r.0 u) r)

  -- `_ensure_controller_gateway_superusers`: whether it raises, and the gateway after it.
  abbrev pub is_empty : List Text → Bool
  is_empty [] = true
  is_empty (u ∷ us) = false

  unfoldable pub ensure_controller_gateway_superusers :
      Pages G.Data → List Text → G.State → Bool × G.State
  ensure_controller_gateway_superusers pages gateway_superusers s =
      let controller = collect_controller_superusers pages [] in
      let (s', missing) =
        promote_all (keep (λ u. not (is_member u gateway_superusers)) controller) (s, []) in
      (not (is_empty missing), s')

  abbrev pub is_extra : List Text → UserItem G.Data → Bool
  is_extra gateway_superusers i =
      G.is_superuser i.resource_data
      && not (is_member (G.username i.resource_data) gateway_superusers)

  unfoldable pub demote_page : List Text → List (UserItem G.Data) → List (Demotion G.Data)
  demote_page gateway_superusers [] = []
  demote_page gateway_superusers (i ∷ items) =
      let rest = demote_page gateway_superusers items in
      if is_extra gateway_superusers i
      then record {
        ansible_id = i.ansible_id;
        resource_data = G.set_superuser false i.resource_data;
      }
        ∷ rest
      else rest

  -- `_demote_extra_superusers`
  unfoldable pub demote_extra_superusers : List Text → Pages G.Data → List (Demotion G.Data)
  demote_extra_superusers gateway_superusers [] = []
  demote_extra_superusers gateway_superusers (items ∷ pages) =
      demote_page gateway_superusers items ++ demote_extra_superusers gateway_superusers pages

  -- The last controller of the list, and the services of type hub or eda.
  unfoldable pub controller_api :
      List (ServiceApi G.Data) → Option (ServiceApi G.Data) → Option (ServiceApi G.Data)
  controller_api [] found = found
  controller_api (a ∷ apis) found =
      controller_api apis (if text_eq a.service_type (text "controller") then some a else found)

  unfoldable pub is_hub_or_eda : ServiceApi G.Data → Bool
  is_hub_or_eda a = text_eq a.service_type (text "hub") || text_eq a.service_type (text "eda")

  unfoldable pub demote_in : List Text → List (ServiceApi G.Data) → List (Demotion G.Data)
  demote_in gateway_superusers [] = []
  demote_in gateway_superusers (a ∷ apis) =
      demote_extra_superusers gateway_superusers a.pages ++ demote_in gateway_superusers apis

  abbrev pub ensure_controller : Option (ServiceApi G.Data) → List Text → G.State → Bool × G.State
  ensure_controller none gateway_superusers s = (false, s)
  ensure_controller (some a) gateway_superusers s =
      ensure_controller_gateway_superusers a.pages gateway_superusers s

  -- The demotions are left out when the promotions raised.
  abbrev pub after_controller :
      List Text → List (ServiceApi G.Data) → Bool × G.State → Checked G.State G.Data
  after_controller gateway_superusers apis (true, s) = record {
    raised = true;
    state = s;
    demotions = [];
  }
  after_controller gateway_superusers apis (false, s) = record {
    raised = false;
    state = s;
    demotions = demote_in gateway_superusers (keep is_hub_or_eda apis);
  }

  -- `_ensure_superuser_consistency`: the set of superusers is read once, at its start.
  unfoldable pub ensure_superuser_consistency :
      List (ServiceApi G.Data) → G.State → Checked G.State G.Data
  ensure_superuser_consistency apis s =
      after_controller (superusers s) apis
        (ensure_controller (controller_api apis none) (superusers s) s)

module _ (G : Gateway) (superusers : G.State → List Text) (L : IsLawful G)
    (username-set_superuser : (b : Bool) (d : G.Data)
      → G.username (G.set_superuser b d) ≡ G.username d) where
  -- A demotion clears the flag of a user who is not in the set.
  abbrev pub IsFair : List Text → Demotion G.Data → Type 0
  IsFair us d =
      (G.is_superuser d.resource_data ≡ false) × (is_member (G.username d.resource_data) us ≡ false)

  -- The pass keeps the gateway's superusers and clears the flag only of users of a hub or an EDA
  -- service who were none when it began.
  abbrev pub IsConsistent : G.State → Checked G.State G.Data → Type 0
  IsConsistent s c = KeepsSuperusers G L s c.state × All (IsFair (superusers s)) c.demotions
