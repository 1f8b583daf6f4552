-- ===== src/RoleAssignments/Rows.antt =====
-- Rows as members of a table: their equality, and insertion by bulk creation.
use jewel.Prelude.{
  ℕ, ◌≡◌, refl, inl, inr, Bool, true, false, not, ◌&&◌, ◌||◌, text_eq_iff, text_eq_refl, Option,
  none, some, List, [], ◌∷◌, map, keep, any, Bool-cases, ==_iff, ◌==◌, arith, All,
}
use jewel.RoleAssignments.{
  Kind, user, team, ObjectRole, Assignment, same_kind, same_number, same_object_role, same_object,
  same_assignment,
}
use jewel.RoleAssignments.Create.{insert_new}

same_number_sound : (a b : Option ℕ) → same_number a b ≡ true → a ≡ b
same_number_sound none none h = refl
same_number_sound none (some n) h = cc
same_number_sound (some m) none h = cc
same_number_sound (some m) (some n) h = ground arith

pub and_true : (a b : Bool) → (a && b) ≡ true → (a ≡ true) × (b ≡ true)
and_true a b h = ground arith

pub same_object_role_sound : (a b : ObjectRole) → same_object_role a b ≡ true → a ≡ b
same_object_role_sound a b h =
    let (r, h') = and_true _ _ h in
    let (c, o) = and_true _ _ h' in
    λ i. record {
      role_definition_id = (==_iff a.role_definition_id b.role_definition_id).0 r i;
      content_type_id = same_number_sound a.content_type_id b.content_type_id c i;
      object_id = (text_eq_iff a.object_id b.object_id).0 o i;
    }

pub same_kind_sound : (a b : Kind) → same_kind a b ≡ true → a ≡ b
same_kind_sound user user h = refl
same_kind_sound user team h = cc
same_kind_sound team user h = cc
same_kind_sound team team h = refl

same_object_sound : (a b : Option ObjectRole) → same_object a b ≡ true → a ≡ b
same_object_sound none none h = refl
same_object_sound none (some b) h = cc
same_object_sound (some a) none h = cc
same_object_sound (some a) (some b) h = λ i. some (same_object_role_sound a b h i)

pub same_assignment_sound : (a b : Assignment) → same_assignment a b ≡ true → a ≡ b
unfolding same_assignment
same_assignment_sound a b h =
    let (k, h') = and_true _ _ h in
    let (u, h'') = and_true _ _ h' in
    let (r, o) = and_true _ _ h'' in
    λ i. record {
      kind = same_kind_sound a.kind b.kind k i;
      actor = (==_iff a.actor b.actor).0 u i;
      role_definition_id = (==_iff a.role_definition_id b.role_definition_id).0 r i;
      object_role = same_object_sound a.object_role b.object_role o i;
    }

pub or_true : (a : Bool) → (a || true) ≡ true
or_true a = ground arith

pub or_swap : (a b c : Bool) → (a || (b || c)) ≡ (b || a) || c
or_swap a b c = ground arith

or_assoc : (a b c : Bool) → ((a || b) || c) ≡ a || (b || c)
or_assoc a b c = ground arith

or_left : (a b c : Bool) → (a || (b || c)) ≡ b || (a || c)
or_left a b c = ground arith

pub keep-All : {A : Type 0} (p : A → Bool) (xs : List A) → All (λ x. p x ≡ true) xs → keep p xs ≡ xs
unfolding keep
keep-All p [] h = refl
keep-All p (x ∷ xs) h = rw (h.0, keep-All p xs h.1) refl

pub any_mono :
    {A : Type 0} (p q s : A → Bool)
    → ((a : A) → q a ≡ true → p a ≡ true → s a ≡ true)
    → (xs : List A) → any p (keep q xs) ≡ true
    → any s xs ≡ true
unfolding any keep
any_mono p q s imp [] h = cc
any_mono p q s imp (x ∷ xs) h = elim (Bool-cases (q x)) [
  | inl e ↦ elim (Bool-cases (p x)) [
    | inl f ↦ rw (imp x e f) refl
    | inr f ↦ let ih = any_mono p q s imp xs in ground arith
  ]
  | inr e ↦ let ih = any_mono p q s imp xs in ground arith
]

-- `bulk_create` of a kind of row: what it leaves in the table.
module _ {A : Type 0} (same : A → A → Bool) (sound : (a b : A) → same a b ≡ true → a ≡ b) where
  abbrev pub has : A → List A → Bool
  has a = any (same a)

  pub has-insert_new :
      (conflict : A → List A → Bool)
      → ((a : A) (rows : List A) → conflict a rows ≡ true → has a rows ≡ true)
      → (g : A) (new rows : List A) → has g (insert_new conflict new rows) ≡ has g new || has g rows
  unfolding insert_new any
  has-insert_new conflict found g [] rows = refl
  has-insert_new conflict found g (a ∷ new) rows = elim (Bool-cases (conflict a rows)) [
    | inl old ↦ elim (Bool-cases (same g a)) [
      | inl e ↦
          let there : has g rows ≡ true = rw (sound g a e) (found a rows old) in
          let ih = has-insert_new conflict found g new rows in
          rw (old, ih, there, e) (or_true (any (same g) new))
      | inr e ↦ let ih = has-insert_new conflict found g new rows in rw (old, e) ih
    ]
    | inr fresh ↦
        let ih = has-insert_new conflict found g new (a ∷ rows) in
        rw (fresh, ih) (or_swap (has g new) (same g a) (has g rows))
  ]

  -- Rows that are not created are in the table already.
  pub has-keep :
      {B : Type 0} (f : B → A) (p : B → Bool) (g : A) (xs : List B) (rows : List A)
      → All (λ x. p x ≡ false → has (f x) rows ≡ true) xs
      → has g (map f (keep p xs)) || has g rows ≡ has g (map f xs) || has g rows
  unfolding any keep
  has-keep f p g [] rows h = refl
  has-keep f p g (x ∷ xs) rows h =
      let ih = has-keep f p g xs rows h.1 in
      elim (Bool-cases (p x)) [
        | inl new ↦
            rw new (elim (Bool-cases (same g (f x))) [ inl e ↦ rw e refl | inr e ↦ rw e ih ])
        | inr old ↦ rw old (elim (Bool-cases (same g (f x))) [
          | inl e ↦
              let there : has g rows ≡ true = rw (sound g (f x) e) (h.0 old) in
              rw (e, there) (or_true (has g (map f (keep p xs))))
          | inr e ↦ rw e ih
        ])
      ]

  pub has-split :
      {B : Type 0} (f : B → A) (p : B → Bool) (g : A) (xs : List B)
      → has g (map f (keep p xs)) || has g (map f (keep (λ x. not (p x)) xs)) ≡ has g (map f xs)
  unfolding any keep
  has-split f p g [] = refl
  has-split f p g (x ∷ xs) =
      let ih = has-split f p g xs in
      elim (Bool-cases (p x)) [
        | inl e ↦ rw (e, ← ih) (or_assoc (same g (f x)) _ _)
        | inr e ↦ rw (e, ← ih) (or_left (has g (map f (keep p xs))) (same g (f x)) _)
      ]

pub same_kind_refl : (k : Kind) → same_kind k k ≡ true
same_kind_refl user = refl
same_kind_refl team = refl

same_number_refl : (n : Option ℕ) → same_number n n ≡ true
same_number_refl none = refl
same_number_refl (some n) = ground arith

pub same_object_role_refl : (o : ObjectRole) → same_object_role o o ≡ true
same_object_role_refl o =
    let r : (o.role_definition_id == o.role_definition_id) ≡ true = ground arith in
    rw (r, same_number_refl o.content_type_id, text_eq_refl o.object_id) refl

same_object_refl : (o : Option ObjectRole) → same_object o o ≡ true
same_object_refl none = refl
same_object_refl (some o) = same_object_role_refl o

pub same_assignment_refl : (a : Assignment) → same_assignment a a ≡ true
unfolding same_assignment
same_assignment_refl a =
    let u : (a.actor == a.actor) ≡ true = ground arith in
    let r : (a.role_definition_id == a.role_definition_id) ≡ true = ground arith in
    rw (same_kind_refl a.kind, u, r, same_object_refl a.object_role) refl
