-- ===== src/Domain/Roles/Laws.antt =====
-- Role evaluation is set intersection, and the canonical rendering keeps every role.
use itsm_poc.Common.{
  Bool, true, false, ◌≡◌, refl, sym, ap, ◌∙◌, List, [], ◌∷◌, String, str_eq, str_eq_iff,
  if◌then◌else◌, ◌↔◌, ◌⊎◌, inl, inr, Option, some, ◌&&◌, ◌||◌, arith, Bool-cases,
}
use itsm_poc.Domain.Roles.{
  StaffRole, end_user, technician, senior_technician, administrator, no_role, RoleSet, is_empty,
  intersects, contains, evaluate_roles, role_value, parse, parse_in, staff_roles,
}

parses : (role : StaffRole) → parse (role_value role) ≡ some role
unfolding parse
parses end_user = refl
parses technician = refl
parses senior_technician = refl
parses administrator = refl
parses no_role = refl

some-role : {a b : StaffRole} → ◌≡◌ {A = Option StaffRole} (some a) (some b) → a ≡ b
some-role h = cc

parse_in_exact :
    (candidates : List StaffRole) (name : String) (role : StaffRole)
    → parse_in candidates name ≡ some role
    → role_value role ≡ name
unfolding parse_in
parse_in_exact [] name role h = cc
parse_in_exact (r ∷ rest) name role h = elim (Bool-cases (str_eq (role_value r) name)) [
  | inl same ↦
      let found : r ≡ role = some-role (rw (same, if◌then◌else◌) at h) in
      sym (ap role_value found) ∙ (str_eq_iff _ _).0 same
  | inr other ↦ parse_in_exact rest name role (rw (other, if◌then◌else◌) at h)
]

-- A name parses to a role exactly when it is the role's canonical name, character by character.
pub parse-role_value :
    (name : String) (role : StaffRole) → (parse name ≡ some role) ↔ (name ≡ role_value role)
parse-role_value name role =
    (λ h. sym (parse_in_exact staff_roles name role (unfold parse in h)), λ e. rw e (parses role))

-- Both sets hold the role.
abbrev pub Shares : RoleSet → RoleSet → StaffRole → Type 0
Shares s other role = (contains s role ≡ true) × (contains other role ≡ true)

intersects_of_Shares :
    (s other : RoleSet) (role : StaffRole) → Shares s other role → intersects s other ≡ true
unfolding intersects contains
intersects_of_Shares s other end_user h = ground arith
intersects_of_Shares s other technician h = ground arith
intersects_of_Shares s other senior_technician h = ground arith
intersects_of_Shares s other administrator h = ground arith
intersects_of_Shares s other no_role h = ground arith

&&-true : (a b : Bool) → (a && b) ≡ true → (a ≡ true) × (b ≡ true)
&&-true a b h = ground arith

||-true : (a b : Bool) → (a || b) ≡ true → (a ≡ true) ⊎ (b ≡ true)
||-true a b h = ground arith

Shares-of_intersects :
    (s other : RoleSet) → intersects s other ≡ true → (role : StaffRole) × Shares s other role
unfolding intersects contains
Shares-of_intersects s other h = elim (||-true _ _ h) [
  | inl e ↦ (end_user, &&-true _ _ e)
  | inr h ↦ elim (||-true _ _ h) [
    | inl e ↦ (technician, &&-true _ _ e)
    | inr h ↦ elim (||-true _ _ h) [
      | inl e ↦ (senior_technician, &&-true _ _ e)
      | inr h ↦ elim (||-true _ _ h) [
        | inl e ↦ (administrator, &&-true _ _ e)
        | inr h ↦ elim (||-true _ _ h) [ inl e ↦ (no_role, &&-true _ _ e) | inr h ↦ cc ]
      ]
    ]
  ]
]

not-is_empty : (s : RoleSet) (role : StaffRole) → contains s role ≡ true → is_empty s ≡ false
unfolding is_empty contains
not-is_empty s end_user h = ground arith
not-is_empty s technician h = ground arith
not-is_empty s senior_technician h = ground arith
not-is_empty s administrator h = ground arith
not-is_empty s no_role h = ground arith

permitted_of_Shares :
    (s accepted : RoleSet) (role : StaffRole)
    → Shares s accepted role
    → (evaluate_roles s accepted).is_permitted ≡ true
unfolding evaluate_roles
permitted_of_Shares s accepted role h = rw (
  not-is_empty accepted role h.1,
  not-is_empty s role h.0,
  intersects_of_Shares s accepted role h,
)

permitted→intersects :
    (s accepted : RoleSet)
    → (evaluate_roles s accepted).is_permitted ≡ true
    → intersects s accepted ≡ true
unfolding evaluate_roles
permitted→intersects s accepted h = ground arith

-- A staff operation is permitted exactly when the principal holds a role that the operation
-- accepts; whether it is permitted or not, the decision carries the roles that were held.
pub evaluate_roles_iff :
    (principal accepted : RoleSet)
    → ((evaluate_roles principal accepted).is_permitted ≡ true
        → (role : StaffRole) × Shares principal accepted role)
      × ((role : StaffRole)
          → Shares principal accepted role
          → (evaluate_roles principal accepted).is_permitted ≡ true)
      × ((evaluate_roles principal accepted).roles_held_at_decision ≡ principal)
unfolding evaluate_roles
evaluate_roles_iff principal accepted = (
  λ h. Shares-of_intersects principal accepted (permitted→intersects principal accepted h),
  permitted_of_Shares principal accepted,
  ground arith,
)
