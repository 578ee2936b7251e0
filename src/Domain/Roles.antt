-- ===== src/Domain/Roles.antt =====
-- Staff roles and the intersection of role sets: ragcore/src/ragcore/domain/roles.py.
pub mod Laws
use itsm_poc.Common.{
  Bool, true, false, not, ◌&&◌, ◌||◌, Option, none, some, List, [], ◌∷◌, String, str_eq, any,
  if◌then◌else◌,
}

pub data StaffRole : Type 0 where
  end_user technician senior_technician administrator no_role : StaffRole

unfoldable pub role_value : StaffRole → String
role_value end_user = "end_user"
role_value technician = "technician"
role_value senior_technician = "senior_technician"
role_value administrator = "administrator"
role_value no_role = "none"

-- The members in the order of declaration, which is the order of iteration.
abbrev pub staff_roles : List StaffRole
staff_roles = end_user ∷ technician ∷ senior_technician ∷ administrator ∷ no_role ∷ []

parse_in : List StaffRole → String → Option StaffRole
parse_in [] name = none
parse_in (role ∷ roles) name =
    if str_eq (role_value role) name then some role else parse_in roles name

unfoldable pub parse : String → Option StaffRole
unfolding parse_in role_value
parse name = parse_in staff_roles name

unfoldable pub same_role : StaffRole → StaffRole → Bool
same_role end_user end_user = true
same_role technician technician = true
same_role senior_technician senior_technician = true
same_role administrator administrator = true
same_role no_role no_role = true
same_role _ _ = false

-- A `frozenset` of roles, as the test for its members.
pub record RoleSet : Type 0 where
  pub roles : StaffRole → Bool

unfoldable pub empty_role_set : RoleSet
empty_role_set = record { roles = λ role. false }

unfoldable pub role_set_of : List StaffRole → RoleSet
unfolding same_role
role_set_of roles = record { roles = λ role. any (same_role role) roles }

unfoldable pub is_empty : RoleSet → Bool
is_empty s = not (any s.roles staff_roles)

unfoldable pub contains : RoleSet → StaffRole → Bool
contains s role = s.roles role

unfoldable pub intersects : RoleSet → RoleSet → Bool
intersects s other = any (λ role. s.roles role && other.roles role) staff_roles

-- The names of the five roles in ascending order.
abbrev sorted_roles : List StaffRole
sorted_roles = administrator ∷ end_user ∷ no_role ∷ senior_technician ∷ technician ∷ []

canonical_in : RoleSet → List StaffRole → List String
canonical_in s [] = []
canonical_in s (role ∷ rest) =
    let names = canonical_in s rest in if s.roles role then role_value role ∷ names else names

-- The rendered names, in order; the header joins them with commas.
unfoldable pub canonical : RoleSet → List String
unfolding canonical_in role_value
canonical s = canonical_in s sorted_roles

pub data DenialReason : Type 0 where
  empty_intersection operation_accepts_no_roles principal_holds_no_roles : DenialReason

pub record AuthorizationDecision : Type 0 where
  pub is_permitted : Bool
  pub roles_held_at_decision : RoleSet
  pub reason : Option DenialReason

unfoldable pub permit : RoleSet → AuthorizationDecision
permit held = record { is_permitted = true; roles_held_at_decision = held; reason = none }

unfoldable pub deny : RoleSet → DenialReason → AuthorizationDecision
deny held reason = record {
  is_permitted = false;
  roles_held_at_decision = held;
  reason = some reason;
}

unfoldable pub evaluate_roles : RoleSet → RoleSet → AuthorizationDecision
unfolding permit deny
evaluate_roles principal accepted =
    if is_empty accepted
    then deny principal operation_accepts_no_roles
    else if is_empty principal
    then deny principal principal_holds_no_roles
    else if intersects principal accepted
    then permit principal
    else deny principal empty_intersection
