-- ===== src/Examples/Domain.antt =====
-- Tests of the domain, and its theorems applied.
use itsm_poc.Common.{◌≡◌, refl, [], ◌∷◌, some, none}
use itsm_poc.Domain.Roles.{RoleSet, role_set_of, technician, administrator, parse, canonical}
use itsm_poc.Domain.Work.{resolved, escalated, closed_declined}
use itsm_poc.Domain.Session.{terminal_states}

abbrev admin_and_tech : RoleSet
admin_and_tech = role_set_of (administrator ∷ technician ∷ [])

canonical_order : canonical admin_and_tech ≡ "administrator" ∷ "technician" ∷ []
unfolding canonical role_set_of
canonical_order = refl

parse_exact : (parse "technician" ≡ some technician) × (parse "Technician" ≡ none)
unfolding parse
parse_exact = (refl, refl)

terminal_states_listed : terminal_states ≡ resolved ∷ escalated ∷ closed_declined ∷ []
unfolding terminal_states
terminal_states_listed = refl
