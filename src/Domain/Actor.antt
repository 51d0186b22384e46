-- ===== src/Domain/Actor.antt =====
-- internal/domain/actor.go: actor types are strings, of which 24 are known.
pub mod Laws
use elysium.Prelude.{Bool, ◌==◌, List, [], ◌∷◌, ◌++◌, Text, lit, mem_text}

-- The 16 types of `orgStaffTypes`, served by the organisation's routes.
abbrev pub org_staff_types : List Text
org_staff_types =
    lit "GENERAL_MANAGER"
    ∷ lit "FLEET_MANAGER"
    ∷ lit "OPERATIONS_MANAGER"
    ∷ lit "BRANCH_MANAGER"
    ∷ lit "SECRETARY"
    ∷ lit "ACCOUNTANT"
    ∷ lit "ACCOUNTS_CLERK"
    ∷ lit "AUDITOR"
    ∷ lit "COMPLIANCE_OFFICER"
    ∷ lit "ROUTE_SUPERVISOR"
    ∷ lit "DISPATCHER"
    ∷ lit "MECHANIC"
    ∷ lit "FIELD_ATTENDANT"
    ∷ lit "DATA_CLERK"
    ∷ lit "CUSTOMER_SUPPORT"
    ∷ lit "SALES_MANAGER"
    ∷ []

-- `IsOrgStaff(t)`: a key of the map `orgStaffTypes`.
unfoldable pub is_org_staff : Text → Bool
unfolding mem_text
is_org_staff t = mem_text t org_staff_types

-- The cases of the switch of `ActorType.IsValid`, in its order.
abbrev pub actor_types : List Text
actor_types =
    lit "SUPER_ADMIN"
    ∷ lit "ADMIN"
    ∷ lit "ORG_CHAIR"
    ∷ lit "GENERAL_MANAGER"
    ∷ lit "FLEET_MANAGER"
    ∷ lit "OPERATIONS_MANAGER"
    ∷ lit "BRANCH_MANAGER"
    ∷ lit "SECRETARY"
    ∷ lit "ACCOUNTANT"
    ∷ lit "ACCOUNTS_CLERK"
    ∷ lit "AUDITOR"
    ∷ lit "COMPLIANCE_OFFICER"
    ∷ lit "ROUTE_SUPERVISOR"
    ∷ lit "DISPATCHER"
    ∷ lit "MECHANIC"
    ∷ lit "FIELD_ATTENDANT"
    ∷ lit "DATA_CLERK"
    ∷ lit "CUSTOMER_SUPPORT"
    ∷ lit "SALES_MANAGER"
    ∷ lit "OPERATOR"
    ∷ lit "DRIVER"
    ∷ lit "CONDUCTOR"
    ∷ lit "PASSENGER"
    ∷ lit "GUEST"
    ∷ []

-- `ActorType.IsValid`.
unfoldable pub is_valid : Text → Bool
unfolding mem_text
is_valid t = mem_text t actor_types

-- `ContextActivationInput`.
pub record ContextActivationInput : Type 0 where
  pub user_id : Text
  pub nickname : Text
  pub email : Text
  pub actor_id : Text
  pub actor_type : Text
  pub permissions : List Text
  pub delegated_permissions : List Text
  pub policy_groups : List Text
