-- ===== src/Jit.antt =====
-- The role of a member provisioned at an SSO login, services/api/internal/sso/jit.go:
-- `JITResolveRole`. The user's groups are a list, as the set that the code builds has its members.
pub mod Highest
pub mod Joined
pub mod Provision
pub mod Reconciled
mod Tests
use axiaops.Common.{
  ltb, if◌then◌else◌, is_some, or_else, ◌==◌, contains, string_eq, nat_eq, ℕ, String, Bool, true,
  false, not, ◌||◌, List, [], ◌∷◌, arith,
}
use axiaops.Common.Dict.{Dict, lookup}

-- `SSOGroupMapping`, the fields that the resolution reads.
pub record Mapping : Type 0 where
  pub group_external_id : String
  pub role : String

-- `rolePriority`
abbrev pub role_priority : Dict String ℕ
role_priority = ("viewer", 1) ∷ ("member", 2) ∷ ("admin", 3) ∷ []

-- `rolePriority[role]`, 0 for a role that is absent.
unfoldable pub priority : String → ℕ
unfolding lookup
priority role = or_else (lookup role role_priority) 0

-- One round of the loop, on the best role and priority so far.
unfoldable pub better : List String → Mapping → String × ℕ → String × ℕ
unfolding priority lookup
better user_groups m (best_role, best_priority) =
    if not (contains user_groups m.group_external_id)
    then (best_role, best_priority)
    else if not (is_some (lookup m.role role_priority))
    then (best_role, best_priority)
    else if ltb best_priority (priority m.role)
    then (m.role, priority m.role)
    else (best_role, best_priority)

unfoldable pub best_from : List String → List Mapping → String × ℕ → String × ℕ
unfolding better
best_from user_groups [] best = best
best_from user_groups (m ∷ ms) best = best_from user_groups ms (better user_groups m best)

abbrev pub or_viewer : String → String
or_viewer role = if role == "" then "viewer" else role

abbrev is_nil {ℓ} : {A : Type ℓ} → List A → Bool
is_nil [] = true
is_nil (x ∷ xs) = false

-- `JITResolveRole`
unfoldable pub resolve_role : List Mapping → List String → String → String
unfolding best_from priority
resolve_role mappings user_groups default_role =
    let default = or_viewer default_role in
    if is_nil mappings || is_nil user_groups
    then default
    else (best_from user_groups mappings (default, priority default)).0
