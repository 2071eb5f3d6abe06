-- ===== src/Sso/Enforced.antt =====
-- Which requests the enforcement refuses.
use axiaops.Common.{
  Option-cases, ◌==◌, contains, string_eq, nat_eq, ◌≤◌, String, ◌≡◌, refl, inl, inr, Bool, false,
  not, ◌&&◌, ◌||◌, Option, none, some, List, [], ◌∷◌, arith,
}
use axiaops.Sso.{
  Connection, enforcement_rank, contributes, highest_from, org_sso_enforcement, Request,
  enforce_sso, highest_of,
}

-- A connection that asks for single sign-on and is in force.
abbrev pub demands : Connection → Bool
demands c = contributes c && c.enforcement == "required"

pub demanded : List Connection → Bool
demanded [] = false
demanded (c ∷ conns) = demands c || demanded conns

abbrev pub demanded_of : Option (List Connection) → Bool
demanded_of none = false
demanded_of (some conns) = demanded conns

rank-top :
    (level : String)
    → (enforcement_rank level ≤ 3) × ((enforcement_rank level == 3) ≡ (level == "required"))
unfolding enforcement_rank
rank-top level = (ground arith, ground arith)

highest_from-required :
    (conns : List Connection) (highest : String)
    → (highest_from conns highest == "required") ≡ (highest == "required" || demanded conns)
unfolding highest_from demanded
highest_from-required [] highest = ground arith
highest_from-required (c ∷ conns) highest = ground (
  arith,
  highest_from-required conns highest,
  highest_from-required conns c.enforcement,
  rank-top highest,
  rank-top c.enforcement,
)

no_level : ◌==◌ {A = String} "" "required" ≡ false
unfolding string_eq
no_level = refl

-- A request is refused exactly when its path is none of those left out, its session is by
-- password, it names an organization, the read of the organization's connections works, and one of
-- them is active, of the OIDC protocol, and requires single sign-on; whatever levels the other
-- connections have, and in any order.
pub enforce_sso-demanded :
    (list_sso_connections : String → Option (List Connection)) (skip_paths : List String)
    (r : Request)
    → enforce_sso (some (org_sso_enforcement list_sso_connections)) skip_paths r
      ≡ not (
          not (contains skip_paths r.path)
          && (r.auth_mode == "password"
              && (not (r.organization_id == "")
                  && demanded_of (list_sso_connections r.organization_id))))
unfolding enforce_sso org_sso_enforcement highest_of
enforce_sso-demanded list_sso_connections skip_paths r =
    elim (Option-cases (list_sso_connections r.organization_id)) [
      | inl e ↦ ground (arith, e)
      | inr (conns, e) ↦ ground (arith, e, highest_from-required conns "", no_level)
    ]
