-- ===== src/Sso/Tests.antt =====
-- Tests of the enforcement.
use axiaops.Common.{
  ◌==◌, contains, string_eq, nat_eq, String, ◌≡◌, refl, false, not, ◌&&◌, Option, some, List, [],
  ◌∷◌,
}
use axiaops.Sso.{Connection, org_sso_enforcement, Request, enforce_sso}
use axiaops.Sso.Enforced.{demanded_of, enforce_sso-demanded}

abbrev connections : String → Option (List Connection)
connections org = some (
    record { status = "active"; protocol = "oidc"; enforcement = "preferred" }
    ∷ record { status = "draft"; protocol = "oidc"; enforcement = "required" }
    ∷ record { status = "active"; protocol = "oidc"; enforcement = "required" }
    ∷ [])

abbrev request : Request
request = record { path = "/v1/zombies"; auth_mode = "password"; organization_id = "org" }

refused :
    enforce_sso (some (org_sso_enforcement connections)) ("/v1/auth/logout" ∷ []) request ≡ false
unfolding enforce_sso org_sso_enforcement string_eq
refused = refl

enforce_sso-demanded_example :
    enforce_sso (some (org_sso_enforcement connections)) ("/v1/auth/logout" ∷ []) request
    ≡ not (
        not (contains {A = String} ("/v1/auth/logout" ∷ []) "/v1/zombies")
        && (◌==◌ {A = String} "password" "password"
            && (not (◌==◌ {A = String} "org" "") && demanded_of (connections "org"))))
enforce_sso-demanded_example = enforce_sso-demanded connections ("/v1/auth/logout" ∷ []) request
