-- ===== src/Jit/Tests.antt =====
-- A user with two groups.
use axiaops.Common.{
  str_lt, compare-flip, str_lt_trans, str_lt_asym, str_lt_irrefl, str_lt_total, ltb, leb,
  if◌then◌else◌, Bool-cases, Option-cases, is_some, or_else, length, take, count_if, All,
  length-append, In, In-append_left, In-append_right, Eq, ◌==◌, contains, string_eq, nat_eq,
  str_contains, has_prefix, ℕ, zero, suc, ◌+◌, ◌-◌, ◌*◌, ◌/◌, ◌%◌, ◌^◌, ◌≤◌, ◌<◌, String, ◌<>◌, ◌≡◌,
  refl, sym, ap, ◌∙◌, ◌≢◌, ◌↔◌, ◌⊎◌, inl, inr, Bool, true, false, not, ◌&&◌, ◌||◌, Option, none,
  some, List, [], ◌∷◌, ◌++◌, map, arith,
}
use axiaops.Jit.{Mapping, priority, or_viewer, resolve_role}
use axiaops.Membership.{Rows, consistent, violates, clash, find}
use axiaops.Jit.Provision.{JitOutcome, provision}
use axiaops.Jit.Reconciled.{Reconciled, provision-Reconciled}
use axiaops.Jit.Highest.{top_priority, Mapped, resolve_role-highest}

abbrev mappings : List Mapping
mappings =
    record { group_external_id = "g1"; role = "member" }
    ∷ record { group_external_id = "g2"; role = "admin" }
    ∷ record { group_external_id = "g3"; role = "owner" }
    ∷ []

admin_wins : resolve_role mappings ("g3" ∷ "g2" ∷ "g1" ∷ []) "" ≡ "admin"
unfolding resolve_role string_eq
admin_wins = refl

resolve_role-highest_example :
    let r = resolve_role mappings ("g1" ∷ []) "admin" in
    (priority r ≡ top_priority ("g1" ∷ []) mappings (priority (or_viewer "admin")))
    × ((r ≡ or_viewer "admin")
        ⊎ (Mapped ("g1" ∷ []) mappings r × (priority (or_viewer "admin") < priority r)))
resolve_role-highest_example = resolve_role-highest mappings ("g1" ∷ []) "admin"

abbrev members : Rows
members =
    record {
      id = "m1";
      organization_id = "org";
      user_id = "ann";
      role = "owner";
      invited_by = "";
      provisioned_via = "manual";
    }
    ∷ record {
      id = "m2";
      organization_id = "org";
      user_id = "bob";
      role = "viewer";
      invited_by = "";
      provisioned_via = "jit";
    }
    ∷ []

provision-Reconciled_example :
    (out : JitOutcome) × (rows' : Rows) × (provision "org" "bob" "admin" "m3" members
      ≡ inr (out, rows'))
    × Reconciled "org" "bob" "admin" members rows'
unfolding consistent violates clash find string_eq axiaops.Common.Dict.lookup
provision-Reconciled_example =
    provision-Reconciled "org" "bob" "admin" "m3" members refl refl refl refl refl
