-- ===== src/Analyzer.antt =====
-- Zombie detection, services/shared/analyzer/detector.go: the records and `Detect`.
-- Times are not computed with here; they are natural numbers. Maps are association lists.
pub mod Rules
pub mod Summary
pub mod Flagged
mod Tests
use axiaops.Common.{
  if◌then◌else◌, ◌==◌, string_eq, nat_eq, ◌+◌, String, not, Option, none, some, List, [], ◌∷◌, ◌++◌,
  arith,
}
use axiaops.Common.Float.{Float}
use axiaops.Common.Dict.{Dict, lookup, insert}
use axiaops.Catalog.{CostRecord, ZombieResource, build_arn}
use axiaops.Analyzer.Rules.{Rule, service_rules, resource_type}

-- `UsageRecord`, less `PeriodDays`, which detection does not read.
pub record UsageRecord (F : Type 0) : Type 0 where
  pub resource_id : String
  pub metric : String
  pub unit : String
  pub avg : F

-- `owner`
unfoldable pub owner : Dict String String → String
unfolding lookup
owner tags = elim (lookup "team" tags) [
  | none ↦ "unknown"
  | some t ↦ if not (t == "") then t else "unknown"
]

module _ {F : Type 0} where
  -- The loop that indexes the usage records, from the map so far; a later record of a resource
  -- replaces an earlier one.
  unfoldable pub index_usage :
      Dict String (UsageRecord F) → List (UsageRecord F) → Dict String (UsageRecord F)
  unfolding insert
  index_usage index [] = index
  index_usage index (u ∷ us) = index_usage (insert u.resource_id u index) us

  -- The record that `Detect` appends.
  unfoldable pub zombie_of : String → CostRecord F → UsageRecord F → Rule → ZombieResource F
  unfolding owner build_arn resource_type
  zombie_of internal_account_id c u r = record {
    provider = c.provider;
    account_id = c.account_id;
    internal_account_id = internal_account_id;
    service = c.service;
    resource_type = resource_type c.service u.metric;
    region = c.region;
    resource_id = c.resource_id;
    arn = build_arn c.provider c.account_id c.region c.service c.resource_id;
    tags = c.tags;
    monthly_cost = c.amount;
    cost_basis = "";
    currency = c.currency;
    period_start = c.period_start;
    period_end = c.period_end;
    usage_metric = u.metric;
    usage_avg = u.avg;
    usage_unit = u.unit;
    reason = r.reason;
    owner = owner c.tags;
  }

module _ (fl : Float) where
  open fl use {F, of_nat, le}

  -- The two guards and the threshold test of `Detect`, on the rule and the usage record that the
  -- map reads give; `none` is `continue`.
  unfoldable pub judge :
      String → CostRecord F → Option Rule → Option (UsageRecord F) → Option (ZombieResource F)
  judge internal_account_id c none u = none
  judge internal_account_id c (some r) none = none
  judge internal_account_id c (some r) (some u) =
      if le u.avg (of_nat r.threshold) then some (zombie_of internal_account_id c u r) else none

  -- One round of the second loop of `Detect`.
  unfoldable pub flag :
      Dict String (UsageRecord F) → String → CostRecord F → Option (ZombieResource F)
  flag usage_by_id internal_account_id c =
      judge internal_account_id c (lookup c.service service_rules)
        (lookup c.resource_id usage_by_id)

  abbrev pub append_if :
      List (ZombieResource F) → Option (ZombieResource F) → List (ZombieResource F)
  append_if zombies none = zombies
  append_if zombies (some z) = zombies ++ z ∷ []

  unfoldable pub detect_from :
      Dict String (UsageRecord F)
      → String
      → List (ZombieResource F)
      → List (CostRecord F)
      → List (ZombieResource F)
  detect_from usage_by_id internal_account_id zombies [] = zombies
  detect_from usage_by_id internal_account_id zombies (c ∷ cs) =
      detect_from usage_by_id internal_account_id
        (append_if zombies (flag usage_by_id internal_account_id c)) cs

  -- `Detect`
  unfoldable pub detect :
      List (CostRecord F) → List (UsageRecord F) → String → List (ZombieResource F)
  detect costs usage internal_account_id =
      detect_from (index_usage [] usage) internal_account_id [] costs
