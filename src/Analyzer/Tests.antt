-- ===== src/Analyzer/Tests.antt =====
-- Detection and summary of a small account. The floats are numbers of cents here.
use axiaops.Common.{
  false, ltb, leb, length, In, ◌==◌, string_eq, nat_eq, ℕ, ◌+◌, ◌*◌, ◌/◌, String, ◌≡◌, refl, ◌↔◌,
  none, List, [], ◌∷◌, map,
}
use axiaops.Common.Float.{Float}
use axiaops.Common.Dict.{lookup}
use axiaops.Catalog.{CostRecord, ZombieResource}
use axiaops.Catalog.Services.{is_known_service}
use axiaops.Analyzer.Rules.{Rule, service_rules}
use axiaops.Analyzer.{UsageRecord, index_usage, zombie_of, judge, flag, detect_from, detect, some}
use axiaops.Analyzer.Flagged.{Flagged, detect_iff}
use axiaops.Analyzer.Summary.{round2, summarize}
use axiaops.Analyzer.Summary.Buckets.{
  count_of, sum_of, bucket, lookup-summarize, total_of, total_of-summarize,
}

abbrev cents : Float
cents = record {
  F = ℕ;
  of_nat = λ n. n * 100;
  half = 50;
  add = λ a b. a + b;
  mul = λ a b. a * b / 100;
  div = λ a b. a * 100 / b;
  truncate = λ a. a / 100 * 100;
  le = leb;
  lt = ltb;
  eq = λ a b. a == b;
}

abbrev cost : String → String → ℕ → CostRecord ℕ
cost service resource_id amount = record {
  provider = "aws";
  account_id = "123456789012";
  internal_account_id = none;
  service = service;
  region = "eu-central-1";
  resource_id = resource_id;
  amount = amount;
  currency = "USD";
  period_start = 100;
  period_end = 200;
  tags = ("team", "data") ∷ [];
  fetched_at = 300;
  cost_basis = "billed";
}

abbrev usage : String → ℕ → UsageRecord ℕ
usage resource_id avg = record {
  resource_id = resource_id;
  metric = "CPUUtilization";
  unit = "Percent";
  avg = avg;
}

-- The second instance is idle by its last record, the third is at the threshold, the fourth busy.
abbrev costs : List (CostRecord ℕ)
costs =
    cost "AWSGlue" "job" 900
    ∷ cost "AmazonEC2" "i-2" 7000
    ∷ cost "AmazonEC2" "i-3" 5000
    ∷ cost "AmazonEC2" "i-4" 8000
    ∷ []

abbrev usages : List (UsageRecord ℕ)
usages = usage "i-2" 9000 ∷ usage "i-3" 500 ∷ usage "i-4" 501 ∷ usage "i-2" 120 ∷ []

abbrev ec2_rule : Rule
ec2_rule = record {
  metric = "CPUUtilization";
  threshold = 5;
  unit = "Percent";
  reason = "EC2 instance CPU utilization below 5% — likely idle";
}

detect_ids : map (λ z. z.resource_id) (detect cents costs usages "acc-1") ≡ "i-2" ∷ "i-3" ∷ []
unfolding detect string_eq detect_from flag judge lookup service_rules index_usage zombie_of
detect_ids = refl

detect_iff_example :
    In
      (zombie_of "acc-1" (cost "AmazonEC2" "i-2" 7000) (usage "i-2" 120) ec2_rule)
      (detect cents costs usages "acc-1")
    ↔ ((c : CostRecord ℕ) × In c costs
        × Flagged cents usages "acc-1" c
            (zombie_of "acc-1" (cost "AmazonEC2" "i-2" 7000) (usage "i-2" 120) ec2_rule))
detect_iff_example =
    detect_iff cents costs usages "acc-1"
      (zombie_of "acc-1" (cost "AmazonEC2" "i-2" 7000) (usage "i-2" 120) ec2_rule)

abbrev zombies : List (ZombieResource ℕ)
zombies = detect cents costs usages "acc-1"

lookup-summarize_example :
    lookup "AmazonEC2" (summarize cents zombies).by_service
    ≡ bucket cents
        (count_of "AmazonEC2" zombies)
        (round2 cents (sum_of cents 0 "AmazonEC2" zombies))
lookup-summarize_example = lookup-summarize cents "AmazonEC2" zombies

total_of-summarize_example :
    (total_of cents (summarize cents zombies).by_service ≡ length zombies)
    × ((summarize cents zombies).total_zombies ≡ length zombies)
total_of-summarize_example = total_of-summarize cents zombies

abbrev docdb : Rule
docdb = record {
  metric = "DatabaseConnections";
  threshold = 0;
  unit = "Count";
  reason = "DocumentDB cluster has zero active database connections — likely unused";
}

docdb_rule : lookup "AmazonDocDB" service_rules ≡ some docdb
unfolding service_rules lookup string_eq
docdb_rule = refl

-- It has a rule, and is not registered.
docdb_unregistered : is_known_service "AmazonDocDB" ≡ false
unfolding is_known_service string_eq
docdb_unregistered = refl
