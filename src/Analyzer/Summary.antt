-- ===== src/Analyzer/Summary.antt =====
-- The aggregates of detector.go: `Summarize` and `SummarizeByAccount`.
pub mod Buckets
use axiaops.Common.{
  str_lt, if◌then◌else◌, is_some, or_else, length, ◌==◌, string_eq, nat_eq, ℕ, ◌+◌, String, ◌&&◌,
  ◌||◌, Option, none, some, List, [], ◌∷◌, ◌++◌, map, arith,
}
use axiaops.Common.Float.{Float}
use axiaops.Common.Dict.{Dict, lookup, insert}
use axiaops.Catalog.{ZombieResource}

pub record ServiceSummary (F : Type 0) : Type 0 where
  pub zombies : ℕ
  pub savings : F

pub record Summary (F : Type 0) : Type 0 where
  pub total_zombies : ℕ
  pub potential_monthly_save : F
  pub currency : String
  pub by_service : Dict String (ServiceSummary F)

pub record AccountSummary (F : Type 0) : Type 0 where
  pub internal_account_id : String
  pub account_id : String
  pub total_zombies : ℕ
  pub potential_monthly : F
  pub top_service : String

pub record ByAccountSummary (F : Type 0) : Type 0 where
  pub currency : String
  pub accounts : List (AccountSummary F)

-- `accountAgg`
pub record AccountAgg (F : Type 0) : Type 0 where
  pub account_id : String
  pub total_zombies : ℕ
  pub savings : F
  pub by_service : Dict String F

module _ (fl : Float) where
  open fl use {F, of_nat, half, add, mul, div, truncate, lt}

  -- `round2`
  unfoldable pub round2 : F → F
  round2 f = div (truncate (add (mul f (of_nat 100)) half)) (of_nat 100)

  -- `svc := s.ByService[z.Service]`, with the two fields advanced.
  abbrev pub bump : Option (ServiceSummary F) → F → ServiceSummary F
  bump none cost = record { zombies = 1; savings = add (of_nat 0) cost }
  bump (some s) cost = record { zombies = s.zombies + 1; savings = add s.savings cost }

  -- One round of the first loop of `Summarize`.
  unfoldable pub summarize_step : Summary F → ZombieResource F → Summary F
  summarize_step s z = record s {
    potential_monthly_save = add s.potential_monthly_save z.monthly_cost;
    currency = if s.currency == "" then z.currency else s.currency;
    by_service =
        insert z.service (bump (lookup z.service s.by_service) z.monthly_cost) s.by_service;
  }

  unfoldable pub summarize_from : Summary F → List (ZombieResource F) → Summary F
  summarize_from s [] = s
  summarize_from s (z ∷ zs) = summarize_from (summarize_step s z) zs

  -- The second loop of `Summarize`, which rounds each bucket in place.
  unfoldable pub round_all : Dict String (ServiceSummary F) → Dict String (ServiceSummary F)
  round_all [] = []
  round_all ((svc, summary) ∷ d) =
      (svc, record summary { savings = round2 summary.savings }) ∷ round_all d

  -- The summary that `Summarize` starts from.
  abbrev pub new_summary : ℕ → Summary F
  new_summary n = record {
    total_zombies = n;
    potential_monthly_save = of_nat 0;
    currency = "";
    by_service = [];
  }

  -- `Summarize`
  unfoldable pub summarize : List (ZombieResource F) → Summary F
  unfolding round2
  summarize zombies =
      let s = summarize_from (new_summary (length zombies)) zombies in
      record s {
        potential_monthly_save = round2 s.potential_monthly_save;
        by_service = round_all s.by_service;
      }

  -- One round of `topService`, on the best service and sum so far.
  unfoldable pub better : String × F → String × F → String × F
  better (top, max) (svc, savings) =
      if (top == "" || lt max savings) || (fl.eq savings max && str_lt svc top)
      then (svc, savings)
      else (top, max)

  unfoldable pub top_from : String × F → Dict String F → String × F
  top_from best [] = best
  top_from best (entry ∷ d) = top_from (better best entry) d

  -- `topService`, over the entries in the order in which the map is walked.
  unfoldable pub top_service : Dict String F → String
  top_service by_service = (top_from ("", of_nat 0) by_service).0

  -- `m[k] += v` on a map of floats.
  abbrev pub add_at : String → F → Dict String F → Dict String F
  add_at k v d = insert k (add (or_else (lookup k d) (of_nat 0)) v) d

  -- The state of the first loop of `SummarizeByAccount`.
  pub record Aggregates : Type 0 where
    pub out_currency : String
    pub order : List String
    pub aggs : Dict String (AccountAgg F)

  abbrev pub new_agg : AccountAgg F
  new_agg = record { account_id = ""; total_zombies = 0; savings = of_nat 0; by_service = [] }

  abbrev pub add_zombie : AccountAgg F → ZombieResource F → AccountAgg F
  add_zombie a z = record {
    account_id = if a.account_id == "" then z.account_id else a.account_id;
    total_zombies = a.total_zombies + 1;
    savings = add a.savings z.monthly_cost;
    by_service = add_at z.service z.monthly_cost a.by_service;
  }

  unfoldable pub aggregate_step : Aggregates → ZombieResource F → Aggregates
  aggregate_step st z = record {
    out_currency = if st.out_currency == "" then z.currency else st.out_currency;
    order =
        if is_some (lookup z.internal_account_id st.aggs)
        then st.order
        else st.order ++ z.internal_account_id ∷ [];
    aggs =
        insert z.internal_account_id
          (add_zombie (or_else (lookup z.internal_account_id st.aggs) new_agg) z) st.aggs;
  }

  unfoldable pub aggregate_from : Aggregates → List (ZombieResource F) → Aggregates
  aggregate_from st [] = st
  aggregate_from st (z ∷ zs) = aggregate_from (aggregate_step st z) zs

  -- The row of one account; every account in the order has an aggregate.
  unfoldable pub account_row : Dict String (AccountAgg F) → String → AccountSummary F
  account_row aggs id =
      let a = or_else (lookup id aggs) new_agg in
      record {
        internal_account_id = id;
        account_id = a.account_id;
        total_zombies = a.total_zombies;
        potential_monthly = round2 a.savings;
        top_service = top_service a.by_service;
      }

  abbrev pub no_aggregates : Aggregates
  no_aggregates = record { out_currency = ""; order = []; aggs = [] }

  -- `SummarizeByAccount`
  unfoldable pub summarize_by_account : List (ZombieResource F) → ByAccountSummary F
  summarize_by_account zombies =
      let st = aggregate_from no_aggregates zombies in
      record { currency = st.out_currency; accounts = map (account_row st.aggs) st.order }
