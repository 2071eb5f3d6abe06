-- ===== src/Catalog.antt =====
-- The data model of services/shared/model: known services (services.go), cost records and their
-- validation (cost.go), zombie resources and their ARN (zombie.go).
pub mod Services
use axiaops.Common.{
  ltb, leb, if◌then◌else◌, ◌==◌, contains, string_eq, nat_eq, has_prefix, ℕ, ◌-◌, ◌/◌, ◌<◌, String,
  ◌<>◌, ◌⊎◌, inl, inr, Bool, true, not, ◌&&◌, Option, none, some, List, [], ◌∷◌, arith,
}
use axiaops.Common.Float.{Float}
use Prim.Native.Char.{code}
use Prim.Native.String.{count}
use axiaops.Common.Dict.{Dict}
use axiaops.Catalog.Services.{is_known_service, aws_region_like, is_pseudo_region}

-- `CostRecord`; `float64` is the parameter `F`.
pub record CostRecord (F : Type 0) : Type 0 where
  pub provider : String
  pub account_id : String
  pub internal_account_id : Option String
  pub service : String
  pub region : String
  pub resource_id : String
  pub amount : F
  pub currency : String
  pub period_start : ℕ
  pub period_end : ℕ
  pub tags : Dict String String
  pub fetched_at : ℕ
  pub cost_basis : String

-- The field that a `ValidationError` names.
pub data Field : Type 0 where
  field_provider field_account_id field_service field_region field_amount : Field
  field_currency field_period_start field_period_end : Field

-- `validProviders`
abbrev pub valid_providers : List String
valid_providers = "aws" ∷ "gcp" ∷ "azure" ∷ []

-- `regionAcceptable`
unfoldable pub region_acceptable : String → String → Bool
unfolding aws_region_like is_pseudo_region
region_acceptable provider region =
    if not (provider == "aws")
    then true
    else if is_pseudo_region region
    then true
    else aws_region_like region

-- Whether every code point of a text is an uppercase ASCII letter.
abbrev pub all_upper : String → Bool
all_upper String.[] = true
all_upper (String.◌∷◌ c s) = (leb b'A' (code c) && leb (code c) b'Z') && all_upper s

-- `currencyRE`, the expression ^[A-Z]{3}$
unfoldable pub is_currency : String → Bool
is_currency s = count s == 3 && all_upper s

module _ (fl : Float) where
  open fl use {F, of_nat, lt}

  -- `CostRecord.Validate`, with the field of the error; `none` is nil. A zero time is 0.
  unfoldable pub validate : CostRecord F → Option Field
  unfolding region_acceptable is_known_service is_currency
  validate c =
      if not (contains valid_providers c.provider)
      then some field_provider
      else if c.account_id == ""
      then some field_account_id
      else if not (is_known_service c.service)
      then some field_service
      else if not (region_acceptable c.provider c.region)
      then some field_region
      else if lt c.amount (of_nat 0)
      then some field_amount
      else if not (is_currency c.currency)
      then some field_currency
      else if c.period_start == 0
      then some field_period_start
      else if c.period_end == 0
      then some field_period_end
      else if not (ltb c.period_start c.period_end)
      then some field_period_end
      else none

-- `ZombieResource`, less the fields that the API handler sets at read time.
pub record ZombieResource (F : Type 0) : Type 0 where
  pub provider : String
  pub account_id : String
  pub internal_account_id : String
  pub service : String
  pub resource_type : String
  pub region : String
  pub resource_id : String
  pub arn : String
  pub tags : Dict String String
  pub monthly_cost : F
  pub cost_basis : String
  pub currency : String
  pub period_start : ℕ
  pub period_end : ℕ
  pub usage_metric : String
  pub usage_avg : F
  pub usage_unit : String
  pub reason : String
  pub owner : String

-- The `switch` of `BuildARN`: the service part and the resource path, `inr` for a result that the
-- code returns at once.
unfoldable pub arn_parts : String → String → (String × String) ⊎ String
arn_parts service resource_id =
    if service == "AmazonEC2"
    then inl (
      "ec2",
      if has_prefix resource_id "i-"
          then "instance/" <> resource_id
          else if has_prefix resource_id "eipalloc-"
          then "elastic-ip/" <> resource_id
          else if has_prefix resource_id "vol-"
          then "volume/" <> resource_id
          else if has_prefix resource_id "snap-"
          then "snapshot/" <> resource_id
          else "",
    )
    else if service == "AmazonVPC"
    then inl (
      "ec2",
      if has_prefix resource_id "nat-"
          then "natgateway/" <> resource_id
          else if has_prefix resource_id "eipalloc-"
          then "elastic-ip/" <> resource_id
          else if has_prefix resource_id "vpc-"
          then "vpc/" <> resource_id
          else "",
    )
    else if service == "AmazonRDS"
    then inl ("rds", "db:" <> resource_id)
    else if service == "AWSLambda"
    then inl ("lambda", "function:" <> resource_id)
    else if service == "AmazonElasticLoadBalancing"
    then inl ("elasticloadbalancing", "loadbalancer/" <> resource_id)
    else if service == "AmazonS3"
    then inl ("s3", resource_id)
    else if service == "AmazonCloudFront"
    then inl ("cloudfront", "distribution/" <> resource_id)
    else if service == "AmazonDynamoDB"
    then inl ("dynamodb", "table/" <> resource_id)
    else if service == "AmazonElastiCache"
    then inl ("elasticache", "cluster:" <> resource_id)
    else if service == "AmazonRedshift"
    then inl ("redshift", "cluster:" <> resource_id)
    else if service == "AmazonSNS"
    then (if has_prefix resource_id "arn:" then inr resource_id else inl ("sns", resource_id))
    else if service == "AmazonSQS"
    then (if has_prefix resource_id "arn:" then inr resource_id else inl ("sqs", resource_id))
    else if service == "AmazonECS"
    then inl ("ecs", "cluster/" <> resource_id)
    else if service == "AmazonEKS"
    then inl ("eks", "cluster/" <> resource_id)
    else inr ""

-- The end of `BuildARN`.
abbrev pub format_arn : String → String → (String × String) ⊎ String → String
format_arn region account_id (inr done) = done
format_arn region account_id (inl (arn_service, resource_path)) =
    if resource_path == ""
    then ""
    else "arn:aws:" <> arn_service <> ":" <> region <> ":" <> account_id <> ":" <> resource_path

-- `BuildARN`
unfoldable pub build_arn : String → String → String → String → String → String
unfolding arn_parts
build_arn provider account_id region service resource_id =
    if not (provider == "aws")
    then ""
    else format_arn region account_id (arn_parts service resource_id)
