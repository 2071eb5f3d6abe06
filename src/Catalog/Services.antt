-- ===== src/Catalog/Services.antt =====
-- services/shared/model/services.go: the registered services and the shape of a region name.
use axiaops.Common.{
  ltb, leb, if◌then◌else◌, ◌==◌, contains, string_eq, nat_eq, ℕ, ◌+◌, String, Bool, false, ◌||◌,
  List, [], ◌∷◌,
}
use Prim.Native.Char.{code}
use Prim.Native.String.{len}

-- `KnownServices`
unfoldable pub known_services : List String
known_services =
    "AmazonEC2" ∷ "AmazonRDS" ∷ "AWSLambda" ∷ "AmazonElasticLoadBalancing" ∷ "AmazonVPC"
    ∷ "AmazonElastiCache" ∷ "AmazonES" ∷ "AmazonRedshift" ∷ "AmazonSageMaker" ∷ "AmazonDynamoDB"
    ∷ "AmazonEKS" ∷ "AmazonCloudFront" ∷ "AmazonECR" ∷ "AmazonKinesis" ∷ "AmazonS3"
    ∷ "AWSSecretsManager" ∷ "AmazonCloudWatch" ∷ "AWSCostExplorer" ∷ "AWSDataTransfer" ∷ "AWSGlue"
    ∷ "AmazonSNS" ∷ "AmazonSQS" ∷ "AWSKms" ∷ "AmazonGlacier" ∷ "AWSCloudFormation" ∷ "AmazonECS"
    ∷ "Tax" ∷ []

-- `IsKnownService`
unfoldable pub is_known_service : String → Bool
unfolding known_services
is_known_service s = contains known_services s

-- The last code point of a text, 0 for the empty one; the number of hyphens in it.
abbrev pub last_code : String → ℕ → ℕ
last_code String.[] last = last
last_code (String.◌∷◌ c s) last = last_code s (code c)

abbrev pub hyphens : String → ℕ
hyphens String.[] = 0
hyphens (String.◌∷◌ c s) = (if code c == b'-' then 1 else 0) + hyphens s

-- `AWSRegionLike`; `len` counts bytes. A last byte that is an ASCII digit is the last code point.
unfoldable pub aws_region_like : String → Bool
aws_region_like s =
    if ltb (len s) 5
    then false
    else (let last = last_code s 0 in
        if ltb last b'0' || ltb b'9' last then false else leb 2 (hyphens s))

-- `CEPseudoRegions`
unfoldable pub is_pseudo_region : String → Bool
is_pseudo_region region = contains ("" ∷ "global" ∷ "NoRegion" ∷ []) region
