-- ===== src/Analyzer/Rules.antt =====
-- services/shared/analyzer/rules.go: the rule of each service, and the sub-type of a resource.
use axiaops.Common.{or_else, string_eq, nat_eq, ℕ, String, [], ◌∷◌}
use axiaops.Common.Dict.{Dict, lookup}

-- `rule`. Every threshold of the table is a whole number, kept as such; `Detect` converts it.
pub record Rule : Type 0 where
  pub metric : String
  pub threshold : ℕ
  pub unit : String
  pub reason : String

-- `serviceRules`
unfoldable pub service_rules : Dict String Rule
service_rules =
    (
      "AmazonEC2",
      record {
        metric = "CPUUtilization";
        threshold = 5;
        unit = "Percent";
        reason = "EC2 instance CPU utilization below 5% — likely idle";
      },
    )
    ∷ (
      "AmazonRDS",
      record {
        metric = "DatabaseConnections";
        threshold = 0;
        unit = "Count";
        reason = "RDS instance has zero database connections — likely abandoned";
      },
    )
    ∷ (
      "AWSLambda",
      record {
        metric = "Invocations";
        threshold = 0;
        unit = "Count";
        reason = "Lambda function has zero invocations — likely unused";
      },
    )
    ∷ (
      "AmazonElasticLoadBalancing",
      record {
        metric = "RequestCount";
        threshold = 0;
        unit = "Count";
        reason = "Load balancer has zero requests — likely abandoned";
      },
    )
    ∷ (
      "AmazonVPC",
      record {
        metric = "BytesOutToDestination";
        threshold = 0;
        unit = "Bytes";
        reason = "NAT Gateway has zero outbound bytes — likely unused";
      },
    )
    ∷ (
      "AmazonElastiCache",
      record {
        metric = "CurrConnections";
        threshold = 0;
        unit = "Count";
        reason = "ElastiCache cluster has zero connections — likely idle";
      },
    )
    ∷ (
      "AmazonES",
      record {
        metric = "SearchRate";
        threshold = 0;
        unit = "Count";
        reason = "OpenSearch/Elasticsearch cluster has zero search rate — likely unused";
      },
    )
    ∷ (
      "AmazonRedshift",
      record {
        metric = "DatabaseConnections";
        threshold = 0;
        unit = "Count";
        reason = "Redshift cluster has zero database connections — likely abandoned";
      },
    )
    ∷ (
      "AmazonSageMaker",
      record {
        metric = "Invocations";
        threshold = 0;
        unit = "Count";
        reason = "SageMaker endpoint has zero invocations — likely forgotten";
      },
    )
    ∷ (
      "AmazonDynamoDB",
      record {
        metric = "ConsumedReadCapacityUnits";
        threshold = 0;
        unit = "Count";
        reason =
            "DynamoDB table (provisioned mode) has zero read capacity consumed — likely unused";
      },
    )
    ∷ (
      "AmazonEKS",
      record {
        metric = "cluster_node_count";
        threshold = 0;
        unit = "Count";
        reason = "EKS cluster has zero nodes — control plane ($73/mo) billing with no workload";
      },
    )
    ∷ (
      "AmazonECS",
      record {
        metric = "CPUUtilization";
        threshold = 2;
        unit = "Percent";
        reason = "ECS service CPU utilization below 2% — likely idle";
      },
    )
    ∷ (
      "AmazonDocDB",
      record {
        metric = "DatabaseConnections";
        threshold = 0;
        unit = "Count";
        reason = "DocumentDB cluster has zero active database connections — likely unused";
      },
    )
    ∷ (
      "AmazonMSK",
      record {
        metric = "MessagesInPerSec";
        threshold = 0;
        unit = "Count";
        reason = "MSK cluster has zero incoming messages — likely idle";
      },
    )
    ∷ (
      "AmazonBedrock",
      record {
        metric = "Invocations";
        threshold = 0;
        unit = "Count";
        reason =
            "Bedrock provisioned throughput model has zero invocations — likely unused; billed continuously regardless of usage";
      },
    )
    ∷ (
      "AmazonKendra",
      record {
        metric = "SearchQueryCount";
        threshold = 0;
        unit = "Count";
        reason =
            "Kendra AI search index has zero search queries — likely abandoned; billed hourly regardless of usage";
      },
    )
    ∷ []

-- A `switch` on a string, with the value of its default.
abbrev pub switch {ℓ} : {A : Type ℓ} → String → Dict String A → A → A
switch s cases default = or_else (lookup s cases) default

-- The metrics of each service and the sub-type that each stands for.
unfoldable pub resource_types : Dict String (Dict String String)
resource_types =
    (
      "AmazonEC2",
      ("VolumeState", "volume")
          ∷ ("SourceVolumeExists", "snapshot")
          ∷ ("DaysStopped", "stopped_instance")
          ∷ ("DaysSinceCreation", "ami")
          ∷ ("CPUUtilization", "instance")
          ∷ [],
    )
    ∷ (
      "AmazonVPC",
      ("NetworkInterfaceAttachment", "eip") ∷ ("BytesOutToDestination", "nat_gateway") ∷ [],
    )
    ∷ ("AmazonRDS", ("SourceDBExists", "db_snapshot") ∷ ("DatabaseConnections", "db_instance") ∷ [])
    ∷ ("AmazonCloudWatch", ("RetentionDays", "log_group") ∷ [])
    ∷ ("AmazonECR", ("StaleImageCount", "ecr_image") ∷ [])
    ∷ ("AmazonCloudFront", ("Requests", "distribution") ∷ [])
    ∷ ("AWSSecretsManager", ("DaysSinceAccess", "secret") ∷ [])
    ∷ ("AmazonS3", ("AllRequests", "bucket") ∷ ("MultipartUploads", "s3_multipart") ∷ [])
    ∷ ("AmazonKinesis", ("IncomingRecords", "stream") ∷ [])
    ∷ ("AWSLambda", ("Invocations", "function") ∷ [])
    ∷ ("AmazonElasticLoadBalancing", ("RequestCount", "load_balancer") ∷ [])
    ∷ ("AmazonElastiCache", ("CurrConnections", "node") ∷ [])
    ∷ ("AmazonES", ("SearchRate", "domain") ∷ [])
    ∷ ("AmazonRedshift", ("DatabaseConnections", "cluster") ∷ [])
    ∷ ("AmazonSageMaker", ("Invocations", "endpoint") ∷ [])
    ∷ ("AmazonDynamoDB", ("ConsumedReadCapacityUnits", "table") ∷ [])
    ∷ ("AmazonEKS", ("cluster_node_count", "cluster") ∷ [])
    ∷ ("AmazonECS", ("CPUUtilization", "ecs_service") ∷ [])
    ∷ ("AmazonDocDB", ("DatabaseConnections", "docdb_cluster") ∷ [])
    ∷ ("AmazonMSK", ("MessagesInPerSec", "msk_cluster") ∷ [])
    ∷ ("AmazonRoute53", ("QueryCount", "route53_zone") ∷ [])
    ∷ ("AmazonBedrock", ("Invocations", "bedrock_throughput") ∷ [])
    ∷ ("AmazonKendra", ("SearchQueryCount", "kendra_index") ∷ [])
    ∷ []

-- `ResourceType`
unfoldable pub resource_type : String → String → String
unfolding resource_types lookup
resource_type service usage_metric = switch usage_metric (switch service resource_types []) ""
