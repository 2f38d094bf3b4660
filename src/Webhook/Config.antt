-- ===== src/Webhook/Config.antt =====
-- pkg/webhook/config.go: the configuration, its defaults, and what overrides it.
use Prim.Native.Char.{code}
use criu_migration_operator.Base.{
  ℕ, zero, suc, ◌+◌, ◌-◌, ◌*◌, ◌^◌, String, Bool, true, false, ◌&&◌, Option, none, some, Map,
  lookup, index, leb, ltb, ◌==◌, str_eq, if◌then◌else◌,
}
use criu_migration_operator.Base.Int.{ℤ, pos, negsuc}

pub record WebhookConfig : Type 0 where
  pub storage_type : String
  pub bucket : String
  pub region : String
  pub endpoint : String
  pub download_endpoint : String
  pub credentials_secret : String
  pub express_one_zone : Bool
  pub async_prefetch : Bool
  pub prefetch_workers : ℤ
  pub direct_upload : Bool
  pub log_upload : Bool
  pub strategy : String
  pub checkpoint_interval : String
  pub auto_adjust : Bool
  pub memory_threshold_mb : ℤ
  pub max_chain_depth : ℤ
  pub agent_image : String

-- DefaultWebhookConfig
abbrev pub default_webhook_config : WebhookConfig
default_webhook_config = record {
  storage_type = "s3";
  bucket = "checkpoints";
  region = "us-east-1";
  endpoint = "";
  download_endpoint = "";
  credentials_secret = "migration-credentials";
  express_one_zone = false;
  async_prefetch = false;
  prefetch_workers = pos 4;
  direct_upload = false;
  log_upload = false;
  strategy = "lazy-storage";
  checkpoint_interval = "30s";
  auto_adjust = false;
  memory_threshold_mb = pos 100;
  max_chain_depth = pos 10;
  agent_image = "";
}

-- The digits of strconv.Atoi, after `n`.
number_from : ℕ → String → Option ℕ
number_from n String.[] = some n
number_from n (String.◌∷◌ c r) =
    let rest = number_from (n * 10 + (code c - b'0')) r in
    if leb b'0' (code c) && leb (code c) b'9' then rest else none

number : String → Option ℕ
unfolding number_from
number String.[] = none
number (String.◌∷◌ c r) = number_from 0 (String.◌∷◌ c r)

upward : Option ℕ → Option ℤ
upward none = none
upward (some n) = if ltb n (2 ^ 63) then some (pos n) else none

downward : Option ℕ → Option ℤ
downward none = none
downward (some zero) = some (pos zero)
downward (some (suc n)) = if ltb n (2 ^ 63) then some (negsuc n) else none

-- strconv.Atoi; `none` is an error.
unfoldable pub atoi : String → Option ℤ
unfolding number upward downward
atoi String.[] = none
atoi (String.◌∷◌ c r) =
    if code c == b'-'
    then downward (number r)
    else if code c == b'+'
    then upward (number r)
    else upward (number (String.◌∷◌ c r))

lower : ℕ → ℕ
lower c = if leb b'A' c && leb c b'Z' then c + 32 else c

-- strings.EqualFold, with a text of which no letter has a fold outside of ASCII.
unfoldable pub equal_fold : String → String → Bool
unfolding lower
equal_fold String.[] String.[] = true
equal_fold String.[] (String.◌∷◌ d t) = false
equal_fold (String.◌∷◌ c s) String.[] = false
equal_fold (String.◌∷◌ c s) (String.◌∷◌ d t) = lower (code c) == lower (code d) && equal_fold s t

-- The value that a key of the ConfigMap sets.
abbrev pub set_text : Option String → String → String
set_text none old = old
set_text (some v) old = v

abbrev pub set_flag : Option String → Bool → Bool
set_flag none old = old
set_flag (some v) old = str_eq v "true"

abbrev number_or : Option ℤ → ℤ → ℤ
number_or none old = old
number_or (some n) old = n

abbrev set_number : Option String → ℤ → ℤ
set_number none old = old
set_number (some v) old = number_or (atoi v) old

abbrev set_image : Option String → String → String
set_image none old = old
set_image (some v) old = if str_eq v "" then old else v

-- LoadConfigFromNamedConfigMap, on the data of the map that it has read.
unfoldable pub load_config : Map → WebhookConfig
load_config d =
    let c = default_webhook_config in
    record {
      storage_type = set_text (lookup "storageType" d) c.storage_type;
      bucket = set_text (lookup "bucket" d) c.bucket;
      region = set_text (lookup "region" d) c.region;
      endpoint = set_text (lookup "endpoint" d) c.endpoint;
      download_endpoint = set_text (lookup "downloadEndpoint" d) c.download_endpoint;
      credentials_secret = set_text (lookup "credentialsSecret" d) c.credentials_secret;
      express_one_zone = set_flag (lookup "expressOneZone" d) c.express_one_zone;
      async_prefetch = set_flag (lookup "asyncPrefetch" d) c.async_prefetch;
      prefetch_workers = set_number (lookup "prefetchWorkers" d) c.prefetch_workers;
      direct_upload = set_flag (lookup "directUpload" d) c.direct_upload;
      log_upload = set_flag (lookup "logUpload" d) c.log_upload;
      strategy = set_text (lookup "strategy" d) c.strategy;
      checkpoint_interval = set_text (lookup "checkpointInterval" d) c.checkpoint_interval;
      auto_adjust = set_flag (lookup "autoAdjust" d) c.auto_adjust;
      memory_threshold_mb = set_number (lookup "memoryThresholdMB" d) c.memory_threshold_mb;
      max_chain_depth = set_number (lookup "maxChainDepth" d) c.max_chain_depth;
      agent_image = set_image (lookup "agentImage" d) c.agent_image;
    }

-- What an annotation that is not empty sets.
unfoldable pub override : String → String → String
override v old = if str_eq v "" then old else v

unfoldable pub override_flag : String → Bool → Bool
override_flag v old = if str_eq v "" then old else equal_fold v "true"

unfoldable pub override_number : String → ℤ → ℤ
override_number v old = if str_eq v "" then old else number_or (atoi v) old

-- MergeAnnotations
unfoldable pub merge_annotations : Map → WebhookConfig → WebhookConfig
unfolding override override_flag override_number
merge_annotations a c = record c {
  bucket = override (index a "migration.io/bucket") c.bucket;
  region = override (index a "migration.io/region") c.region;
  endpoint = override (index a "migration.io/endpoint") c.endpoint;
  download_endpoint = override (index a "migration.io/download-endpoint") c.download_endpoint;
  storage_type = override (index a "migration.io/storage-type") c.storage_type;
  credentials_secret = override (index a "migration.io/credentials-secret") c.credentials_secret;
  strategy = override (index a "migration.io/strategy") c.strategy;
  checkpoint_interval = override (index a "migration.io/checkpoint-interval") c.checkpoint_interval;
  direct_upload = override_flag (index a "migration.io/direct-upload") c.direct_upload;
  async_prefetch = override_flag (index a "migration.io/async-prefetch") c.async_prefetch;
  log_upload = override_flag (index a "migration.io/log-upload") c.log_upload;
  express_one_zone = override_flag (index a "migration.io/express-one-zone") c.express_one_zone;
  prefetch_workers = override_number (index a "migration.io/prefetch-workers") c.prefetch_workers;
  agent_image = override (index a "migration.io/agent-image") c.agent_image;
}
