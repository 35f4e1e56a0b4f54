-- ===== src/Server/Config.antt =====
-- The configuration (backend/internal/platform/config.go). A character stands for a
-- byte.
use Prim.Native.String.{len}
use restoreguard.Common.{
  ◌^◌, Bool, false, ◌||◌, Option, none, some, ◌⊎◌, inl, inr, String, str_eq, ltb, if◌then◌else◌,
}
use restoreguard.Common.Int.{ℤ, pos, ltb_ℤ}

pub record Config : Type 0 where
  pub environment : String
  pub http_addr : String
  pub database_url : String
  pub migration_path : String
  pub session_secret : String
  pub master_key : String
  pub object_storage_type : String
  pub local_storage_path : String
  pub s3_endpoint : String
  pub s3_bucket : String
  pub s3_access_key : String
  pub s3_secret_key : String
  pub allowed_postgres_image : String
  pub cors_origin : String
  pub s3_use_tls : Bool
  pub cookie_secure : Bool
  pub max_concurrent_drills : ℤ
  pub max_artifact_bytes : ℤ
  pub default_drill_timeout : ℤ
  pub bootstrap_email : String
  pub bootstrap_password : String

-- The environment, and the parsers of strconv, strings and time; none is an error.
pub record Environment : Type 0 where
  pub getenv : String → String
  pub parse_bool : String → Option Bool
  pub parse_int : String → Option ℤ
  pub parse_duration : String → Option ℤ
  pub trim : String → String
  pub lower : String → String

pub data ConfigError : Type 0 where
  bad_duration no_database_url short_session_secret bad_concurrency : ConfigError

module _ (e : Environment) where
  abbrev pub env : String → String → String
  env key default = if str_eq (e.getenv key) "" then default else e.getenv key

  abbrev value_or {ℓ} : {A : Type ℓ} → A → Option A → A
  value_or default none = default
  value_or default (some x) = x

  abbrev bool_env : String → Bool → Bool
  bool_env key default =
      if str_eq (e.getenv key) "" then default else value_or default (e.parse_bool (e.getenv key))

  abbrev int_env : String → ℤ → ℤ
  int_env key default = value_or default (e.parse_int (e.getenv key))

  -- The configuration before its checks.
  unfoldable pub config_with : ℤ → Config
  config_with timeout = record {
    environment = env "RESTOREGUARD_ENV" "development";
    http_addr = env "RESTOREGUARD_HTTP_ADDR" ":8080";
    database_url = e.getenv "RESTOREGUARD_DATABASE_URL";
    migration_path = env "RESTOREGUARD_MIGRATION_PATH" "../migrations";
    session_secret = e.getenv "RESTOREGUARD_SESSION_SECRET";
    master_key = e.getenv "RESTOREGUARD_MASTER_KEY";
    object_storage_type = env "RESTOREGUARD_OBJECT_STORAGE_TYPE" "local";
    local_storage_path = env "RESTOREGUARD_LOCAL_STORAGE_PATH" "../data/artifacts";
    s3_endpoint = e.getenv "RESTOREGUARD_S3_ENDPOINT";
    s3_bucket = env "RESTOREGUARD_S3_BUCKET" "restoreguard";
    s3_access_key = e.getenv "RESTOREGUARD_S3_ACCESS_KEY";
    s3_secret_key = e.getenv "RESTOREGUARD_S3_SECRET_KEY";
    allowed_postgres_image = env "RESTOREGUARD_ALLOWED_POSTGRES_IMAGE" "postgres:17.6-alpine";
    cors_origin = env "RESTOREGUARD_CORS_ORIGIN" "http://localhost:5173";
    s3_use_tls = bool_env "RESTOREGUARD_S3_USE_TLS" false;
    cookie_secure = bool_env "RESTOREGUARD_COOKIE_SECURE" false;
    max_concurrent_drills = int_env "RESTOREGUARD_MAX_CONCURRENT_DRILLS" (pos 2);
    max_artifact_bytes = int_env "RESTOREGUARD_MAX_ARTIFACT_BYTES" (pos (2 ^ 30));
    default_drill_timeout = timeout;
    bootstrap_email = e.lower (e.trim (e.getenv "RESTOREGUARD_BOOTSTRAP_ADMIN_EMAIL"));
    bootstrap_password = e.getenv "RESTOREGUARD_BOOTSTRAP_ADMIN_PASSWORD";
  }

abbrev pub bad_workers : Config → Bool
bad_workers c = ltb_ℤ c.max_concurrent_drills (pos 1) || ltb_ℤ (pos 20) c.max_concurrent_drills

unfoldable pub checked : Config → ConfigError ⊎ Config
checked c =
    if str_eq c.database_url ""
    then inl no_database_url
    else if ltb (len c.session_secret) 32
    then inl short_session_secret
    else if bad_workers c
    then inl bad_concurrency
    else inr c

abbrev pub config_of : Environment → Option ℤ → ConfigError ⊎ Config
config_of e none = inl bad_duration
config_of e (some timeout) = checked (config_with e timeout)

unfoldable pub load_config : Environment → ConfigError ⊎ Config
unfolding config_with checked
load_config e = config_of e (e.parse_duration (env e "RESTOREGUARD_DEFAULT_DRILL_TIMEOUT" "30m"))
