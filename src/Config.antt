-- ===== src/Config.antt =====
-- internal/config/config.go: the configuration, from the environment and from Vault. The environment
-- is the function `env`, os.Getenv; `time.ParseDuration` and `strconv.ParseFloat` are parameters.
pub mod Laws
use elysium.Prelude.{
  ℕ, String, Bool, true, false, ◌||◌, Option, none, some, List, [], ◌∷◌, Text, lit, ◌==◌, is_empty,
  if◌then◌else◌,
}
use elysium.Errors.{Result, ok, err}
use elysium.World.{Action, ◌>>=◌, return, wrapped}
use elysium.Domain.User.{ℤ}
use elysium.Vault.{Vault}
use elysium.Vault.Secrets.{
  SecretManager, AuthSecrets, DatabaseSecrets, atoi, parsed, checked, read_auth_secrets,
  read_database_secrets,
}

-- `ServerConfig`; `Float` is the type float64.
pub record ServerConfig (Float : Type 0) : Type 0 where
  pub http_addr : Text
  pub grpc_addr : Text
  pub shutdown_timeout : ℤ
  pub log_level : Text
  pub env : Text
  pub rate_limit_rps : Float
  pub rate_limit_burst : ℤ

pub record AuthConfig : Type 0 where
  pub issuer : Text
  pub bcrypt_cost : ℤ
  pub access_token_ttl : ℤ
  pub refresh_token_ttl : ℤ
  pub signing_key : Text
  pub use_transit : Bool
  pub transit_key_name : Text
  pub transit_mount : Text

pub record DatabaseConfig : Type 0 where
  pub dgraph_target : Text
  pub tls_enabled : Bool
  pub dgraph_apply_schema : Bool

pub record VaultConfig : Type 0 where
  pub address : Text
  pub role_id : Text
  pub secret_id : Text
  pub namespace : Text
  pub kv_mount : Text
  pub kv_prefix : Text

-- `Config`, whose field `Vault` is never set.
pub record Config (Float : Type 0) : Type 0 where
  pub server : ServerConfig Float
  pub auth : AuthConfig
  pub database : DatabaseConfig

-- `strconv.ParseBool`.
unfoldable pub parse_bool : Text → Option Bool
parse_bool t =
    if t == lit "1"
      || t == lit "t"
      || t == lit "T"
      || t == lit "TRUE"
      || t == lit "true"
      || t == lit "True"
    then some true
    else if t == lit "0"
        || t == lit "f"
        || t == lit "F"
        || t == lit "FALSE"
        || t == lit "false"
        || t == lit "False"
    then some false
    else none

module _ (env : String → Text) where
  unfoldable pub env_str : String → Text → Text
  env_str key fallback = if is_empty (env key) then fallback else env key

  unfoldable pub env_bool : String → Bool → Bool
  unfolding parse_bool
  env_bool key fallback =
      if is_empty (env key)
      then fallback
      else elim (parse_bool (env key)) [ none ↦ fallback | some b ↦ b ]

  unfoldable pub vault_config_from_env : VaultConfig
  unfolding env_str
  vault_config_from_env = record {
    address = env_str "VAULT_ADDR" (lit "http://127.0.0.1:8200");
    role_id = env "VAULT_ROLE_ID";
    secret_id = env "VAULT_SECRET_ID";
    namespace = env "VAULT_NAMESPACE";
    kv_mount = env_str "VAULT_KV_MOUNT" (lit "secret");
    kv_prefix = env_str "VAULT_KV_PREFIX" (lit "auth-service");
  }

  -- The configuration that `Load` puts together.
  unfoldable pub merged :
      {Float : Type 0} → AuthSecrets → DatabaseSecrets → Float → ℤ → ℤ → Config Float
  unfolding env_str env_bool
  merged secrets db rps burst timeout = record {
    server = record {
      http_addr = env_str "AUTH_HTTP_ADDR" (lit ":8980");
      grpc_addr = env_str "AUTH_GRPC_ADDR" (lit ":9990");
      shutdown_timeout = timeout;
      log_level = env_str "AUTH_LOG_LEVEL" (lit "info");
      env = env_str "AUTH_ENV" (lit "production");
      rate_limit_rps = rps;
      rate_limit_burst = burst;
    };
    auth = record {
      issuer = env_str "AUTH_ISSUER" (lit "auth-service");
      bcrypt_cost = secrets.bcrypt_cost;
      access_token_ttl = secrets.access_token_ttl;
      refresh_token_ttl = secrets.refresh_token_ttl;
      signing_key = secrets.jwt_signing_key;
      use_transit = env_bool "AUTH_USE_TRANSIT" true;
      transit_key_name = env_str "AUTH_TRANSIT_KEY" (lit "auth-service-jwt");
      transit_mount = env_str "AUTH_TRANSIT_MOUNT" (lit "transit");
    };
    database = record {
      dgraph_target = db.dgraph_target;
      tls_enabled = db.tls_enabled;
      dgraph_apply_schema = env_bool "DGRAPH_APPLY_SCHEMA" true;
    };
  }

  module _ {Db Float : Type 0} (vault : Vault Db) (parse_duration : Text → Option ℤ)
      (parse_float : Text → Option Float) (sm : SecretManager) where
    unfoldable pub load : Action Db (Config Float)
    load = do
      secrets ← wrapped "config: load auth secrets" (read_auth_secrets vault parse_duration sm)
      db ← wrapped "config: load database secrets" (read_database_secrets vault parse_duration sm)
      rps ← checked (
          parsed "config: AUTH_RATE_LIMIT_RPS"
            (parse_float (env_str "AUTH_RATE_LIMIT_RPS" (lit "10"))))
      burst ← checked (
          parsed "config: AUTH_RATE_LIMIT_BURST"
            (atoi (env_str "AUTH_RATE_LIMIT_BURST" (lit "30"))))
      timeout ← checked (
          parsed "config: AUTH_SHUTDOWN_TIMEOUT"
            (parse_duration (env_str "AUTH_SHUTDOWN_TIMEOUT" (lit "30s"))))
      return (merged secrets db rps burst timeout)
