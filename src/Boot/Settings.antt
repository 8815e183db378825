-- ===== src/Boot/Settings.antt =====
-- internal/config/config.go. Durations are nanoseconds.
use mizuflow.Base.{String, Option, none, List}
use mizuflow.Base.Int.{ℤ}

pub record ServerConfig : Type 0 where
  pub environment : String
  pub port : String

pub record MySqlConfig : Type 0 where
  pub dsn : String

pub record RedisConfig : Type 0 where
  pub addr : String
  pub password : String
  pub db : ℤ

pub record EtcdConfig : Type 0 where
  pub endpoints : List String
  pub dial_timeout : ℤ

pub record WorkersConfig : Type 0 where
  pub outbox_interval : ℤ
  pub reconciler_interval : ℤ
  pub reconciler_batch_size : ℤ
  pub reconciler_batch_delay : ℤ

pub record StreamConfig : Type 0 where
  pub heartbeat_interval : ℤ
  pub hub_buffer_size : ℤ

pub record AuthConfig : Type 0 where
  pub access_token_ttl : ℤ
  pub refresh_token_ttl : ℤ

pub record RateLimitConfig : Type 0 where
  pub requests_per_second : ℤ

pub record Config : Type 0 where
  pub server : ServerConfig
  pub mysql : MySqlConfig
  pub redis : RedisConfig
  pub etcd : EtcdConfig
  pub workers : WorkersConfig
  pub stream : StreamConfig
  pub auth : AuthConfig
  pub rate_limit : RateLimitConfig

-- What `viper.ReadInConfig` returns.
pub data ReadAnswer : Type 0 where
  read file_not_found read_error : ReadAnswer

-- The calls of viper that `Load` makes: the reading of the file, and then the decoding of what is known.
pub record Viper : Type 0 where
  pub read_in_config : ReadAnswer
  pub unmarshal : ReadAnswer → Option Config

-- `Load`; `none` is a panic.
unfoldable pub load : Viper → Option Config
load v = elim v.read_in_config [
  | read ↦ v.unmarshal read
  | file_not_found ↦ v.unmarshal file_not_found
  | read_error ↦ none
]
