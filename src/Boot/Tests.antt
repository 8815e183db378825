-- ===== src/Boot/Tests.antt =====
-- Starts of the server with and without its configuration file, and one where MySQL is not there.
use mizuflow.Base.{true, false, ◌≡◌, refl, some, [], ◌∷◌}
use mizuflow.Base.Int.{pos}
use mizuflow.Reconciler.Run.{new_reconciler}
use mizuflow.Boot.{
  Config, read, file_not_found, Viper, Infra, etcd, redis, opens, closes, cancels, no_mysql, failed,
  exit_panic, exit_code, load, run, main_program, worker_panics, parts_of,
}

-- What viper makes of nothing.
abbrev empty_config : Config
empty_config = record {
  server = record { environment = ""; port = "" };
  mysql = record { dsn = "" };
  redis = record { addr = ""; password = ""; db = pos 0 };
  etcd = record { endpoints = []; dial_timeout = pos 0 };
  workers = record {
    outbox_interval = pos 0;
    reconciler_interval = pos 0;
    reconciler_batch_size = pos 0;
    reconciler_batch_delay = pos 0;
  };
  stream = record { heartbeat_interval = pos 0; hub_buffer_size = pos 0 };
  auth = record { access_token_ttl = pos 0; refresh_token_ttl = pos 0 };
  rate_limit = record { requests_per_second = pos 0 };
}

abbrev full_config : Config
full_config = record empty_config {
  workers = record {
    outbox_interval = pos 5;
    reconciler_interval = pos 60;
    reconciler_batch_size = pos 100;
    reconciler_batch_delay = pos 0;
  };
  stream = record { heartbeat_interval = pos 15; hub_buffer_size = pos 0 };
}

abbrev all_there : Infra
all_there = record {
  ping_redis = λ c. true;
  new_etcd = λ c. true;
  open_mysql = λ c. true;
  migrate = true;
  shutdown = true;
}

abbrev without_mysql : Infra
without_mysql = record all_there { open_mysql = λ c. false }

abbrev no_file : Viper
no_file = record { read_in_config = file_not_found; unmarshal = λ a. some empty_config }

fails_without_mysql :
    run without_mysql full_config
    ≡ (failed no_mysql, opens redis ∷ opens etcd ∷ closes etcd ∷ closes redis ∷ cancels ∷ [])
unfolding run
fails_without_mysql = refl

exits_by_panic : (main_program no_file all_there).0 ≡ exit_panic
unfolding main_program load worker_panics parts_of new_reconciler
exits_by_panic = refl

exits_well :
    (main_program (record { read_in_config = read; unmarshal = λ a. some full_config }) all_there).0
    ≡ exit_code 0
unfolding main_program load worker_panics parts_of new_reconciler
exits_well = refl
