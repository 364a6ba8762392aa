-- ===== src/Config.antt =====
-- src/config.rs. Durations are nanoseconds.
use packet_test.Common.{ℕ, ◌*◌, ◌^◌, Option, some}

pub record ConnectionConfig : Type 0 where
  pub resend_delay : ℕ
  pub max_missed_acks : Option ℕ
  pub receive_timeout : Option ℕ
  pub initial_send_batch_size : ℕ
  pub background_serialization_threshold : ℕ

pub record ServerConfig : Type 0 where
  pub connection : ConnectionConfig
  pub ping_delay : ℕ
  pub max_missed_pongs : Option ℕ
  pub listener_timeout : Option ℕ

-- The defaults.
abbrev pub default_connection : ConnectionConfig
default_connection = record {
  resend_delay = 10 ^ 9;
  max_missed_acks = some 3;
  receive_timeout = some (10 * 10 ^ 9);
  initial_send_batch_size = 8;
  background_serialization_threshold = 8;
}

abbrev pub default_server : ServerConfig
default_server = record {
  connection = default_connection;
  ping_delay = 2500 * 10 ^ 6;
  max_missed_pongs = some 3;
  listener_timeout = some (24 * 60 * 60 * 10 ^ 9);
}

pub record ClientConfig : Type 0 where
  pub connection : ConnectionConfig
  pub timeout : Option ℕ

abbrev pub default_client : ClientConfig
default_client = record { connection = default_connection; timeout = some (10 * 10 ^ 9) }
