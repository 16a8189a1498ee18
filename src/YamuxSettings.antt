-- ===== src/YamuxSettings.antt =====
-- The session settings of common/src/yamux_settings.rs. A `Duration` is a number of seconds; the
-- configuration of tokio_yamux is the record of the fields that the source fills.
pub mod Limits
mod Tests
use ppaass_ai.Base.{
  ℕ, ◌*◌, ◌-◌, ◌%◌, ◌^◌, min, max, Bool, true, false, Option, none, some, ◌==◌, if◌then◌else◌,
}

abbrev pub default_yamux_open_stream_timeout_secs : ℕ
default_yamux_open_stream_timeout_secs = 10

abbrev pub default_yamux_keepalive_interval_secs : ℕ
default_yamux_keepalive_interval_secs = 30

abbrev pub min_yamux_stream_window_size_kb : ℕ
min_yamux_stream_window_size_kb = 256

pub record YamuxServerConfig : Type 0 where
  pub max_streams_per_session : ℕ
  pub keepalive_interval_secs : ℕ
  pub connection_write_timeout_secs : ℕ
  pub stream_window_size_kb : ℕ

pub record YamuxTransportConfig : Type 0 where
  pub sessions : ℕ
  pub max_streams_per_session : ℕ
  pub open_stream_timeout_secs : ℕ
  pub keepalive_interval_secs : ℕ
  pub connection_write_timeout_secs : ℕ
  pub stream_window_size_kb : ℕ

pub record YamuxConfig : Type 0 where
  pub udp : YamuxTransportConfig

-- The defaults of the two configurations.
abbrev pub default_server_config : YamuxServerConfig
default_server_config = record {
  max_streams_per_session = 128;
  keepalive_interval_secs = 30;
  connection_write_timeout_secs = 300;
  stream_window_size_kb = 8192;
}

abbrev pub default_transport_config : YamuxTransportConfig
default_transport_config = record {
  sessions = 5;
  max_streams_per_session = 32;
  open_stream_timeout_secs = 10;
  keepalive_interval_secs = 30;
  connection_write_timeout_secs = 300;
  stream_window_size_kb = 8192;
}

pub record YamuxSettings : Type 0 where
  pub max_streams_per_session : ℕ
  pub open_stream_timeout : ℕ
  pub keepalive_interval : Option ℕ
  pub connection_write_timeout : ℕ
  pub stream_window_size_kb : ℕ

abbrev pub keepalive_of : ℕ → Option ℕ
keepalive_of secs = if secs == 0 then none else some secs

-- `YamuxServerConfig::settings`
unfoldable pub server_settings : YamuxServerConfig → YamuxSettings
server_settings c = record {
  max_streams_per_session = max c.max_streams_per_session 1;
  open_stream_timeout = default_yamux_open_stream_timeout_secs;
  keepalive_interval = keepalive_of c.keepalive_interval_secs;
  connection_write_timeout = max c.connection_write_timeout_secs 1;
  stream_window_size_kb = max c.stream_window_size_kb min_yamux_stream_window_size_kb;
}

abbrev pub session_count : YamuxTransportConfig → ℕ
session_count c = max c.sessions 1

-- `YamuxTransportConfig::settings`
unfoldable pub settings : YamuxTransportConfig → YamuxSettings
settings c = record {
  max_streams_per_session = max c.max_streams_per_session 1;
  open_stream_timeout = max c.open_stream_timeout_secs 1;
  keepalive_interval = keepalive_of c.keepalive_interval_secs;
  connection_write_timeout = max c.connection_write_timeout_secs 1;
  stream_window_size_kb = max c.stream_window_size_kb min_yamux_stream_window_size_kb;
}

abbrev pub udp_session_count : YamuxConfig → ℕ
udp_session_count c = session_count c.udp

unfoldable pub udp_settings : YamuxConfig → YamuxSettings
unfolding settings
udp_settings c = settings c.udp

-- The fields of `tokio_yamux::Config`.
pub record TokioConfig : Type 0 where
  pub accept_backlog : ℕ
  pub enable_keepalive : Bool
  pub keepalive_interval : ℕ
  pub connection_write_timeout : ℕ
  pub max_stream_count : ℕ
  pub max_stream_window_size : ℕ

abbrev pub is_some : Option ℕ → Bool
is_some none = false
is_some (some n) = true

abbrev pub unwrap_or : Option ℕ → ℕ → ℕ
unwrap_or none d = d
unwrap_or (some n) d = n

-- `usize::saturating_mul`
abbrev pub saturating_mul : ℕ → ℕ → ℕ
saturating_mul a b = min (a * b) (2 ^ 64 - 1)

unfoldable pub to_tokio_config : YamuxSettings → TokioConfig
to_tokio_config s = record {
  accept_backlog = max s.max_streams_per_session 1;
  enable_keepalive = is_some s.keepalive_interval;
  keepalive_interval = unwrap_or s.keepalive_interval default_yamux_keepalive_interval_secs;
  connection_write_timeout = s.connection_write_timeout;
  max_stream_count = max s.max_streams_per_session 1;
  max_stream_window_size =
      min (saturating_mul (max s.stream_window_size_kb min_yamux_stream_window_size_kb) 1024)
        (2 ^ 32 - 1)
      % 2 ^ 32;
}
