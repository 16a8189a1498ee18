-- ===== src/YamuxSettings/Limits.antt =====
-- The ranges of the settings that common/src/yamux_settings.rs makes of a configuration.
use ppaass_ai.Base.{ℕ, ◌*◌, ◌-◌, ◌^◌, ◌≤◌, ◌≡◌, refl, min, max, not, arith, ◌==◌}
use ppaass_ai.YamuxSettings.{
  YamuxConfig, YamuxServerConfig, TokioConfig, settings, udp_settings, server_settings,
  to_tokio_config, keepalive_of, is_some, unwrap_or,
}

-- A session accepts a stream, has time to write, sends keepalives exactly when `keepalive` says so and
-- then at intervals that are not zero, and its window is the configured one between 256 KiB and 2 ^ 32 - 1 bytes.
pub record IsUsable (keepalive window_kb : ℕ) (c : TokioConfig) : Type 0 where
  pub streams : 1 ≤ c.max_stream_count
  pub backlog : c.accept_backlog ≡ c.max_stream_count
  pub write_timeout : 1 ≤ c.connection_write_timeout
  pub keepalive_on : c.enable_keepalive ≡ not (keepalive == 0)
  pub interval : 1 ≤ c.keepalive_interval
  pub window : c.max_stream_window_size ≡ min (max (window_kb * 1024) (256 * 1024)) (2 ^ 32 - 1)

keepalive_of-is_some : (secs : ℕ) → is_some (keepalive_of secs) ≡ not (secs == 0)
keepalive_of-is_some secs = ground arith

keepalive_of-unwrap_or : (secs : ℕ) → 1 ≤ unwrap_or (keepalive_of secs) 30
keepalive_of-unwrap_or secs = ground arith

-- Whatever a client is configured with, its UDP sessions are usable.
pub udp_settings-IsUsable :
    (c : YamuxConfig)
    → IsUsable c.udp.keepalive_interval_secs c.udp.stream_window_size_kb
        (to_tokio_config (udp_settings c))
unfolding udp_settings settings to_tokio_config
udp_settings-IsUsable c = record {
  streams = omega arith;
  backlog = refl;
  write_timeout = omega arith;
  keepalive_on = keepalive_of-is_some c.udp.keepalive_interval_secs;
  interval = keepalive_of-unwrap_or c.udp.keepalive_interval_secs;
  window = omega arith;
}

-- Whatever a server is configured with, its sessions are usable.
pub server_settings-IsUsable :
    (c : YamuxServerConfig)
    → IsUsable c.keepalive_interval_secs c.stream_window_size_kb
        (to_tokio_config (server_settings c))
unfolding server_settings to_tokio_config
server_settings-IsUsable c = record {
  streams = omega arith;
  backlog = refl;
  write_timeout = omega arith;
  keepalive_on = keepalive_of-is_some c.keepalive_interval_secs;
  interval = keepalive_of-unwrap_or c.keepalive_interval_secs;
  window = omega arith;
}
