-- ===== src/YamuxSettings/Tests.antt =====
-- The theorems about common/src/yamux_settings.rs at a configuration of zeros.
use ppaass_ai.YamuxSettings.{
  YamuxConfig, YamuxServerConfig, udp_settings, server_settings, to_tokio_config,
}
use ppaass_ai.YamuxSettings.Limits.{IsUsable, udp_settings-IsUsable, server_settings-IsUsable}

abbrev zeros : YamuxConfig
zeros = record {
  udp = record {
    sessions = 0;
    max_streams_per_session = 0;
    open_stream_timeout_secs = 0;
    keepalive_interval_secs = 0;
    connection_write_timeout_secs = 0;
    stream_window_size_kb = 0;
  };
}

abbrev server_zeros : YamuxServerConfig
server_zeros = record {
  max_streams_per_session = 0;
  keepalive_interval_secs = 0;
  connection_write_timeout_secs = 0;
  stream_window_size_kb = 0;
}

udp_settings-IsUsable_example : IsUsable 0 0 (to_tokio_config (udp_settings zeros))
udp_settings-IsUsable_example = udp_settings-IsUsable zeros

server_settings-IsUsable_example : IsUsable 0 0 (to_tokio_config (server_settings server_zeros))
server_settings-IsUsable_example = server_settings-IsUsable server_zeros
