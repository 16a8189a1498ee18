-- ===== src/Lib.antt =====
-- Verification of ppaass-ai: the native encrypted UDP transport with the sessions of the proxy and of its
-- clients over it, the users of the proxy, the direct access rules, the parser of DNS responses, the
-- cache of resolved domains, the settings of yamux sessions and the source addresses of the proxy.
--
-- The agents and the proxy exchange UDP datagrams that carry a fixed header of 46 bytes and an
-- encrypted payload. A message is cut into fragments, each fragment is sealed under its own sequence
-- number, and the receiver checks the number against a replay window, opens the fragment and collects
-- the fragments of a message until it is complete.
--
-- Files, with the paths of the code from the repository's root:
--   Base: native numbers, lists, results, association lists, bits and bytes, and their lemmas.
--   UdpTransport: constants and errors of protocol/src/udp_transport/mod.rs and error.rs.
--   UdpTransport/Replay: ReplayWindow of replay.rs, an array of 64 words of 64 bits, with new,
--     may_accept, commit, bit_is_set, set_bit and shift_older. Replay/Bitmap reads the array as a set of
--     distances, Replay/History compares the window with the list of all accepted numbers.
--   UdpTransport/Header: UdpPacketKind and UdpPacketHeader of header.rs, with validate, encode and
--     decode. Header/Valid says what validate accepts, Header/RoundTrip relates encode and decode.
--   UdpTransport/Fragment: DecryptedUdpFragment of crypto.rs, validate_fragment of reassembly.rs.
--   UdpTransport/Reassembly: FragmentReassembler of reassembly.rs with new, push,
--     evict_oldest_except and cleanup_expired. Reassembly/Invariant holds the invariant and the rules
--     for actions, Steps, Entry, Room and Store the parts of push, Bounds push itself, Runs whole runs.
--   UdpTransport/Tests: the theorems at concrete inputs.
--   UdpTransport/Crypto: UdpDirectionalKeyMaterial and UdpSessionCrypto of crypto.rs, with derive,
--     seal_message and open_datagram. Crypto/Open is about opening, Crypto/Sequence about the numbers given
--     out, Crypto/Exchange and Crypto/Single about two peers.
--   UdpTransport/Codec: UdpSessionCodec of crypto.rs and UdpSessionMessage of message.rs, with
--     encode_message and decode_datagram_at. Codec/Delivery is about runs over datagrams,
--     Codec/RoundTrip about a message that fits one datagram.
--   UdpTransport/Auth: the handshake packets of auth.rs. Auth/Transcript is about the signed transcript
--     and the binding of the secret, Auth/RoundTrip about the packets.
--   UdpTransport/Wire: send_session_message of proxy/src/native_udp/session.rs, with a socket that may
--     fail or send a part. Wire/Numbers is about the numbers that reach the socket, Wire/Receiving about what
--     receiving leaves of them, Wire/Live about what the loops of both sides share.
--   ProxyUdp/Session: run_session of proxy/src/native_udp/session.rs, as a function of the events of its
--     turns. Session/Numbers is about its datagrams, Session/Flows about its workers, against a registry of
--     open flows (Flows/Turns for one turn, Flows/Runs for a run).
--   ProxyUdp/Auth: prepare_session and validate_udp_auth of proxy/src/native_udp/auth.rs; Auth/Prepared
--     is about what a prepared session stands for.
--   ProxyUdp/Listener: NativeUdpListener of proxy/src/native_udp/listener.rs, as a function of the events
--     of its turns. Listener/Explained relates its effects to the log of those before (Dispatch, Turns, Runs).
--   ClientUdp/Auth: authenticate_udp_session of common/src/client_connection/udp.rs, over what its attempts
--     receive.
--   ClientUdp/Driver: run_session_driver of the same file, as a function of the events of its turns;
--     Driver/Numbers is about its datagrams.
--   ClientUdp/Stream: UdpClientStream of the same file, with poll_read, poll_write, poll_shutdown and drop.
--     Stream/Reads compares reading with a queue of datagrams, Stream/Writes is about the commands.
--   ClientUdp/Connection: connect_to_target of the same file, in steps that other calls may come between;
--     Connection/FlowIds is about its identifiers, Connection/Unique about lists of them.
--   Handshake: the libraries of the handshake; Handshake/Agreement is about both its sides together.
--   Users: the users of proxy/src/config/user_config.rs and proxy/src/user_manager.rs; Users/Valid is about
--     their validation, Users/Expiry about their times of expiry.
--   Address: the target addresses of protocol/src/message/address.rs.
--   DirectAccess: DirectAccessChecker of desktop-agent-be/src/direct_access.rs, which decides whether a
--     target goes around the proxy. DirectAccess/Cidr is about its networks, DirectAccess/Domain about its
--     domains, DirectAccess/Tests has concrete inputs.
--   YamuxSettings: the configurations and settings of common/src/yamux_settings.rs, and the record that
--     they fill for tokio_yamux; YamuxSettings/Limits is about their ranges.
--   Dns: parse_dns_name of desktop-agent-be/src/tun_handler/dns_proxy/parser.rs, as a walk over a packet.
--     Dns/Names is about its end, Dns/RoundTrip about names as they stand in a packet, Dns/Response holds the
--     rest of the parser, Response/Layout says how responses are laid out, Response/Records is about reading
--     them.
--   DomainCache: DirectDomainCache of desktop-agent-be/src/tun_handler/direct_domain_cache.rs. DomainCache/Log
--     compares it with a log of its recordings, Log/Oldest says which of them answers, Log/Runs is about
--     runs of its calls; DomainCache/Distinct is about the lists of domains.
--   Egress: the choice of source addresses of proxy/src/connection/egress/source.rs from a snapshot of
--     the interfaces; Egress/Suitable says which addresses can be one, Egress/Sources is about
--     the outcomes.
--
-- How they interact: decode_datagram_at opens a datagram (Crypto), which reads its header (Header) and
-- asks and updates the replay window (Replay), and pushes the fragment into the reassembler (Reassembly);
-- encode_message serializes a message and seals its fragments. Both sides start from a handshake
-- (ClientUdp/Auth and ProxyUdp/Auth, put together in Handshake), after which the listener
-- (ProxyUdp/Listener) gives each datagram to its session (ProxyUdp/Session), and the client's loop
-- (ClientUdp/Driver) to its streams (ClientUdp/Stream). The listener looks its users up in Users. The
-- other parts stand alone: the desktop agent asks the direct access rules for each target, and the cache
-- for the domains of an address, which it learns from DNS responses; both sides read the settings of
-- yamux, and the proxy asks for a source address before it connects.
--
-- Conventions. An integer is a natural number; a shift of a 64-bit word is truncated as in the source,
-- and a checked addition returns none from 2^64 on. A subtraction stops at 0.
-- A function that takes &mut self returns the new state beside its result, beside an error too. An Instant is a number of nanoseconds. A HashMap is an association list with distinct keys
-- whose order stands for the order of iteration.
--
-- Fuel. The loop of push that makes room is given one round more than there are entries, since each round
-- but the last removes one. parse_dns_name is given 17 rounds for each byte and 17 more: at most 16 jumps,
-- and between two of them each round moves on.
--
-- Not modelled: socket I/O, tokio tasks, the user interfaces and the Android port. The cryptographic
-- and serialization libraries are not part of the repository: AES-256-GCM, SHA-256, HKDF and the
-- serializer are records of functions that the definitions take.
pub mod Address
pub mod Base
pub mod ClientUdp
pub mod DirectAccess
pub mod Dns
pub mod DomainCache
pub mod Egress
pub mod Handshake
pub mod ProxyUdp
pub mod UdpTransport
pub mod Users
pub mod YamuxSettings
