-- ===== src/ProxyUdp/Listener/Explained/Turns.antt =====
-- The turns of the listener of proxy/src/native_udp/listener.rs and its log.
use ppaass_ai.Base.{
  ℕ, ◌+◌, ◌%◌, ◌^◌, ◌<◌, max, ◌≡◌, refl, sym, ◌∙◌, ◌⊎◌, inl, inr, Bool-cases, Bool, true, ◌&&◌,
  Option, none, some, List, length, arith, leb, ltb, if◌then◌else◌, bytes_eq, bytes_eq_iff,
}
use ppaass_ai.Base.Assoc.{
  lookup, insert, text_eq, tagged_beq, tagged_beq_iff, lookup-insert, insert-IsMap,
  length-insert_new,
}
use ppaass_ai.Base.Result.{Result, ok, err}
use ppaass_ai.UdpTransport.{UdpTransportResult, UdpSessionId}
use ppaass_ai.UdpTransport.Header.{
  UdpPacketKind, UdpPacketHeader, auth_init, auth_ok, encrypted, decode,
}
use ppaass_ai.UdpTransport.Auth.{UdpAuthInit, decode_auth_init}
use ppaass_ai.ProxyUdp.Auth.{ProxyError, PreparedSession, prepare_session}
use ppaass_ai.ProxyUdp.Listener.{
  Settings, SessionRoute, NativeUdpListener, Draw, Peer, ListenerEvent, received, cleaned_up,
  joined, allocate_generation, dispatch_encrypted, start_session, start_prepared, authenticate_new,
  answer_auth_init, handle_decoded, handle_auth_init, by_kind, with_header, handle_datagram, listen,
}
use ppaass_ai.ProxyUdp.Listener.Explained.{Log, WasStarted, IsBacked, IsNewest-mono}
use ppaass_ai.ProxyUdp.Listener.Explained.Dispatch.{
  IsTurn, idle-IsTurn, remove_session-IsTurn, dispatch_route-IsTurn,
}

some_inj : (a b : SessionRoute) → some a ≡ some b → a ≡ b
some_inj a b e = cc

module _ (settings : Settings) (log : Log) (l : NativeUdpListener) (b : IsBacked settings log l)
    (room : l.next_generation + 1 < 2 ^ 64) where
  next_generation_grows : max ((l.next_generation + 1) % 2 ^ 64) 1 ≡ l.next_generation + 1
  next_generation_grows = ground arith

  start_session-IsTurn :
      (peer : Peer) (datagram : List ℕ) (header : UdpPacketHeader) (auth : UdpAuthInit)
      (draw : Draw) (prepared : PreparedSession)
      → decode_auth_init settings.lib.auth_init datagram ≡ ok (header, auth)
      → prepare_session settings.lib settings.texts settings.replay_attack_tolerance settings.users
          draw.now draw.master_key draw.server_nonce header.session_id auth
        ≡ ok prepared
      → lookup header.session_id l.sessions ≡ none
      → length l.sessions < settings.udp_session_limit
      → IsTurn settings log l (start_session peer datagram header.session_id prepared l)
  unfolding start_session allocate_generation
  start_session-IsTurn peer datagram header auth draw prepared d p new few =
      let sid = header.session_id in
      let route : SessionRoute = record {
        peer = peer;
        generation = l.next_generation;
        auth_init_datagram = datagram;
        auth_ok_datagram = prepared.auth_ok_datagram;
      } in
      record {
        explained = (
          (
            record {
              header = header;
              auth = auth;
              draw = draw;
              asked = d;
              named = refl;
              prepared = p;
            },
            b.newest,
          ),
          ((sid, route, inl (refl, refl), refl, refl, refl), tt),
        );
        backed = record {
          distinct = insert-IsMap sid route l.sessions b.distinct;
          backed = λ k r h. inr (
              started_or_old sid route k r (b.backed k r) (lookup-insert sid k route l.sessions) h);
          limit = omega (arith, length-insert_new sid route l.sessions new);
          newest =
              rw next_generation_grows
                (omega arith, IsNewest-mono log l.next_generation _ (omega arith) b.newest);
        };
        generations = omega (arith, next_generation_grows);
      }
    where
      started_or_old :
          (sid : UdpSessionId) (route : SessionRoute) (k : UdpSessionId) (r : SessionRoute)
          → (lookup k l.sessions ≡ some r → WasStarted log k r)
          → lookup k (insert sid route l.sessions)
            ≡ (if bytes_eq sid k then some route else lookup k l.sessions)
          → lookup k (insert sid route l.sessions) ≡ some r
          → ((sid ≡ k) × (route ≡ r)) ⊎ WasStarted log k r
      started_or_old sid route k r old e h = elim (Bool-cases (bytes_eq sid k)) [
        | inl same ↦ inl ((bytes_eq_iff sid k).0 same, some_inj route r (sym (rw same at e) ∙ h))
        | inr other ↦ inr (old (sym (rw other at e) ∙ h))
      ]

  start_prepared-IsTurn :
      (peer : Peer) (datagram : List ℕ) (header : UdpPacketHeader) (auth : UdpAuthInit)
      (draw : Draw) (res : Result ProxyError PreparedSession)
      → decode_auth_init settings.lib.auth_init datagram ≡ ok (header, auth)
      → prepare_session settings.lib settings.texts settings.replay_attack_tolerance settings.users
          draw.now draw.master_key draw.server_nonce header.session_id auth
        ≡ res
      → lookup header.session_id l.sessions ≡ none
      → length l.sessions < settings.udp_session_limit
      → IsTurn settings log l (start_prepared peer datagram header.session_id l res)
  unfolding start_prepared
  start_prepared-IsTurn peer datagram header auth draw (err e) d p new few =
      (idle-IsTurn settings log l b)
  start_prepared-IsTurn peer datagram header auth draw (ok prepared) d p new few =
      start_session-IsTurn peer datagram header auth draw prepared d p new few

  answer_auth_init-IsTurn :
      (peer : Peer) (datagram : List ℕ) (header : UdpPacketHeader) (auth : UdpAuthInit)
      (draw : Draw) (o : Option SessionRoute)
      → decode_auth_init settings.lib.auth_init datagram ≡ ok (header, auth)
      → lookup header.session_id l.sessions ≡ o
      → IsTurn settings log l
          (answer_auth_init settings peer datagram header.session_id auth draw l o)
  unfolding answer_auth_init authenticate_new
  answer_auth_init-IsTurn peer datagram header auth draw none d e =
      elim (Bool-cases (leb settings.udp_session_limit (length l.sessions))) [
        | inl over ↦ rw over (idle-IsTurn settings log l b)
        | inr few ↦
            rw few (start_prepared-IsTurn peer datagram header auth draw _ d refl e (ground arith))
      ]
  answer_auth_init-IsTurn peer datagram header auth draw (some existing) d e =
      elim (Bool-cases
        (tagged_beq existing.peer peer && bytes_eq existing.auth_init_datagram datagram)) [
          | inl same ↦
              let (whose, what) = both _ _ same in
              rw same (record {
                explained = (
                  (
                    header.session_id,
                    existing,
                    b.backed header.session_id existing e,
                    (tagged_beq_iff existing.peer peer).0 whose,
                    (bytes_eq_iff existing.auth_init_datagram datagram).0 what,
                    refl,
                  ),
                  tt,
                );
                backed = record {
                  distinct = b.distinct;
                  backed = λ k r h. inr (b.backed k r h);
                  limit = b.limit;
                  newest = b.newest;
                };
                generations = omega arith;
              })
          | inr other ↦ rw other (idle-IsTurn settings log l b)
        ]
    where
      both : (x y : Bool) → (x && y) ≡ true → (x ≡ true) × (y ≡ true)
      both x y h = ground arith

  handle_decoded-IsTurn :
      (peer : Peer) (datagram : List ℕ) (draw : Draw)
      (res : UdpTransportResult (UdpPacketHeader × UdpAuthInit))
      → decode_auth_init settings.lib.auth_init datagram ≡ res
      → IsTurn settings log l (handle_decoded settings peer datagram draw l res)
  unfolding handle_decoded
  handle_decoded-IsTurn peer datagram draw (err e) d = (idle-IsTurn settings log l b)
  handle_decoded-IsTurn peer datagram draw (ok (header, auth)) d =
      answer_auth_init-IsTurn peer datagram header auth draw _ d refl

  by_kind-IsTurn :
      (peer : Peer) (datagram : List ℕ) (draw : Draw) (header : UdpPacketHeader)
      (kind : UdpPacketKind)
      → decode datagram ≡ ok header
      → IsTurn settings log l (by_kind settings peer datagram draw l header.session_id kind)
  unfolding by_kind handle_auth_init dispatch_encrypted
  by_kind-IsTurn peer datagram draw header auth_init d =
      handle_decoded-IsTurn peer datagram draw _ refl
  by_kind-IsTurn peer datagram draw header encrypted d =
      dispatch_route-IsTurn settings log l b peer header.session_id datagram draw.queue header _
        refl d refl
  by_kind-IsTurn peer datagram draw header auth_ok d = (idle-IsTurn settings log l b)

  with_header-IsTurn :
      (peer : Peer) (datagram : List ℕ) (draw : Draw) (res : UdpTransportResult UdpPacketHeader)
      → decode datagram ≡ res
      → IsTurn settings log l (with_header settings peer datagram draw l res)
  unfolding with_header
  with_header-IsTurn peer datagram draw (err e) d = (idle-IsTurn settings log l b)
  with_header-IsTurn peer datagram draw (ok header) d =
      by_kind-IsTurn peer datagram draw header header.kind d

  pub listen-IsTurn : (event : ListenerEvent) → IsTurn settings log l (listen settings event l)
  unfolding listen handle_datagram
  listen-IsTurn (received peer datagram draw) = elim (Bool-cases (ltb 1351 (length datagram))) [
    | inl long ↦ rw long (idle-IsTurn settings log l b)
    | inr fits ↦ rw fits (with_header-IsTurn peer datagram draw _ refl)
  ]
  listen-IsTurn (cleaned_up none) = (idle-IsTurn settings log l b)
  listen-IsTurn (cleaned_up (some c)) = remove_session-IsTurn settings log l b c
  listen-IsTurn joined = (idle-IsTurn settings log l b)
