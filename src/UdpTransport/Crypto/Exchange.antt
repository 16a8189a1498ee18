-- ===== src/UdpTransport/Crypto/Exchange.antt =====
-- Sealing by one peer and opening by the other: protocol/src/udp_transport/crypto.rs.
use ppaass_ai.Base.{
  ℕ, ◌+◌, ◌-◌, ◌*◌, ◌%◌, ◌^◌, ◌<◌, ◌≤◌, ◌≡◌, refl, sym, subst, ap, ◌∙◌, true, false, not, ◌&&◌,
  some, List, ◌∷◌, ◌++◌, arith, ltb, ◌==◌, min, length, length-append, length-take, length-drop,
  take, drop, take-append, drop-append, take-append-drop, bytes_eq, bytes_eq_iff,
}
use ppaass_ai.Base.Result.{ok, >>=-eq-ok, fail_if, ok_or, fail_if-eq-ok, ok_or-eq-ok}
use ppaass_ai.UdpTransport.Fragment.{DecryptedUdpFragment}
use ppaass_ai.UdpTransport.Header.{UdpPacketHeader, IsHeader, validate, header_bytes, encode}
use ppaass_ai.UdpTransport.Header.RoundTrip.{length-header_bytes}
use ppaass_ai.UdpTransport.Replay.{may_accept}
use ppaass_ai.UdpTransport.Replay.History.{fresh, Represents, may_accept-fresh, commit-Represents}
use ppaass_ai.UdpTransport.Crypto.{
  Aead, UdpSessionCrypto, make_nonce, header_at, fragment_count_of, slice_at, seal_fragment,
  open_with, authenticate, commit_fragment, open_datagram,
}
use ppaass_ai.UdpTransport.Crypto.Sequence.{IsSession, header_at-IsHeader, seal_fragment-decode}

-- What AES-256-GCM does with what it has sealed.
pub record AeadLaws (aead : Aead) : Type 0 where
  pub decrypt-encrypt :
      (key nonce aad plaintext ciphertext tag : List ℕ)
      → aead.encrypt key nonce aad plaintext ≡ some (ciphertext, tag)
      → aead.decrypt key nonce aad (ciphertext ++ tag) ≡ some plaintext
  pub length_ciphertext :
      (key nonce aad plaintext ciphertext tag : List ℕ)
      → aead.encrypt key nonce aad plaintext ≡ some (ciphertext, tag)
      → length ciphertext ≡ length plaintext
  pub length_tag :
      (key nonce aad plaintext ciphertext tag : List ℕ)
      → aead.encrypt key nonce aad plaintext ≡ some (ciphertext, tag)
      → length tag ≡ 16

-- What `seal_fragment` puts together.
record Parts (aead : Aead) (c : UdpSessionCrypto) (message_id : ℕ) (plaintext : List ℕ) (index : ℕ)
    (datagram : List ℕ) : Type 0 where
  aad : List ℕ
  ciphertext : List ℕ
  tag : List ℕ
  whole : datagram ≡ aad ++ (ciphertext ++ tag)
  encoded : encode (header_at c message_id plaintext index) ≡ ok aad
  short : length aad + length (slice_at plaintext index) + 16 ≤ 1351
  encrypted_as :
      aead.encrypt c.send.cipher
        (make_nonce c.send.nonce_prefix (c.next_send_sequence + index))
        aad
        (slice_at plaintext index)
      ≡ some (ciphertext, tag)

seal_fragment-Parts :
    (aead : Aead) (c : UdpSessionCrypto) (message_id : ℕ) (plaintext : List ℕ) (index : ℕ)
    (datagram : List ℕ)
    → seal_fragment aead c message_id plaintext index ≡ ok datagram
    → Parts aead c message_id plaintext index datagram
unfolding seal_fragment
seal_fragment-Parts aead c message_id plaintext index datagram e =
    let (aad, encoded, e1) = >>=-eq-ok (encode (header_at c message_id plaintext index)) _ e in
    let (u2, fits, e2) =
      >>=-eq-ok (fail_if (ltb 1351 (length aad + length (slice_at plaintext index) + 16)) _) _ e1 in
    let (sealed, given, e3) =
      >>=-eq-ok
        (ok_or
          (aead.encrypt c.send.cipher
            (make_nonce c.send.nonce_prefix (c.next_send_sequence + index)) aad
            (slice_at plaintext index))
          _)
        _ e2 in
    record {
      aad = aad;
      ciphertext = sealed.0;
      tag = sealed.1;
      whole = cc e3;
      encoded = encoded;
      short = ground (
        arith,
        fail_if-eq-ok (ltb 1351 (length aad + length (slice_at plaintext index) + 16)) _ fits,
      );
      encrypted_as = ok_or-eq-ok _ _ given;
    }

length-slice_at :
    (plaintext : List ℕ) (index : ℕ)
    → length (slice_at plaintext index) ≡ min ((index + 1) * 1289) (length plaintext) - index * 1289
length-slice_at plaintext index =
    length-take (min (index * 1289 + 1289) (length plaintext) - index * 1289)
      (drop (index * 1289) plaintext)
    ∙ omega (arith, length-drop (index * 1289) plaintext)

-- A slice of a message that is not empty is not empty.
slice_at-full :
    (plaintext : List ℕ) (index : ℕ)
    → index < fragment_count_of plaintext
    → 0 < length plaintext
    → 0 < length (slice_at plaintext index)
slice_at-full plaintext index h p = omega (arith, length-slice_at plaintext index)

pub length-encode :
    (h : UdpPacketHeader) (aad : List ℕ) → IsHeader h → encode h ≡ ok aad → length aad ≡ 46
unfolding encode
length-encode h aad t e =
    let (u, valid, same) = >>=-eq-ok (validate h) (λ _. ok (header_bytes h)) e in
    let written : header_bytes h ≡ aad = cc same in
    ap length (sym written) ∙ length-header_bytes h t

-- The peers share a session: what `p` sends, `q` receives.
pub record AreLinked (p q : UdpSessionCrypto) : Type 0 where
  pub session : q.session_id ≡ p.session_id
  pub direction : q.receive ≡ p.send

-- The fragment is the part of a message at this place.
pub record IsFragment (seq message_id : ℕ) (plaintext : List ℕ) (index : ℕ)
    (fragment : DecryptedUdpFragment) : Type 0 where
  pub numbered : fragment.header.seq ≡ seq
  pub message : fragment.header.message_id ≡ message_id
  pub place : fragment.header.fragment_index ≡ index
  pub total : fragment.header.total_len ≡ length plaintext
  pub before : List ℕ
  pub after : List ℕ
  pub whole : plaintext ≡ before ++ (fragment.payload ++ after)
  pub start : length before ≡ index * 1289
  pub size : length fragment.payload ≡ min 1289 (length plaintext - index * 1289)

header_at-IsFragment :
    (c : UdpSessionCrypto) (message_id : ℕ) (plaintext : List ℕ) (index : ℕ)
    → length plaintext ≤ 71680
    → index < fragment_count_of plaintext
    → IsFragment (c.next_send_sequence + index) message_id plaintext index (record {
      header = header_at c message_id plaintext index;
      payload = slice_at plaintext index;
    })
header_at-IsFragment c message_id plaintext index small inside =
    let n = index * 1289 in
    let m = min (n + 1289) (length plaintext) - n in
    record {
      numbered = refl;
      message = refl;
      place = omega (arith, small, inside);
      total = omega (arith, small);
      before = take n plaintext;
      after = drop m (drop n plaintext);
      whole = sym (
          ap (λ (t : List ℕ). take n plaintext ++ t) (take-append-drop m (drop n plaintext))
          ∙ take-append-drop n plaintext);
      start = length-take n plaintext ∙ omega (arith, small, inside);
      size = length-slice_at plaintext index ∙ omega (arith, small, inside);
    }

module _ (aead : Aead) (laws : AeadLaws aead) (p q : UdpSessionCrypto) (linked : AreLinked p q)
    (s : IsSession p) where
  authenticate-seal_fragment :
      (message_id : ℕ) (plaintext : List ℕ) (index : ℕ) (datagram : List ℕ)
      → message_id < 2 ^ 64
      → p.next_send_sequence + index < 2 ^ 64
      → length plaintext ≤ 71680
      → index < fragment_count_of plaintext
      → may_accept q.replay (p.next_send_sequence + index) ≡ true
      → seal_fragment aead p message_id plaintext index ≡ ok datagram
      → authenticate aead datagram q
        ≡ ok (record {
          header = header_at p message_id plaintext index;
          payload = slice_at plaintext index;
        })
  unfolding authenticate open_with
  authenticate-seal_fragment message_id plaintext index datagram hm hs small inside accepts e =
      let parts = seal_fragment-Parts aead p message_id plaintext index datagram e in
      let c = parts.ciphertext in
      let t = parts.tag in
      let nonce = make_nonce p.send.nonce_prefix (p.next_send_sequence + index) in
      let l_aad : length parts.aad ≡ 46 =
        length-encode (header_at p message_id plaintext index) parts.aad
          (header_at-IsHeader aead p message_id plaintext s hm index hs) parts.encoded in
      let l_c : length c ≡ length (slice_at plaintext index) =
        laws.length_ciphertext p.send.cipher nonce parts.aad (slice_at plaintext index) c t
          parts.encrypted_as in
      let l_t : length t ≡ 16 =
        laws.length_tag p.send.cipher nonce parts.aad (slice_at plaintext index) c t
          parts.encrypted_as in
      let l_all : length datagram ≡ 46 + length (slice_at plaintext index) + 16 =
        ap length parts.whole
        ∙ omega (arith, length-append parts.aad (c ++ t), length-append c t, l_aad, l_c, l_t) in
      let decoded = seal_fragment-decode aead p message_id plaintext s hm index datagram hs e in
      let front : take 46 datagram ≡ parts.aad =
        ap (take 46) parts.whole
        ∙ subst (λ n. take n (parts.aad ++ (c ++ t)) ≡ parts.aad) l_aad
            (take-append parts.aad (c ++ t)) in
      let back : drop 46 datagram ≡ c ++ t =
        ap (drop 46) parts.whole
        ∙ subst (λ n. drop n (parts.aad ++ (c ++ t)) ≡ c ++ t) l_aad
            (drop-append parts.aad (c ++ t)) in
      let opened : aead.decrypt q.receive.cipher
            (make_nonce q.receive.nonce_prefix (p.next_send_sequence + index)) (take 46 datagram)
            (drop 46 datagram)
          ≡ some (slice_at plaintext index) =
        rw (linked.direction, front, back)
          (laws.decrypt-encrypt p.send.cipher nonce parts.aad (slice_at plaintext index) c t
            parts.encrypted_as) in
      let fits : ltb 1351 (length datagram) ≡ false = ground (arith, parts.short) in
      let long : ltb (length datagram) 62 ≡ false = ground arith in
      let ours : bytes_eq p.session_id q.session_id ≡ true =
        (bytes_eq_iff p.session_id q.session_id).1 (sym linked.session) in
      let narrow : ltb 1289 (length (slice_at plaintext index)) ≡ false =
        ground (arith, parts.short) in
      let full : (not (length plaintext % 2 ^ 32 == 0) && length (slice_at plaintext index) == 0)
          ≡ false =
        ground (arith, slice_at-full plaintext index inside) in
      rw (fits, long, decoded, ours, accepts, opened, narrow, full) refl

  -- The same, with the slice as the code cuts it.
  pub open_datagram-slice_at :
      (history : List ℕ) (message_id : ℕ) (plaintext : List ℕ) (index : ℕ) (datagram : List ℕ)
      → message_id < 2 ^ 64
      → p.next_send_sequence + index < 2 ^ 64
      → length plaintext ≤ 71680
      → index < fragment_count_of plaintext
      → Represents q.replay history
      → fresh history (p.next_send_sequence + index) ≡ true
      → seal_fragment aead p message_id plaintext index ≡ ok datagram
      → ((open_datagram aead datagram q).0
          ≡ ok (record {
            header = header_at p message_id plaintext index;
            payload = slice_at plaintext index;
          }))
        × Represents
            (open_datagram aead datagram q).1.replay
            ((p.next_send_sequence + index) ∷ history)
  unfolding open_datagram commit_fragment
  open_datagram-slice_at history message_id plaintext index datagram hm hs small inside r new e =
      let seq = p.next_send_sequence + index in
      let accepts = may_accept-fresh q.replay history seq r ∙ new in
      let (taken, after) = commit-Represents q.replay history seq r in
      rw
        (
          authenticate-seal_fragment message_id plaintext index datagram hm hs small inside accepts
              e,
          taken,
          new,
        )
        (refl, rw new at after)

  -- Between linked peers, for a cipher that opens what it seals, a sealed fragment of a message of
  -- at most 71680 bytes whose number is fresh in the receiver's history opens to its header, with its
  -- number, its place and the length of the message, and to its part of the message, the bytes from
  -- 1289 times its place on, at most 1289 of them; and the receiver's window then represents the history
  -- with this number.
  pub open_datagram-seal_fragment :
      (history : List ℕ) (message_id : ℕ) (plaintext : List ℕ) (index : ℕ) (datagram : List ℕ)
      → message_id < 2 ^ 64
      → p.next_send_sequence + index < 2 ^ 64
      → length plaintext ≤ 71680
      → index < fragment_count_of plaintext
      → Represents q.replay history
      → fresh history (p.next_send_sequence + index) ≡ true
      → seal_fragment aead p message_id plaintext index ≡ ok datagram
      → (fragment : DecryptedUdpFragment) × ((open_datagram aead datagram q).0 ≡ ok fragment)
        × IsFragment (p.next_send_sequence + index) message_id plaintext index fragment
        × Represents
            (open_datagram aead datagram q).1.replay
            ((p.next_send_sequence + index) ∷ history)
  open_datagram-seal_fragment history message_id plaintext index datagram hm hs small inside r new
        e =
      let (opened, after) =
        open_datagram-slice_at history message_id plaintext index datagram hm hs small inside r new
          e in
      (
        record {
          header = header_at p message_id plaintext index;
          payload = slice_at plaintext index;
        },
        opened,
        header_at-IsFragment p message_id plaintext index small inside,
        after,
      )
