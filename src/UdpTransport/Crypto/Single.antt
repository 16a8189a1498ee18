-- ===== src/UdpTransport/Crypto/Single.antt =====
-- A message that fits one datagram in `seal_message` of protocol/src/udp_transport/crypto.rs.
use ppaass_ai.Base.{
  ℕ, zero, suc, ◌+◌, ◌-◌, ◌^◌, ◌<◌, ◌≤◌, ◌≡◌, refl, subst, ap, Bool, true, false, some, List, [],
  ◌∷◌, ◌++◌, arith, ltb, min, length, take,
}
use ppaass_ai.Base.Result.{ok, err, >>=-eq-ok, fail_if, ok_or}
use ppaass_ai.UdpTransport.{UdpTransportResult, UdpTransportError, sequence_exhausted}
use ppaass_ai.UdpTransport.Reassembly.{checked_add}
use ppaass_ai.UdpTransport.Crypto.{
  Aead, UdpSessionCrypto, seal_message, sealed_state, seal, seal_fragment, seal_fragments,
  fragment_count_of, slice_at, make_nonce, header_at, advance,
}
use ppaass_ai.UdpTransport.Crypto.Sequence.{IsSession, header_at-IsHeader}
use ppaass_ai.UdpTransport.Header.{header_bytes, encode, validate}
use ppaass_ai.UdpTransport.Header.RoundTrip.{length-header_bytes}
use ppaass_ai.UdpTransport.Header.Valid.{validate_iff}

take-all {ℓ} : {A : Type ℓ} (n : ℕ) (xs : List A) → length xs ≤ n → take n xs ≡ xs
take-all zero [] h = refl
take-all zero (x ∷ xs) h = absurd (omega arith)
take-all (suc n) [] h = refl
take-all (suc n) (x ∷ xs) h = ap (λ ys. x ∷ ys) (take-all n xs (omega arith))

-- A message of at most one fragment is its own first slice.
pub slice_at-whole : (bytes : List ℕ) → length bytes ≤ 1289 → slice_at bytes 0 ≡ bytes
slice_at-whole bytes h = take-all (min 1289 (length bytes) - 0) bytes (omega arith)

-- What a sealed message of one fragment is.
pub seal_message-single :
    (aead : Aead) (c c' : UdpSessionCrypto) (message_id : ℕ) (bytes : List ℕ)
    (datagrams : List (List ℕ))
    → length bytes ≤ 1289
    → seal_message aead message_id bytes c ≡ (ok datagrams, c')
    → (datagram : List ℕ) × (datagrams ≡ datagram ∷ [])
      × (seal_fragment aead c message_id bytes 0 ≡ ok datagram)
unfolding seal_message sealed_state seal seal_fragments
seal_message-single aead c c' message_id bytes datagrams small e =
    sealed (seal aead c message_id bytes) refl e
  where
    sealed :
        (res : UdpTransportResult (List (List ℕ) × ℕ))
        → seal aead c message_id bytes ≡ res
        → sealed_state c res ≡ (ok datagrams, c')
        → (datagram : List ℕ) × (datagrams ≡ datagram ∷ [])
          × (seal_fragment aead c message_id bytes 0 ≡ ok datagram)
    sealed (err x) p h = absurd cc
    sealed (ok (ds, last)) p h =
        let count = fragment_count_of bytes in
        let one : count ≡ 1 = omega arith in
        let (u1, short, e1) = >>=-eq-ok (fail_if (ltb 71680 (length bytes)) _) _ p in
        let (u2, few, e2) = >>=-eq-ok (fail_if (ltb 64 count) _) _ e1 in
        let (u3, left, e3) = >>=-eq-ok (fail_if c.send_sequence_exhausted _) _ e2 in
        let (last1, summed, e4) =
          >>=-eq-ok (ok_or (checked_add c.next_send_sequence (count - 1)) _) _ e3 in
        let (ds1, made, e5) = >>=-eq-ok (seal_fragments aead c message_id bytes count 0) _ e4 in
        let (datagram, first, e6) =
          >>=-eq-ok (seal_fragment aead c message_id bytes 0) _
            (subst (λ n. seal_fragments aead c message_id bytes n 0 ≡ ok ds1) one made) in
        (datagram, cc (e5, e6, h), first)

-- A cipher that fails on no fragment.
abbrev pub Encrypts : Aead → Type 0
Encrypts aead =
    (key nonce aad plaintext : List ℕ)
    → length plaintext ≤ 1289
    → (sealed : List ℕ × List ℕ) × (aead.encrypt key nonce aad plaintext ≡ some sealed)

header_at-validate :
    (aead : Aead) (c : UdpSessionCrypto) (message_id : ℕ) (bytes : List ℕ)
    → IsSession c
    → length bytes ≤ 1289
    → validate (header_at c message_id bytes 0) ≡ ok tt
header_at-validate aead c message_id bytes s small =
    (validate_iff (header_at c message_id bytes 0)).1 (record {
      magic = refl;
      version = refl;
      fits = (omega arith, omega arith);
      few_fragments = omega arith;
      index_inside = omega arith;
      no_spare_fragment = omega arith;
    })

seal_fragment-single :
    (aead : Aead) (c : UdpSessionCrypto) (message_id : ℕ) (bytes : List ℕ)
    → Encrypts aead
    → IsSession c
    → message_id < 2 ^ 64
    → length bytes ≤ 1289
    → (datagram : List ℕ) × (seal_fragment aead c message_id bytes 0 ≡ ok datagram)
unfolding seal_fragment encode
seal_fragment-single aead c message_id bytes encrypts s hm small =
    let header = header_at c message_id bytes 0 in
    let aad = header_bytes header in
    let size : length aad ≡ 46 =
      length-header_bytes header
        (header_at-IsHeader aead c message_id bytes s hm 0 (omega (arith, s.next))) in
    let (sealed, given) =
      encrypts c.send.cipher (make_nonce c.send.nonce_prefix (c.next_send_sequence + 0)) aad
        (slice_at bytes 0) (rw (slice_at-whole bytes small) small) in
    let fits : ltb 1351 (length aad + length (slice_at bytes 0) + 16) ≡ false =
      rw (slice_at-whole bytes small) (ground (arith, size)) in
    (
      aad ++ (sealed.0 ++ sealed.1),
      rw (header_at-validate aead c message_id bytes s small, fits, given) refl,
    )

-- A message of one fragment is sealed, if there is a number left.
pub seal_message-single_ok :
    (aead : Aead) (c : UdpSessionCrypto) (message_id : ℕ) (bytes : List ℕ)
    → Encrypts aead
    → IsSession c
    → c.send_sequence_exhausted ≡ false
    → message_id < 2 ^ 64
    → length bytes ≤ 1289
    → (datagrams : List (List ℕ)) × (c' : UdpSessionCrypto) × (seal_message aead message_id bytes c
        ≡ (ok datagrams, c'))
unfolding seal_message sealed_state seal seal_fragments
seal_message-single_ok aead c message_id bytes encrypts s more hm small =
    let (datagram, sealed) = seal_fragment-single aead c message_id bytes encrypts s hm small in
    let one : fragment_count_of bytes ≡ 1 = omega arith in
    let short : ltb 71680 (length bytes) ≡ false = ground arith in
    let below : ltb (c.next_send_sequence + 0) (2 ^ 64) ≡ true = ground (arith, s.next) in
    (
      datagram ∷ [],
      advance c (c.next_send_sequence + 0),
      rw (short, one, passes c.send_sequence_exhausted sequence_exhausted more, below, sealed) refl,
    )
  where
    passes :
        (b : Bool) (e : UdpTransportError)
        → b ≡ false
        → ◌≡◌ {A = UdpTransportResult (Unit {0})} (fail_if b e) (ok tt)
    passes true e h = absurd cc
    passes false e h = refl
