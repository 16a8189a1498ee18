-- ===== src/UdpTransport/Reassembly/Bounds.antt =====
-- `push` of protocol/src/udp_transport/reassembly.rs and the consistency of the state.
use ppaass_ai.Base.{
  ℕ, suc, ◌+◌, ◌^◌, ◌<◌, ◌≡◌, ◌≢◌, refl, ap, subst, ◌∙◌, Option, none, some, List, arith, inl, inr,
  Bool-cases, ltb, ◌==◌, ==_iff, String, if◌then◌else◌, length,
}
use ppaass_ai.Base.Assoc.{lookup, tagged_eq}
use ppaass_ai.Base.Result.{ok, err, >>=-eq-ok}
use ppaass_ai.UdpTransport.{
  UdpTransportError, UdpTransportResult, invalid_header, inconsistent_reassembly_state,
}
use ppaass_ai.UdpTransport.Fragment.{DecryptedUdpFragment, validate_fragment}
use ppaass_ai.UdpTransport.Header.{UdpPacketHeader, validate}
use ppaass_ai.UdpTransport.Reassembly.{
  ReassemblyEntry, Key, FragmentReassembler, ◌>>=◌, ◌>>◌, key_of, cleanup_expired, ensure_entry,
  entry_bytes_of, make_room, store_in, store, accept, push_part, push, checked_add, lift,
}
use ppaass_ai.UdpTransport.Reassembly.Invariant.{
  IsValid, After, After-bind, After-mono, IsConsistent,
}
use ppaass_ai.UdpTransport.Header.Valid.{validate_iff}
use ppaass_ai.UdpTransport.Reassembly.Steps.{cleanup_expired-IsValid}
use ppaass_ai.UdpTransport.Reassembly.Entry.{Has, ensure_entry-IsValid}
use ppaass_ai.UdpTransport.Reassembly.Room.{Roomy, make_room-Roomy}
use ppaass_ai.UdpTransport.Reassembly.Store.{
  Checked, entry_bytes_of-Checked, store-Finished, Finished, CheckedBytes,
}

-- A result of `push`: a message has the length that the header declares.
abbrev pub Pushed : DecryptedUdpFragment → Option (List ℕ) → FragmentReassembler → Type 0
Pushed fragment none r = IsValid r
Pushed fragment (some message) r = IsValid r × (length message ≡ fragment.header.total_len)

validate-ne-inconsistent :
    (h : UdpPacketHeader) (s : String) → validate h ≢ err (inconsistent_reassembly_state s)
unfolding validate
validate-ne-inconsistent h s e = ground arith

validate_fragment-ne-inconsistent :
    (f : DecryptedUdpFragment) (s : String)
    → validate_fragment f ≢ err (inconsistent_reassembly_state s)
unfolding validate_fragment
validate_fragment-ne-inconsistent f s e = ground (arith, validate-ne-inconsistent f.header s)

IsConsistent-ne :
    (x : UdpTransportError) → ((s : String) → x ≢ inconsistent_reassembly_state s) → IsConsistent x
IsConsistent-ne (inconsistent_reassembly_state s) h = h s refl
IsConsistent-ne _ h = tt

-- The checks leave an index inside the fragments.
validate_fragment-inside :
    (f : DecryptedUdpFragment) (u : Unit {0})
    → validate_fragment f ≡ ok u
    → f.header.fragment_index < f.header.fragment_count
unfolding validate_fragment
validate_fragment-inside f u e =
    let (u', valid, more) = >>=-eq-ok (validate f.header) _ e in
    ((validate_iff f.header).0 valid).index_inside

module _ (fragment : DecryptedUdpFragment) (now : ℕ) where
  abbrev key : Key
  key = key_of fragment

  accept-Pushed :
      (checked : Option ℕ) (e : ReassemblyEntry) (r : FragmentReassembler)
      → fragment.header.fragment_index < fragment.header.fragment_count
      → IsValid r
      → lookup key r.entries ≡ some e
      → ((b : ℕ) → checked ≡ some b → Checked fragment e b)
      → After (Pushed fragment) (accept key fragment now checked r)
  unfolding accept
  accept-Pushed none e r inside v found c = v
  accept-Pushed (some b) e r inside v found c =
      After-bind (λ _ r'. Roomy key (length fragment.payload) r r') (Pushed fragment)
        (make_room (suc (length r.entries)) key (length fragment.payload)) _ r
        (make_room-Roomy key (length fragment.payload) (suc (length r.entries)) r v (omega arith))
        (λ u r' roomy. stored r' roomy (c b refl))
    where
      stored :
          (r' : FragmentReassembler)
          → Roomy key (length fragment.payload) r r'
          → Checked fragment e b
          → After
              (Pushed fragment)
              (store key fragment b now (checked_add r'.total_bytes (length fragment.payload)) r')
      stored r' roomy ck =
          elim (Bool-cases (ltb (r'.total_bytes + length fragment.payload) (2 ^ 64))) [
            | inr over ↦ unfold store in rw over (roomy.valid, tt)
            | inl small ↦
                let there : lookup key r'.entries ≡ some e = roomy.same_entry ∙ found in
                unfold store in
                rw (small, there)
                  (After-mono (Finished key fragment b now e ck (v.entries key e found) inside)
                    (Pushed fragment)
                    (store_in key fragment b now (r'.total_bytes + length fragment.payload) (some e)
                      r')
                    (finished-Pushed ck)
                    (store-Finished key fragment b now e ck (v.entries key e found) inside r'
                      roomy.valid there roomy.fits))
          ]
        where
          finished-Pushed :
              (k : Checked fragment e b) (o : Option (List ℕ)) (s : FragmentReassembler)
              → Finished key fragment b now e k (v.entries key e found) inside o s
              → Pushed fragment o s
          finished-Pushed k none s h = h
          finished-Pushed k (some m) s (h, l) = (h, l ∙ k.same_len)

  checked-Pushed :
      (e : ReassemblyEntry) (r : FragmentReassembler)
      → fragment.header.fragment_index < fragment.header.fragment_count
      → IsValid r
      → lookup key r.entries ≡ some e
      → (res : UdpTransportResult (Option ℕ)) → CheckedBytes fragment e res
      → After (Pushed fragment) ((lift res >>= accept key fragment now) r)
  checked-Pushed e r inside v found (ok none) c = accept-Pushed none e r inside v found (λ b eq. cc)
  checked-Pushed e r inside v found (ok (some b)) c =
      accept-Pushed (some b) e r inside v found (λ b' eq. subst (Checked fragment e) (cc eq) c)
  checked-Pushed e r inside v found (err x) c = (v, c)

  push_part-Pushed :
      (r : FragmentReassembler)
      → fragment.header.fragment_index < fragment.header.fragment_count
      → IsValid r
      → After (Pushed fragment) (push_part fragment now r)
  unfolding push_part
  push_part-Pushed r inside v =
      After-bind (λ _ r1. IsValid r1 × (r1.config ≡ r.config)) (Pushed fragment)
        (cleanup_expired now) _ r (cleanup_expired-IsValid now r v)
        (λ n r1 (v1, same).
          After-bind (λ _ r2. IsValid r2 × Has key r2 × (r2.config ≡ r1.config)) (Pushed fragment)
            (ensure_entry key fragment now (lookup key r1.entries)) _ r1
            (ensure_entry-IsValid key fragment now (omega (arith, inside)) r1 v1)
            (λ u r2 (v2, (e, found), same2). checked r2 v2 e found))
    where
      checked :
          (r2 : FragmentReassembler)
          → IsValid r2
          → (e : ReassemblyEntry) → lookup key r2.entries ≡ some e
          → After (Pushed fragment) (
              (lift (entry_bytes_of r2.config fragment (lookup key r2.entries))
                  >>= accept key fragment now)
                r2)
      checked r2 v2 e found = rw found (
          checked-Pushed e r2 inside v2 found (entry_bytes_of r2.config fragment (some e))
            (entry_bytes_of-Checked r2.config fragment e))

  -- From every valid state, `push` ends, leaves a valid state whether it succeeds or fails, never
  -- reports an inconsistent reassembly state, and a message it completes has the declared length.
  pub push-Pushed :
      (r : FragmentReassembler) → IsValid r → After (Pushed fragment) (push fragment now r)
  unfolding push
  push-Pushed r v = checked_first (validate_fragment fragment) refl
    where
      checked_first :
          (res : UdpTransportResult (Unit {0}))
          → validate_fragment fragment ≡ res
          → After (Pushed fragment) (
              (lift res
                  >> (if fragment.header.fragment_count == 1
                      then lift (
                          if length fragment.payload == fragment.header.total_len
                          then ok (some fragment.payload)
                          else err
                              (invalid_header "single fragment length does not match total_len"))
                      else push_part fragment now))
                r)
      checked_first (err x) e = (
        v,
        IsConsistent-ne x (λ s p. validate_fragment-ne-inconsistent fragment s (e ∙ ap err p)),
      )
      checked_first (ok u) e = elim (Bool-cases (fragment.header.fragment_count == 1)) [
        | inr several ↦ rw several (push_part-Pushed r (validate_fragment-inside fragment u e) v)
        | inl single ↦
            rw single (elim (Bool-cases (length fragment.payload == fragment.header.total_len)) [
              | inl fits ↦ rw fits (v, (==_iff _ _).0 fits)
              | inr wrong ↦ rw wrong (v, tt)
            ])
      ]
