-- ===== src/UdpTransport/Reassembly/Room.antt =====
-- The loop of protocol/src/udp_transport/reassembly.rs that evicts entries until a fragment fits.
use ppaass_ai.Base.{
  ℕ, zero, suc, ◌+◌, ◌^◌, ◌≤◌, ◌<◌, ◌≡◌, refl, ◌∙◌, Option, none, some, arith, inl, inr, Bool-cases,
  ltb, leb, length,
}
use ppaass_ai.Base.Assoc.{lookup, tagged_eq, beq_refl}
use ppaass_ai.UdpTransport.{reassembly_limit}
use ppaass_ai.UdpTransport.Reassembly.{
  Key, FragmentReassembler, ◌>>◌, is_except, evict_oldest_except, evicted_or, room_round, make_room,
}
use ppaass_ai.UdpTransport.Reassembly.Invariant.{IsValid, After, After-bind, After-mono}
use ppaass_ai.UdpTransport.Reassembly.Steps.{Evicted, evict_oldest_except-Evicted}

-- The fragment fits, and the entry of its key is as it was.
pub record Roomy (key : Key) (len : ℕ) (r r' : FragmentReassembler) : Type 0 where
  pub valid : IsValid r'
  pub config : r'.config ≡ r.config
  pub same_entry : lookup key r'.entries ≡ lookup key r.entries
  pub fits : r'.total_bytes + len ≤ r'.config.max_total_bytes

Roomy-trans :
    (key : Key) (len : ℕ) (a b c : FragmentReassembler)
    → b.config ≡ a.config
    → lookup key b.entries ≡ lookup key a.entries
    → Roomy key len b c
    → Roomy key len a c
Roomy-trans key len a b c e f h = record {
  valid = h.valid;
  config = h.config ∙ e;
  same_entry = h.same_entry ∙ f;
  fits = h.fits;
}

module _ (key : Key) (len : ℕ) where
  -- `make_room` ends within fuel for one round more than there are entries.
  pub make_room-Roomy :
      (fuel : ℕ) (r : FragmentReassembler)
      → IsValid r
      → length r.entries < fuel
      → After (λ _ r'. Roomy key len r r') (make_room fuel key len r)
  unfolding make_room room_round
  make_room-Roomy zero r v h = absurd (omega arith)
  make_room-Roomy (suc fuel) r v h = elim (Bool-cases (ltb (r.total_bytes + len) (2 ^ 64))) [
    | inr over ↦ rw over (v, tt)
    | inl small ↦ elim (Bool-cases (leb (r.total_bytes + len) r.config.max_total_bytes)) [
      | inl done ↦
          rw (small, done)
            (record { valid = v; config = refl; same_entry = refl; fits = ground arith })
      | inr more ↦
          rw (small, more)
            (After-bind (Evicted (some key) r) (λ (_ : Unit {0}) r'. Roomy key len r r')
              (evict_oldest_except (some key)) _ r (evict_oldest_except-Evicted (some key) r v)
              (λ o r1 ev. next_round fuel (make_room-Roomy fuel) o r r1 h ev))
    ]
  ]
    where
      next_round :
          (f : ℕ)
          → ((s : FragmentReassembler)
              → IsValid s
              → length s.entries < f
              → After (λ _ r'. Roomy key len s r') (make_room f key len s))
          → (o : Option Key) (r0 r1 : FragmentReassembler) → length r0.entries < suc f
          → Evicted (some key) r0 o r1
          → After
              (λ (_ : Unit {0}) r'. Roomy key len r0 r')
              ((evicted_or (reassembly_limit "maximum buffered fragment bytes reached") o
                  >> make_room f key len)
                r1)
      next_round f ih none r0 r1 lt ev = (ev.valid, tt)
      next_round f ih (some k) r0 r1 lt ev =
          unfold evicted_or in
          After-mono (λ _ r'. Roomy key len r1 r') (λ _ r'. Roomy key len r0 r')
            (make_room f key len r1)
            (λ _ r'.
              Roomy-trans key len r0 r1 r' ev.config
                (ev.kept key (unfold is_except in beq_refl key)))
            (ih r1 ev.valid (omega (arith, ev.fewer (λ e. cc))))
