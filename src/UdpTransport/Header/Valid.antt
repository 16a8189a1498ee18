-- ===== src/UdpTransport/Header/Valid.antt =====
-- What `validate` of protocol/src/udp_transport/header.rs accepts, field by field.
use ppaass_ai.Base.{◌*◌, ◌≤◌, ◌<◌, max, ◌≡◌, ◌↔◌, arith, bytes_eq_iff}
use ppaass_ai.Base.Result.{ok}
use ppaass_ai.UdpTransport.{udp_transport_magic, udp_transport_version}
use ppaass_ai.UdpTransport.Header.{
  UdpPacketKind, auth_init, auth_ok, encrypted, UdpPacketHeader, validate,
}

-- The part that depends on the kind of packet.
abbrev pub FitsKind : UdpPacketKind → UdpPacketHeader → Type 0
FitsKind encrypted h = (h.total_len ≤ 71680) × (h.total_len ≤ h.fragment_count * 1289)
FitsKind _ h =
    (h.total_len ≤ 1305)
    × (h.seq ≡ 0)
    × (h.message_id ≡ 0)
    × (h.fragment_index ≡ 0)
    × (h.fragment_count ≡ 1)

pub record IsValid (h : UdpPacketHeader) : Type 0 where
  pub magic : h.magic ≡ udp_transport_magic
  pub version : h.version ≡ udp_transport_version
  pub fits : FitsKind h.kind h
  pub few_fragments : h.fragment_count ≤ 64
  pub index_inside : h.fragment_index < h.fragment_count
  pub no_spare_fragment : h.fragment_count ≤ max 1 h.total_len

-- Both directions for each kind, which `validate` looks at.
validate_sound :
    (k : UdpPacketKind) (h : UdpPacketHeader)
    → validate (record h { kind = k }) ≡ ok tt
    → IsValid (record h { kind = k })
unfolding validate
validate_sound auth_init h v = ground (arith, bytes_eq_iff h.magic udp_transport_magic)
validate_sound auth_ok h v = ground (arith, bytes_eq_iff h.magic udp_transport_magic)
validate_sound encrypted h v = ground (arith, bytes_eq_iff h.magic udp_transport_magic)

validate_complete :
    (k : UdpPacketKind) (h : UdpPacketHeader)
    → IsValid (record h { kind = k })
    → validate (record h { kind = k }) ≡ ok tt
unfolding validate
validate_complete auth_init h v = ground (arith, bytes_eq_iff h.magic udp_transport_magic, v.fits)
validate_complete auth_ok h v = ground (arith, bytes_eq_iff h.magic udp_transport_magic, v.fits)
validate_complete encrypted h v = ground (arith, bytes_eq_iff h.magic udp_transport_magic, v.fits)

-- `validate` accepts a header exactly when it is valid.
pub validate_iff : (h : UdpPacketHeader) → (validate h ≡ ok tt) ↔ IsValid h
validate_iff h = (validate_sound h.kind h, validate_complete h.kind h)
