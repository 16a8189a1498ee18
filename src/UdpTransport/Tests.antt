-- ===== src/UdpTransport/Tests.antt =====
-- The theorems about protocol/src/udp_transport at concrete inputs, and runs of the definitions.
pub mod Session
use ppaass_ai.Base.{
  ℕ, ◌≡◌, refl, ◌↔◌, ◌++◌, true, false, List, [], ◌∷◌, IsDistinct, arith, replicate,
}
use ppaass_ai.Base.Bytes.{AreBytes, to_be_bytes}
use ppaass_ai.Base.Result.{ok}
use ppaass_ai.UdpTransport.{udp_transport_magic}
use ppaass_ai.UdpTransport.Fragment.{DecryptedUdpFragment}
use ppaass_ai.UdpTransport.Header
use ppaass_ai.UdpTransport.Header.{
  UdpPacketHeader, encrypted, IsHeader, encode, decode, validate, header_bytes,
}
use ppaass_ai.UdpTransport.Header.Valid
use ppaass_ai.UdpTransport.Header.Valid.{validate_iff}
use ppaass_ai.UdpTransport.Header.RoundTrip.{decode-encode, encode-decode}
use ppaass_ai.UdpTransport.Replay
use ppaass_ai.UdpTransport.Replay.{may_accept, commit, shift_older, set_bit}
use ppaass_ai.UdpTransport.Replay.Bitmap.{marked, IsBitmap-replicate, marked-shift_older}
use ppaass_ai.UdpTransport.Replay.History.{
  Represents-new, commit-Represents, may_accept-fresh, commit_all, commit_all-new, committed,
  committed-new-IsDistinct,
}
use ppaass_ai.UdpTransport.Reassembly.{
  FragmentReassembler, new, default_config, from_valid_config, push,
}
use ppaass_ai.UdpTransport.Reassembly.Invariant.{After}
use ppaass_ai.UdpTransport.Reassembly.Bounds.{Pushed, push-Pushed}
use ppaass_ai.UdpTransport.Reassembly.Runs.{received, swept, Ends, run, new-IsValid, run-new-Ends}

abbrev session : List ℕ
session = replicate 16 7

-- A fragment of a message of four bytes in two parts.
abbrev part_header : ℕ → UdpPacketHeader
part_header index = record {
  magic = udp_transport_magic;
  version = 1;
  kind = encrypted;
  session_id = session;
  seq = 300;
  message_id = 9;
  fragment_index = index;
  fragment_count = 2;
  total_len = 4;
}

abbrev part : ℕ → List ℕ → DecryptedUdpFragment
part index payload = record { header = part_header index; payload = payload }

abbrev idle : FragmentReassembler
idle = from_valid_config default_config

part_header-IsHeader : IsHeader (part_header 1)
part_header-IsHeader = record {
  magic = refl;
  magic_bytes = ground arith;
  version = omega arith;
  session_id = refl;
  session_bytes = ground arith;
  seq = omega arith;
  message_id = omega arith;
  fragment_index = omega arith;
  fragment_count = omega arith;
  total_len = omega arith;
}

abbrev part_bytes : List ℕ
part_bytes =
    80 ∷ 85 ∷ 68 ∷ 80 ∷ 1 ∷ 3 ∷ session
    ++ replicate 6 0
    ++ 1 ∷ 44 ∷ replicate 7 0
    ++ 9 ∷ 0 ∷ 1 ∷ 0 ∷ 2 ∷ 0 ∷ 0 ∷ 0 ∷ 4 ∷ []

part_bytes-AreBytes : AreBytes (part_bytes ++ 3 ∷ 4 ∷ [])
part_bytes-AreBytes = ground arith

start : new default_config ≡ ok idle
unfolding new
start = refl

encode_part : encode (part_header 1) ≡ ok part_bytes
unfolding encode validate header_bytes to_be_bytes Header.kind_code
encode_part = refl

run-new-Ends_example : Ends (
    run
      (received (part 1 (3 ∷ 4 ∷ [])) 10 ∷ swept 11 ∷ received (part 0 (1 ∷ 2 ∷ [])) 12 ∷ [])
      idle)
run-new-Ends_example =
    run-new-Ends default_config idle
      (received (part 1 (3 ∷ 4 ∷ [])) 10 ∷ swept 11 ∷ received (part 0 (1 ∷ 2 ∷ [])) 12 ∷ []) start

push-Pushed_example : After (Pushed (part 1 (3 ∷ 4 ∷ []))) (push (part 1 (3 ∷ 4 ∷ [])) 10 idle)
push-Pushed_example =
    push-Pushed (part 1 (3 ∷ 4 ∷ [])) 10 idle (new-IsValid default_config idle start)

commit_all-new_example :
    commit_all Replay.new (5 ∷ 9 ∷ 5 ∷ 6000 ∷ 9 ∷ []) ≡ true ∷ true ∷ false ∷ true ∷ false ∷ []
commit_all-new_example = commit_all-new (5 ∷ 9 ∷ 5 ∷ 6000 ∷ 9 ∷ [])

committed-new-IsDistinct_example : IsDistinct (committed Replay.new [] (5 ∷ 9 ∷ 5 ∷ []))
committed-new-IsDistinct_example = committed-new-IsDistinct (5 ∷ 9 ∷ 5 ∷ [])

may_accept-fresh_example : may_accept (commit Replay.new 5).0 5 ≡ false
may_accept-fresh_example =
    may_accept-fresh (commit Replay.new 5).0 (5 ∷ []) 5
      (commit-Represents Replay.new [] 5 Represents-new).1

marked-shift_older_example : marked (shift_older (replicate 64 0) 70) 3 ≡ 0
marked-shift_older_example =
    marked-shift_older (replicate 64 0) 70 3 IsBitmap-replicate (omega arith)

validate_iff_example : (validate (part_header 1) ≡ ok tt) ↔ Valid.IsValid (part_header 1)
validate_iff_example = validate_iff (part_header 1)

decode-encode_example : decode (part_bytes ++ 3 ∷ 4 ∷ []) ≡ ok (part_header 1)
decode-encode_example =
    decode-encode (part_header 1) part_bytes (3 ∷ 4 ∷ []) part_header-IsHeader encode_part

encode-decode_example : encode (part_header 1) ≡ ok part_bytes
encode-decode_example =
    encode-decode (part_bytes ++ 3 ∷ 4 ∷ []) (part_header 1) part_bytes-AreBytes
      decode-encode_example
