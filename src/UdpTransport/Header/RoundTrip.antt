-- ===== src/UdpTransport/Header/RoundTrip.antt =====
-- `encode` and `decode` of protocol/src/udp_transport/header.rs against one another.
use ppaass_ai.Base.{
  ℕ, zero, suc, ◌+◌, ◌^◌, ◌≤◌, ◌<◌, ◌≡◌, refl, sym, ap, ◌∙◌, List, [], ◌∷◌, ◌++◌, append_assoc,
  arith, ltb, length, get_or, take, drop, length-append, take-append, drop-append, take_split,
  length-take, length-drop, get_or-append,
}
use ppaass_ai.Base.Bytes.{
  AreBytes, to_be_bytes, from_be_bytes, length-to_be_bytes, from_be_bytes-to_be_bytes,
  to_be_bytes-from_be_bytes,
}
use ppaass_ai.Base.Result.{ok, ◌>>=◌, fail_if, >>=-eq-ok}
use ppaass_ai.UdpTransport.Header.{
  UdpPacketKind, auth_init, auth_ok, encrypted, kind_code, try_from, UdpPacketHeader, IsHeader,
  validate, header_bytes, encode, read_header_field, read_fields, decode,
}

try_from-kind_code : (k : UdpPacketKind) → try_from (kind_code k) ≡ ok k
unfolding try_from kind_code
try_from-kind_code auth_init = refl
try_from-kind_code auth_ok = refl
try_from-kind_code encrypted = refl

kind_code-try_from : (b : ℕ) (k : UdpPacketKind) → try_from b ≡ ok k → kind_code k ≡ b
unfolding try_from kind_code
kind_code-try_from b auth_init e = ground arith
kind_code-try_from b auth_ok e = ground arith
kind_code-try_from b encrypted e = ground arith

-- A field that stands behind `before` is read back.
read_header_field-append :
    (before field after : List ℕ) (n start : ℕ)
    → length before ≡ start
    → length field ≡ n
    → start + n < 2 ^ 64
    → read_header_field n (before ++ (field ++ after)) start ≡ ok field
unfolding read_header_field
read_header_field-append before field after n start hs hn small =
    let total : length (before ++ (field ++ after)) ≡ start + n + length after =
      omega (arith, length-append before (field ++ after), length-append field after) in
    let slice : take n (drop start (before ++ (field ++ after))) ≡ field =
      rw (← hs, ← hn, drop-append before (field ++ after)) (take-append field after) in
    ground (arith, total, slice)

-- The fields that stand in `bytes`, read one by one.
record FieldsAt (bytes : List ℕ) (h : UdpPacketHeader) : Type 0 where
  magic : read_header_field 4 bytes 0 ≡ ok h.magic
  version : get_or bytes 4 0 ≡ h.version
  kind : get_or bytes 5 0 ≡ kind_code h.kind
  session_id : read_header_field 16 bytes 6 ≡ ok h.session_id
  seq : read_header_field 8 bytes 22 ≡ ok (to_be_bytes 8 h.seq)
  message_id : read_header_field 8 bytes 30 ≡ ok (to_be_bytes 8 h.message_id)
  fragment_index : read_header_field 2 bytes 38 ≡ ok (to_be_bytes 2 h.fragment_index)
  fragment_count : read_header_field 2 bytes 40 ≡ ok (to_be_bytes 2 h.fragment_count)
  total_len : read_header_field 4 bytes 42 ≡ ok (to_be_bytes 4 h.total_len)

read_fields-FieldsAt :
    (bytes : List ℕ) (h : UdpPacketHeader)
    → IsHeader h
    → FieldsAt bytes h
    → read_fields bytes ≡ ok h
unfolding read_fields
read_fields-FieldsAt bytes h t f = rw (
  f.magic,
  f.version,
  f.kind,
  try_from-kind_code h.kind,
  f.session_id,
  f.seq,
  f.message_id,
  f.fragment_index,
  f.fragment_count,
  f.total_len,
  from_be_bytes-to_be_bytes 8 h.seq (omega (arith, t.seq)),
  from_be_bytes-to_be_bytes 8 h.message_id (omega (arith, t.message_id)),
  from_be_bytes-to_be_bytes 2 h.fragment_index (omega (arith, t.fragment_index)),
  from_be_bytes-to_be_bytes 2 h.fragment_count (omega (arith, t.fragment_count)),
  from_be_bytes-to_be_bytes 4 h.total_len (omega (arith, t.total_len)),
)

-- The same for bytes that are `before`, the field and the rest.
read_at :
    (bytes before field after : List ℕ) (n start : ℕ)
    → bytes ≡ before ++ (field ++ after)
    → length before ≡ start
    → length field ≡ n
    → start + n < 2 ^ 64
    → read_header_field n bytes start ≡ ok field
read_at bytes before field after n start e hs hn small =
    rw e (read_header_field-append before field after n start hs hn small)

byte_at :
    (bytes before after : List ℕ) (b k : ℕ)
    → bytes ≡ before ++ (b ∷ after)
    → length before ≡ k
    → get_or bytes k 0 ≡ b
byte_at bytes before after b k e hk = rw (e, ← hk) (get_or-append before after b 0)

module _ (h : UdpPacketHeader) (t : IsHeader h) (rest : List ℕ) where
  header_bytes-FieldsAt : FieldsAt (header_bytes h ++ rest) h
  unfolding header_bytes
  header_bytes-FieldsAt =
      let bytes : List ℕ = header_bytes h ++ rest in
      let count_rest : List ℕ = to_be_bytes 2 h.fragment_count ++ to_be_bytes 4 h.total_len in
      let index_rest : List ℕ = to_be_bytes 2 h.fragment_index ++ count_rest in
      let message_rest : List ℕ = to_be_bytes 8 h.message_id ++ index_rest in
      let seq_rest : List ℕ = to_be_bytes 8 h.seq ++ message_rest in
      let kind_rest : List ℕ = h.session_id ++ seq_rest in
      let p1 : List ℕ = h.magic ++ (h.version ∷ kind_code h.kind ∷ []) in
      let p2 : List ℕ = p1 ++ h.session_id in
      let p3 : List ℕ = p2 ++ to_be_bytes 8 h.seq in
      let p4 : List ℕ = p3 ++ to_be_bytes 8 h.message_id in
      let p5 : List ℕ = p4 ++ to_be_bytes 2 h.fragment_index in
      let p6 : List ℕ = p5 ++ to_be_bytes 2 h.fragment_count in
      let l1 : length p1 ≡ 6 =
        omega (arith, length-append h.magic (h.version ∷ kind_code h.kind ∷ []), t.magic) in
      let l2 : length p2 ≡ 22 = omega (arith, length-append p1 h.session_id, t.session_id) in
      let l3 : length p3 ≡ 30 =
        omega (arith, length-append p2 (to_be_bytes 8 h.seq), length-to_be_bytes 8 h.seq) in
      let l4 : length p4 ≡ 38 =
        omega (
          arith,
          length-append p3 (to_be_bytes 8 h.message_id),
          length-to_be_bytes 8 h.message_id,
        ) in
      let l5 : length p5 ≡ 40 = omega (
        arith,
        length-append p4 (to_be_bytes 2 h.fragment_index),
        length-to_be_bytes 2 h.fragment_index,
      ) in
      let l6 : length p6 ≡ 42 = omega (
        arith,
        length-append p5 (to_be_bytes 2 h.fragment_count),
        length-to_be_bytes 2 h.fragment_count,
      ) in
      record {
        magic =
            read_at bytes [] h.magic _ 4 0 (append_assoc h.magic _ rest) refl t.magic (omega arith);
        version = byte_at bytes h.magic _ h.version 4 (append_assoc h.magic _ rest) t.magic;
        kind =
            byte_at bytes (h.magic ++ (h.version ∷ [])) (kind_rest ++ rest) (kind_code h.kind) 5
              (simp append_assoc) (omega (arith, length-append h.magic (h.version ∷ []), t.magic));
        session_id =
            read_at bytes p1 h.session_id (seq_rest ++ rest) 16 6 (simp append_assoc) l1
              t.session_id (omega arith);
        seq =
            read_at bytes p2 (to_be_bytes 8 h.seq) (message_rest ++ rest) 8 22 (simp append_assoc)
              l2 (length-to_be_bytes 8 h.seq) (omega arith);
        message_id =
            read_at bytes p3 (to_be_bytes 8 h.message_id) (index_rest ++ rest) 8 30
              (simp append_assoc) l3 (length-to_be_bytes 8 h.message_id) (omega arith);
        fragment_index =
            read_at bytes p4 (to_be_bytes 2 h.fragment_index) (count_rest ++ rest) 2 38
              (simp append_assoc) l4 (length-to_be_bytes 2 h.fragment_index) (omega arith);
        fragment_count =
            read_at bytes p5 (to_be_bytes 2 h.fragment_count) (to_be_bytes 4 h.total_len ++ rest) 2
              40 (simp append_assoc) l5 (length-to_be_bytes 2 h.fragment_count) (omega arith);
        total_len =
            read_at bytes p6 (to_be_bytes 4 h.total_len) rest 4 42 (simp append_assoc) l6
              (length-to_be_bytes 4 h.total_len) (omega arith);
      }

pub length-header_bytes : (h : UdpPacketHeader) → IsHeader h → length (header_bytes h) ≡ 46
unfolding header_bytes
length-header_bytes h t = omega (arith, length-append {0}, length-to_be_bytes)

-- Decoding an encoded header whose fields are in the ranges of their types, whatever bytes follow
-- it, gives the header.
pub decode-encode :
    (h : UdpPacketHeader) (bytes rest : List ℕ)
    → IsHeader h
    → encode h ≡ ok bytes
    → decode (bytes ++ rest) ≡ ok h
unfolding encode decode
decode-encode h bytes rest t e =
    let (u, valid, same) = >>=-eq-ok (validate h) (λ _. ok (header_bytes h)) e in
    let written : header_bytes h ≡ bytes = cc same in
    let long : length (header_bytes h ++ rest) ≡ 46 + length rest =
      omega (arith, length-append (header_bytes h) rest, length-header_bytes h t) in
    rw
      (
        ← written,
        read_fields-FieldsAt (header_bytes h ++ rest) h t (header_bytes-FieldsAt h t rest),
        valid,
      )
      (ground (arith, long))

-- A field inside the bytes is their slice.
read_inside :
    (n start : ℕ) (bytes : List ℕ)
    → start + n ≤ length bytes
    → start + n < 2 ^ 64
    → read_header_field n bytes start ≡ ok (take n (drop start bytes))
unfolding read_header_field
read_inside n start bytes room small = ground arith

-- Two single bytes as a slice.
two_bytes :
    (bytes : List ℕ)
    → 6 ≤ length bytes
    → take 2 (drop 4 bytes) ≡ get_or bytes 4 0 ∷ get_or bytes 5 0 ∷ []
two_bytes (a ∷ b ∷ c ∷ d ∷ e ∷ f ∷ r) h = refl
two_bytes _ h = absurd (omega arith)

All-take : (n : ℕ) (xs : List ℕ) → AreBytes xs → AreBytes (take n xs)
All-take zero xs h = tt
All-take (suc n) [] h = tt
All-take (suc n) (x ∷ xs) h = (h.0, All-take n xs h.1)

All-drop : (n : ℕ) (xs : List ℕ) → AreBytes xs → AreBytes (drop n xs)
All-drop zero xs h = h
All-drop (suc n) [] h = tt
All-drop (suc n) (x ∷ xs) h = All-drop n xs h.1

-- A number read from a slice and written again is the slice.
rewritten :
    (n start : ℕ) (bytes : List ℕ)
    → AreBytes bytes
    → start + n ≤ length bytes
    → to_be_bytes n (from_be_bytes (take n (drop start bytes))) ≡ take n (drop start bytes)
rewritten n start bytes h room =
    let slice : List ℕ = take n (drop start bytes) in
    let size : length slice ≡ n =
      omega (arith, length-take n (drop start bytes), length-drop start bytes) in
    ap (λ (k : ℕ). to_be_bytes k (from_be_bytes slice)) (sym size)
    ∙ to_be_bytes-from_be_bytes slice (All-take n (drop start bytes) (All-drop start bytes h))

-- The first 46 bytes as the slices of the fields.
slices :
    (bytes : List ℕ)
    → take 46 bytes
      ≡ take 4 (drop 0 bytes)
        ++ (take 2 (drop 4 bytes)
            ++ (take 16 (drop 6 bytes)
                ++ (take 8 (drop 22 bytes)
                    ++ (take 8 (drop 30 bytes)
                        ++ (take 2 (drop 38 bytes)
                            ++ (take 2 (drop 40 bytes) ++ take 4 (drop 42 bytes)))))))
slices bytes = rw (
  take_split 4 42 0 bytes,
  take_split 2 40 4 bytes,
  take_split 16 24 6 bytes,
  take_split 8 16 22 bytes,
  take_split 8 8 30 bytes,
  take_split 2 6 38 bytes,
  take_split 2 4 40 bytes,
)

-- The header that long enough bytes hold, but for its kind.
sliced : List ℕ → UdpPacketKind → UdpPacketHeader
sliced bytes kind = record {
  magic = take 4 (drop 0 bytes);
  version = get_or bytes 4 0;
  kind = kind;
  session_id = take 16 (drop 6 bytes);
  seq = from_be_bytes (take 8 (drop 22 bytes));
  message_id = from_be_bytes (take 8 (drop 30 bytes));
  fragment_index = from_be_bytes (take 2 (drop 38 bytes));
  fragment_count = from_be_bytes (take 2 (drop 40 bytes));
  total_len = from_be_bytes (take 4 (drop 42 bytes));
}

module _ (bytes : List ℕ) (long : 46 ≤ length bytes) where
  read_fields-sliced :
      read_fields bytes ≡ (try_from (get_or bytes 5 0) >>= λ kind. ok (sliced bytes kind))
  unfolding read_fields sliced
  read_fields-sliced = rw (
    read_inside 4 0 bytes (omega arith) (omega arith),
    read_inside 16 6 bytes (omega arith) (omega arith),
    read_inside 8 22 bytes (omega arith) (omega arith),
    read_inside 8 30 bytes (omega arith) (omega arith),
    read_inside 2 38 bytes (omega arith) (omega arith),
    read_inside 2 40 bytes (omega arith) (omega arith),
    read_inside 4 42 bytes (omega arith) (omega arith),
  )

  header_bytes-sliced :
      (kind : UdpPacketKind)
      → AreBytes bytes
      → kind_code kind ≡ get_or bytes 5 0
      → header_bytes (sliced bytes kind) ≡ take 46 bytes
  unfolding header_bytes sliced
  header_bytes-sliced kind b code = rw (
    slices bytes,
    code,
    two_bytes bytes (omega arith),
    rewritten 8 22 bytes b (omega arith),
    rewritten 8 30 bytes b (omega arith),
    rewritten 2 38 bytes b (omega arith),
    rewritten 2 40 bytes b (omega arith),
    rewritten 4 42 bytes b (omega arith),
  )

-- Encoding a header that was decoded from a list of bytes gives the first 46 of these bytes.
pub encode-decode :
    (bytes : List ℕ) (h : UdpPacketHeader)
    → AreBytes bytes
    → decode bytes ≡ ok h
    → encode h ≡ ok (take 46 bytes)
unfolding encode decode
encode-decode bytes h b e =
    let (u, room, e1) = >>=-eq-ok (fail_if (ltb (length bytes) 46) _) _ e in
    let long : 46 ≤ length bytes = ground arith in
    let (h1, read, e2) = >>=-eq-ok (read_fields bytes) _ e1 in
    let (u2, valid, e3) = >>=-eq-ok (validate h1) _ e2 in
    let (kind, tried, e4) =
      >>=-eq-ok (try_from (get_or bytes 5 0)) _ (sym (read_fields-sliced bytes long) ∙ read) in
    let whole : header_bytes h ≡ take 46 bytes =
      ap header_bytes (cc (e3, e4))
      ∙ header_bytes-sliced bytes long kind b (kind_code-try_from (get_or bytes 5 0) kind tried) in
    let same : h1 ≡ h = cc e3 in
    let fine : validate h ≡ ok tt = ap validate (sym same) ∙ valid in rw (fine, whole)
