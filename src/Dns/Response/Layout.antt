-- ===== src/Dns/Response/Layout.antt =====
-- Responses as RFC 1035 lays them out, for parse_dns_response of
-- desktop-agent-be/src/tun_handler/dns_proxy/parser.rs.
use ppaass_ai.Base.{
  ℕ, zero, suc, ◌+◌, ◌-◌, ◌^◌, ◌<◌, ◌≤◌, ◌≡◌, sym, ap, ◌∙◌, true, ◌&&◌, Option, some, List, [], ◌∷◌,
  ◌++◌, length, length-append, drop, take-append, drop-append, leb, arith, append_assoc,
}
use ppaass_ai.Base.Bytes.{to_be_bytes, from_be_bytes-to_be_bytes, length-to_be_bytes}
use ppaass_ai.Dns.{slice}
use ppaass_ai.Dns.RoundTrip.{IsNameAt}
use ppaass_ai.Dns.Response.{Printing, parse_dns_answer_rdata, read_u16, read_u32}

-- These bytes stand at this offset.
pub record Stands (packet : List ℕ) (offset : ℕ) (bytes : List ℕ) : Type 0 where
  pub pre : List ℕ
  pub rest : List ℕ
  pub whole : packet ≡ pre ++ (bytes ++ rest)
  pub start : offset ≡ length pre

pub Stands-first :
    (packet : List ℕ) (offset : ℕ) (xs ys : List ℕ)
    → Stands packet offset (xs ++ ys)
    → Stands packet offset xs
Stands-first packet offset xs ys s = record {
  pre = s.pre;
  rest = ys ++ s.rest;
  whole = s.whole ∙ ap (λ (t : List ℕ). s.pre ++ t) (append_assoc xs ys s.rest);
  start = s.start;
}

pub Stands-next :
    (packet : List ℕ) (offset : ℕ) (xs ys : List ℕ) (next : ℕ)
    → next ≡ offset + length xs
    → Stands packet offset (xs ++ ys)
    → Stands packet next ys
Stands-next packet offset xs ys next size s = record {
  pre = s.pre ++ xs;
  rest = s.rest;
  whole =
      s.whole
      ∙ ap (λ (t : List ℕ). s.pre ++ t) (append_assoc xs ys s.rest)
      ∙ sym (append_assoc s.pre xs (ys ++ s.rest));
  start = omega (arith, s.start, size, length-append s.pre xs);
}

pub Stands-inside :
    (packet : List ℕ) (offset : ℕ) (xs : List ℕ)
    → Stands packet offset xs
    → offset + length xs ≤ length packet
Stands-inside packet offset xs s =
    omega (
      arith,
      s.start,
      ap length s.whole,
      length-append s.pre (xs ++ s.rest),
      length-append xs s.rest,
    )

pub slice-Stands :
    (packet : List ℕ) (offset : ℕ) (xs : List ℕ) (n : ℕ)
    → length xs ≡ n
    → Stands packet offset xs
    → slice packet offset (offset + n) ≡ some xs
slice-Stands packet offset xs n size s =
    let fits : (leb offset (offset + n) && leb (offset + n) (length packet)) ≡ true =
      ground (arith, Stands-inside packet offset xs s, size) in
    let behind : drop offset packet ≡ xs ++ s.rest =
      rw (s.start, s.whole) (drop-append s.pre (xs ++ s.rest)) in
    let many : offset + n - offset ≡ length xs = omega (arith, size) in
    rw fits (rw (many, behind) (ap some (take-append xs s.rest)))

pub read_u16-Stands :
    (packet : List ℕ) (offset v : ℕ)
    → v < 2 ^ 16
    → Stands packet offset (to_be_bytes 2 v)
    → read_u16 packet offset ≡ some v
unfolding read_u16
read_u16-Stands packet offset v small s =
    rw (slice-Stands packet offset (to_be_bytes 2 v) 2 (length-to_be_bytes 2 v) s)
      (ap some (from_be_bytes-to_be_bytes 2 v small))

pub read_u32-Stands :
    (packet : List ℕ) (offset v : ℕ)
    → v < 2 ^ 32
    → Stands packet offset (to_be_bytes 4 v)
    → read_u32 packet offset ≡ some v
unfolding read_u32
read_u32-Stands packet offset v small s =
    rw (slice-Stands packet offset (to_be_bytes 4 v) 4 (length-to_be_bytes 4 v) s)
      (ap some (from_be_bytes-to_be_bytes 4 v small))

-- A record: its time to live, and its text if it has one.
abbrev pub Records : Type 0
Records = List (ℕ × Option (List ℕ))

pub record IsQuestionAt (packet : List ℕ) (start end : ℕ) : Type 0 where
  pub jumps : ℕ
  pub labels : List (List ℕ)
  pub after_name : ℕ
  pub name : IsNameAt packet jumps start labels after_name
  pub few : jumps ≤ 16
  pub ends : end ≡ after_name + 4
  pub inside : end ≤ length packet

-- So many questions, one behind the other.
unfoldable pub AreQuestions : List ℕ → ℕ → ℕ → ℕ → Type 0
AreQuestions packet zero start end = start ≡ end
AreQuestions packet (suc n) start end =
    (next : ℕ) × IsQuestionAt packet start next × AreQuestions packet n next end

-- A name, then the type, the class, the time to live, the length of the data and the data.
pub record IsRecordAt (printing : Printing) (packet : List ℕ) (start ttl : ℕ)
    (text : Option (List ℕ)) (end : ℕ) : Type 0 where
  pub jumps : ℕ
  pub labels : List (List ℕ)
  pub after_name : ℕ
  pub name : IsNameAt packet jumps start labels after_name
  pub few : jumps ≤ 16
  pub type : ℕ
  pub class : ℕ
  pub rdata : List ℕ
  pub type_small : type < 2 ^ 16
  pub class_small : class < 2 ^ 16
  pub ttl_small : ttl < 2 ^ 32
  pub rdata_short : length rdata < 2 ^ 16
  pub fields : Stands packet after_name (
      to_be_bytes 2 type
      ++ (to_be_bytes 2 class ++ (to_be_bytes 4 ttl ++ (to_be_bytes 2 (length rdata) ++ rdata))))
  pub said : text ≡ parse_dns_answer_rdata printing packet (after_name + 10) (length rdata) type
  pub ends : end ≡ after_name + 10 + length rdata

-- The records, one behind the other.
unfoldable pub AreRecords : Printing → List ℕ → ℕ → Records → Type 0
AreRecords printing packet start [] = Unit
AreRecords printing packet start ((ttl, text) ∷ records) =
    (next : ℕ) × IsRecordAt printing packet start ttl text next
    × AreRecords printing packet next records

-- The header of twelve bytes, the questions, and the records.
pub record IsResponse (printing : Printing) (packet : List ℕ) (flags : ℕ) (records : Records)
    : Type 0 where
  pub id : ℕ
  pub questions : ℕ
  pub others : List ℕ
  pub flags_small : flags < 2 ^ 16
  pub few_questions : questions < 2 ^ 16
  pub few_records : length records < 2 ^ 16
  pub header : Stands packet 0 (
      to_be_bytes 2 id
      ++ (to_be_bytes 2 flags
          ++ (to_be_bytes 2 questions ++ (to_be_bytes 2 (length records) ++ others))))
  pub twelve : length others ≡ 4
  pub start : ℕ
  pub asked : AreQuestions packet questions 12 start
  pub answered : AreRecords printing packet start records
