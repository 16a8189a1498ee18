-- ===== src/Dns/Response.antt =====
-- The summary of a DNS response: parse_dns_response of
-- desktop-agent-be/src/tun_handler/dns_proxy/parser.rs. A text stands for its UTF-8 bytes.
pub mod Layout
pub mod Records
use ppaass_ai.Base.{
  ℕ, zero, suc, ◌+◌, ◌-◌, ◌*◌, ◌%◌, min, Bool, true, false, Option, none, some, List, [], ◌∷◌, ◌++◌,
  length, take, drop, get_or, ltb, leb, ◌==◌, ◌&&◌, ◌||◌, if◌then◌else◌, bytes_eq, map,
}
use ppaass_ai.Base.Ascii.{ascii}
use ppaass_ai.Base.Bytes.{from_be_bytes}
use ppaass_ai.Dns.{ParsedName, parsed, malformed, out_of_fuel, slice, parse_dns_name}

-- `?` on an `Option`.
infixl 5 ◌>>=◌
abbrev pub ◌>>=◌ {ℓ κ} : {A : Type ℓ} {B : Type κ} → Option A → (A → Option B) → Option B
none >>= next = none
some a >>= next = next a

-- The library functions: `from_utf8_lossy`, and printing addresses and numbers.
pub record Printing : Type 0 where
  pub from_utf8_lossy : List ℕ → List ℕ
  pub ipv4_to_string : List ℕ → List ℕ
  pub ipv6_to_string : List ℕ → List ℕ
  pub number_to_string : ℕ → List ℕ

pub record DnsResponseSummary : Type 0 where
  pub status : List ℕ
  pub answers : List (List ℕ)
  pub min_ttl : Option ℕ

unfoldable pub read_u16 : List ℕ → ℕ → Option ℕ
read_u16 packet offset = do bytes ← slice packet offset (offset + 2); some (from_be_bytes bytes)

unfoldable pub read_u32 : List ℕ → ℕ → Option ℕ
read_u32 packet offset = do bytes ← slice packet offset (offset + 4); some (from_be_bytes bytes)

unfoldable pub dns_rcode_name : ℕ → List ℕ
dns_rcode_name rcode =
    if rcode == 0
    then ascii "NOERROR"
    else if rcode == 1
    then ascii "FORMERR"
    else if rcode == 2
    then ascii "SERVFAIL"
    else if rcode == 3
    then ascii "NXDOMAIN"
    else if rcode == 4
    then ascii "NOTIMP"
    else if rcode == 5
    then ascii "REFUSED"
    else ascii "ERROR"

-- `join`
unfoldable pub joined_by : List ℕ → List (List ℕ) → List ℕ
joined_by sep [] = []
joined_by sep (text ∷ []) = text
joined_by sep (text ∷ (next ∷ texts)) = text ++ (sep ++ joined_by sep (next ∷ texts))

-- The names and the lengths of a TXT record, as long as there are bytes.
unfoldable pub txt_values : ℕ → List ℕ → List (List ℕ)
txt_values zero rdata = []
txt_values (suc fuel) [] = []
txt_values (suc fuel) (size ∷ rest) = take size rest ∷ txt_values fuel (drop size rest)

-- `min_ttl.map_or(ttl, |current| current.min(ttl))`
abbrev pub lower_ttl : Option ℕ → ℕ → ℕ
lower_ttl none ttl = ttl
lower_ttl (some current) ttl = min current ttl

module _ (printing : Printing) where
  unfoldable pub text_of_labels : List (List ℕ) → List ℕ
  unfolding joined_by
  text_of_labels [] = b'.' ∷ []
  text_of_labels (label ∷ labels) =
      joined_by (b'.' ∷ []) (map printing.from_utf8_lossy (label ∷ labels))

  -- A name that cannot be parsed is none, and so is one that runs out of fuel.
  unfoldable pub named : ParsedName → Option (List ℕ × ℕ)
  unfolding text_of_labels
  named (parsed labels offset) = some (text_of_labels labels, offset)
  named malformed = none
  named out_of_fuel = none

  unfoldable pub parse_txt_rdata : List ℕ → List ℕ
  unfolding txt_values joined_by
  parse_txt_rdata rdata =
      joined_by (b' ' ∷ []) (map printing.from_utf8_lossy (txt_values (length rdata) rdata))

  abbrev pub u16_at : List ℕ → ℕ → ℕ
  u16_at rdata i = get_or rdata i 0 * 256 + get_or rdata (i + 1) 0

  abbrev pub service_text : ℕ → List ℕ → List ℕ
  service_text priority target =
      if bytes_eq target (b'.' ∷ [])
      then ascii "priority " ++ printing.number_to_string priority
      else ascii "priority " ++ (printing.number_to_string priority ++ (b' ' ∷ target))

  abbrev pub with_name : (List ℕ → List ℕ) → Option (List ℕ × ℕ) → Option (List ℕ)
  with_name text none = none
  with_name text (some (name, offset)) = some (text name)

  -- The match on the type of a record.
  unfoldable pub rdata_text : List ℕ → ℕ → List ℕ → ℕ → Option (List ℕ)
  unfolding named parse_txt_rdata
  rdata_text packet rdata_offset rdata record_type =
      if record_type == 1 && length rdata == 4
      then some (printing.ipv4_to_string rdata)
      else if record_type == 2 || record_type == 5 || record_type == 12
      then with_name (λ name. name) (named (parse_dns_name packet rdata_offset))
      else if record_type == 15 && leb 3 (length rdata)
      then with_name (λ name. printing.number_to_string (u16_at rdata 0) ++ (b' ' ∷ name))
          (named (parse_dns_name packet (rdata_offset + 2)))
      else if record_type == 16
      then some (parse_txt_rdata rdata)
      else if record_type == 28 && length rdata == 16
      then some (printing.ipv6_to_string rdata)
      else if record_type == 33 && leb 7 (length rdata)
      then with_name (λ name. name ++ (b':' ∷ printing.number_to_string (u16_at rdata 4)))
          (named (parse_dns_name packet (rdata_offset + 6)))
      else if (record_type == 64 || record_type == 65) && leb 3 (length rdata)
      then with_name (λ name. service_text (u16_at rdata 0) name)
          (named (parse_dns_name packet (rdata_offset + 2)))
      else none

  unfoldable pub parse_dns_answer_rdata : List ℕ → ℕ → ℕ → ℕ → Option (List ℕ)
  unfolding rdata_text
  parse_dns_answer_rdata packet rdata_offset rdlength record_type =
      slice packet rdata_offset (rdata_offset + rdlength) >>= λ rdata.
      rdata_text packet rdata_offset rdata record_type

  unfoldable pub skip_questions : ℕ → List ℕ → ℕ → Option ℕ
  skip_questions zero packet offset = some offset
  skip_questions (suc n) packet offset = named (parse_dns_name packet offset) >>= λ name.
      (if ltb (length packet) (name.1 + 4) then none else skip_questions n packet (name.1 + 4))

  -- One answer: its time to live, its text if it has one, and where the next one starts.
  unfoldable pub read_answer : List ℕ → ℕ → Option (ℕ × Option (List ℕ) × ℕ)
  unfolding read_u16 read_u32 parse_dns_answer_rdata
  read_answer packet start = do
    name ← named (parse_dns_name packet start)
    let offset = name.1
    record_type ← read_u16 packet offset
    class ← read_u16 packet (offset + 2)
    ttl ← read_u32 packet (offset + 4)
    rdlength ← read_u16 packet (offset + 8)
    let rdata_offset = offset + 10
    (if ltb (length packet) (rdata_offset + rdlength)
        then none
        else some (
          ttl,
          parse_dns_answer_rdata packet rdata_offset rdlength record_type,
          rdata_offset + rdlength,
        ))

  unfoldable pub keep_answer :
      Option (List ℕ) → ℕ → List (List ℕ) × Option ℕ → List (List ℕ) × Option ℕ
  keep_answer none ttl (answers, min_ttl) = (answers, min_ttl)
  keep_answer (some answer) ttl (answers, min_ttl) =
      (answers ++ (answer ∷ []), some (lower_ttl min_ttl ttl))

  unfoldable pub read_answers :
      ℕ → List ℕ → ℕ → List (List ℕ) × Option ℕ → Option (List (List ℕ) × Option ℕ)
  unfolding keep_answer
  read_answers zero packet offset kept = some kept
  read_answers (suc n) packet offset kept =
      read_answer packet offset >>= λ r. read_answers n packet r.2 (keep_answer r.1 r.0 kept)

  unfoldable pub parse_dns_response : List ℕ → Option DnsResponseSummary
  unfolding read_answers skip_questions dns_rcode_name
  parse_dns_response packet = if ltb (length packet) 12 then none else do
    flags ← read_u16 packet 2
    qdcount ← read_u16 packet 4
    ancount ← read_u16 packet 6
    offset ← skip_questions qdcount packet 12
    kept ← read_answers ancount packet offset ([], none)
    some (record { status = dns_rcode_name (flags % 16); answers = kept.0; min_ttl = kept.1 })
