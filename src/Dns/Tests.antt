-- ===== src/Dns/Tests.antt =====
-- The theorems about the DNS parser at concrete inputs, and runs of the definitions.
use ppaass_ai.Base.{ℕ, ◌%◌, ◌≡◌, refl, Option, some, List, [], ◌∷◌, ◌++◌, take, drop, arith}
use ppaass_ai.Base.Bytes.{from_be_bytes, to_be_bytes}
use ppaass_ai.Base.Ascii.{ascii}
use ppaass_ai.Dns.{parsed, malformed, parse_dns_name}
use ppaass_ai.Dns.Names.{IsParsed, parse_dns_name-IsParsed}
use ppaass_ai.Dns.RoundTrip.{IsNameAt, ends_there, points_to, parse_dns_name-IsNameAt}
use ppaass_ai.Dns.Response.{
  Printing, DnsResponseSummary, parse_dns_response, read_answer, parse_dns_answer_rdata,
  dns_rcode_name,
}
use ppaass_ai.Dns.Response.Layout.{IsQuestionAt, IsRecordAt, IsResponse, AreQuestions, AreRecords}
use ppaass_ai.Dns.Response.Records.{IsLeast, texts, parse_dns_response-IsResponse}

-- The name `a`, and the name `b.a` by a pointer to it.
abbrev two_names : List ℕ
two_names = 1 ∷ b'a' ∷ 0 ∷ 1 ∷ b'b' ∷ 192 ∷ 0 ∷ []

b_a : parse_dns_name two_names 3 ≡ parsed ((b'b' ∷ []) ∷ (b'a' ∷ []) ∷ []) 7
unfolding parse_dns_name
b_a = refl

-- A pointer to itself.
endless : parse_dns_name (192 ∷ 0 ∷ []) 0 ≡ malformed
unfolding parse_dns_name
endless = refl

parse_dns_name-IsParsed_example : IsParsed two_names 3 (parse_dns_name two_names 3)
parse_dns_name-IsParsed_example = parse_dns_name-IsParsed two_names 3

b_a-IsNameAt : IsNameAt two_names 1 3 ((b'b' ∷ []) ∷ (b'a' ∷ []) ∷ []) 7
b_a-IsNameAt =
    points_to (1 ∷ b'a' ∷ 0 ∷ []) ((b'b' ∷ []) ∷ []) [] 0 (omega arith) refl (omega arith)
      (ends_there [] ((b'a' ∷ []) ∷ []) (1 ∷ b'b' ∷ 192 ∷ 0 ∷ []) (omega arith) refl refl refl) refl
      refl refl

parse_dns_name-IsNameAt_example :
    parse_dns_name two_names 3 ≡ parsed ((b'b' ∷ []) ∷ (b'a' ∷ []) ∷ []) 7
parse_dns_name-IsNameAt_example =
    parse_dns_name-IsNameAt two_names 1 3 ((b'b' ∷ []) ∷ (b'a' ∷ []) ∷ []) 7 b_a-IsNameAt
      (omega arith)

-- Texts as they are.
abbrev printing : Printing
printing = record {
  from_utf8_lossy = λ b. b;
  ipv4_to_string = λ b. b;
  ipv6_to_string = λ b. b;
  number_to_string = λ n. n ∷ [];
}

-- The address 1.2.3.4 of `a`, for 60 seconds.
abbrev response : List ℕ
response =
    (0 ∷ 1 ∷ 129 ∷ 128 ∷ 0 ∷ 1 ∷ 0 ∷ 1 ∷ 0 ∷ 0 ∷ 0 ∷ 0 ∷ [])
    ++ ((1 ∷ b'a' ∷ 0 ∷ 0 ∷ 1 ∷ 0 ∷ 1 ∷ [])
        ++ (192 ∷ 12 ∷ 0 ∷ 1 ∷ 0 ∷ 1 ∷ 0 ∷ 0 ∷ 0 ∷ 60 ∷ 0 ∷ 4 ∷ 1 ∷ 2 ∷ 3 ∷ 4 ∷ []))

abbrev summary : DnsResponseSummary
summary = record {
  status = ascii "NOERROR";
  answers = (1 ∷ 2 ∷ 3 ∷ 4 ∷ []) ∷ [];
  min_ttl = some 60;
}

summarized : parse_dns_response printing response ≡ some summary
unfolding parse_dns_response read_answer parse_dns_name from_be_bytes ascii
summarized = refl

name_a : IsNameAt response 0 12 ((b'a' ∷ []) ∷ []) 15
name_a =
    ends_there (take 12 response) ((b'a' ∷ []) ∷ []) (drop 15 response) (omega arith) refl refl refl

question : IsQuestionAt response 12 19
question = record {
  jumps = 0;
  labels = (b'a' ∷ []) ∷ [];
  after_name = 15;
  name = name_a;
  few = omega arith;
  ends = refl;
  inside = omega arith;
}

first_record : IsRecordAt printing response 19 60 (some (1 ∷ 2 ∷ 3 ∷ 4 ∷ [])) 35
unfolding parse_dns_answer_rdata to_be_bytes
first_record = record {
  jumps = 1;
  labels = (b'a' ∷ []) ∷ [];
  after_name = 21;
  name =
      points_to (take 19 response) [] (drop 21 response) 12 (omega arith) refl (omega arith) name_a
        refl refl refl;
  few = omega arith;
  type = 1;
  class = 1;
  rdata = 1 ∷ 2 ∷ 3 ∷ 4 ∷ [];
  type_small = omega arith;
  class_small = omega arith;
  ttl_small = omega arith;
  rdata_short = omega arith;
  fields = record { pre = take 21 response; rest = []; whole = refl; start = refl };
  said = refl;
  ends = refl;
}

response-IsResponse : IsResponse printing response 33152 ((60, some (1 ∷ 2 ∷ 3 ∷ 4 ∷ [])) ∷ [])
unfolding AreQuestions AreRecords to_be_bytes
response-IsResponse = record {
  id = 1;
  questions = 1;
  others = 0 ∷ 0 ∷ 0 ∷ 0 ∷ [];
  flags_small = omega arith;
  few_questions = omega arith;
  few_records = omega arith;
  header = record { pre = []; rest = drop 12 response; whole = refl; start = refl };
  twelve = refl;
  start = 19;
  asked = (19, question, refl);
  answered = (35, first_record, tt);
}

parse_dns_response-IsResponse_example :
    (ttl : Option ℕ) × IsLeast ttl ((60, some (1 ∷ 2 ∷ 3 ∷ 4 ∷ [])) ∷ [])
    × (parse_dns_response printing response
        ≡ some (record {
          status = dns_rcode_name (33152 % 16);
          answers = texts ((60, some (1 ∷ 2 ∷ 3 ∷ 4 ∷ [])) ∷ []);
          min_ttl = ttl;
        }))
parse_dns_response-IsResponse_example =
    parse_dns_response-IsResponse printing response 33152 ((60, some (1 ∷ 2 ∷ 3 ∷ 4 ∷ [])) ∷ [])
      response-IsResponse
