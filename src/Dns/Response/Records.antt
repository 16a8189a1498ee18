-- ===== src/Dns/Response/Records.antt =====
-- Reading a response, for desktop-agent-be/src/tun_handler/dns_proxy/parser.rs: from its layout to its
-- summary.
use ppaass_ai.Base.{
  ℕ, zero, suc, ◌+◌, ◌%◌, ◌≤◌, min, ◌≡◌, ◌⊎◌, refl, sym, ap, ◌∙◌, inl, inr, Option, none, some,
  List, [], ◌∷◌, ◌++◌, length, arith, append_assoc, append-nil, ltb, false, Bool-cases, leb,
}
use ppaass_ai.Base.Bytes.{to_be_bytes, length-to_be_bytes}
use ppaass_ai.Dns.{parse_dns_name}
use ppaass_ai.Dns.RoundTrip.{IsNameAt, parse_dns_name-IsNameAt}
use ppaass_ai.Dns.Response.{
  Printing, dns_rcode_name, skip_questions, read_answer, named, text_of_labels, lower_ttl,
  keep_answer, read_answers, parse_dns_response,
}
use ppaass_ai.Dns.Response.Layout.{
  Stands-first, Stands-next, Stands-inside, read_u16-Stands, read_u32-Stands, Records, AreQuestions,
  IsRecordAt, AreRecords, IsResponse,
}

unfoldable pub texts : Records → List (List ℕ)
texts [] = []
texts ((ttl, none) ∷ records) = texts records
texts ((ttl, some text) ∷ records) = text ∷ texts records

-- A record with a text has this time to live.
abbrev pub Occurs : ℕ → Records → Type 0
Occurs n [] = ⊥
Occurs n ((ttl, none) ∷ records) = Occurs n records
Occurs n ((ttl, some text) ∷ records) = (ttl ≡ n) ⊎ Occurs n records

-- No record with a text has a smaller one.
abbrev pub IsBelow : ℕ → Records → Type 0
IsBelow n [] = Unit
IsBelow n ((ttl, none) ∷ records) = IsBelow n records
IsBelow n ((ttl, some text) ∷ records) = (n ≤ ttl) × IsBelow n records

-- The least time to live of the records with a text, if there are any.
unfoldable pub IsLeast : Option ℕ → Records → Type 0
unfolding texts
IsLeast none records = texts records ≡ []
IsLeast (some n) records = Occurs n records × IsBelow n records

-- What the loop makes of the least time to live.
abbrev lowered : Option ℕ → Records → Option ℕ
lowered m [] = m
lowered m ((ttl, none) ∷ records) = lowered m records
lowered m ((ttl, some text) ∷ records) = lowered (some (lower_ttl m ttl)) records

lowered-some :
    (c : ℕ) (records : Records)
    → (n : ℕ) × (lowered (some c) records ≡ some n)
      × (n ≤ c)
      × IsBelow n records
      × ((c ≡ n) ⊎ Occurs n records)
lowered-some c [] = (c, refl, omega arith, tt, inl refl)
lowered-some c ((ttl, none) ∷ records) = lowered-some c records
lowered-some c ((ttl, some text) ∷ records) =
    let (n, e, low, below, source) = lowered-some (min c ttl) records in
    (n, e, omega (arith, low), (omega (arith, low), below), from n source)
  where
    from : (n : ℕ) → (min c ttl ≡ n) ⊎ Occurs n records → (c ≡ n) ⊎ ((ttl ≡ n) ⊎ Occurs n records)
    from n (inl e) = elim (Bool-cases (leb c ttl)) [
      | inl less ↦ inl (ground (arith, e, less))
      | inr more ↦ inr (inl (ground (arith, e, more)))
    ]
    from n (inr o) = inr (inr o)

lowered-IsLeast : (records : Records) → IsLeast (lowered none records) records
unfolding IsLeast
lowered-IsLeast [] = refl
lowered-IsLeast ((ttl, none) ∷ records) = step (lowered none records) (lowered-IsLeast records)
  where
    step : (m : Option ℕ) → IsLeast m records → IsLeast m ((ttl, none) ∷ records)
    step none h = h
    step (some n) h = h
lowered-IsLeast ((ttl, some text) ∷ records) =
    let (n, e, low, below, source) = lowered-some ttl records in
    rw e (source, (omega (arith, low), below))

module _ (printing : Printing) (packet : List ℕ) where
  named-IsNameAt :
      (jumps start : ℕ) (labels : List (List ℕ)) (end : ℕ)
      → IsNameAt packet jumps start labels end
      → jumps ≤ 16
      → named printing (parse_dns_name packet start) ≡ some (text_of_labels printing labels, end)
  unfolding named
  named-IsNameAt jumps start labels end name few =
      ap (named printing) (parse_dns_name-IsNameAt packet jumps start labels end name few)

  skip_questions-AreQuestions :
      (n start end : ℕ)
      → AreQuestions packet n start end
      → skip_questions printing n packet start ≡ some end
  unfolding skip_questions AreQuestions
  skip_questions-AreQuestions zero start end e = ap some e
  skip_questions-AreQuestions (suc n) start end (next, q, later) =
      let inside : ltb (length packet) (q.after_name + 4) ≡ false =
        ground (arith, q.inside, q.ends) in
      rw (named-IsNameAt q.jumps start q.labels q.after_name q.name q.few, inside, ← q.ends)
        (skip_questions-AreQuestions n next end later)

  read_answer-IsRecordAt :
      (start ttl : ℕ) (text : Option (List ℕ)) (end : ℕ)
      → IsRecordAt printing packet start ttl text end
      → read_answer printing packet start ≡ some (ttl, text, end)
  unfolding read_answer
  read_answer-IsRecordAt start ttl text end r =
      let at = r.after_name in
      let size = to_be_bytes 2 (length r.rdata) in
      let s1 =
        Stands-next packet at (to_be_bytes 2 r.type) _ (at + 2)
          (omega (arith, length-to_be_bytes 2 r.type)) r.fields in
      let s2 =
        Stands-next packet (at + 2) (to_be_bytes 2 r.class) _ (at + 4)
          (omega (arith, length-to_be_bytes 2 r.class)) s1 in
      let s3 =
        Stands-next packet (at + 4) (to_be_bytes 4 ttl) _ (at + 8)
          (omega (arith, length-to_be_bytes 4 ttl)) s2 in
      let s4 =
        Stands-next packet (at + 8) size _ (at + 10)
          (omega (arith, length-to_be_bytes 2 (length r.rdata))) s3 in
      let type_read =
        read_u16-Stands packet at r.type r.type_small (Stands-first packet at _ _ r.fields) in
      let class_read =
        read_u16-Stands packet (at + 2) r.class r.class_small
          (Stands-first packet (at + 2) _ _ s1) in
      let ttl_read =
        read_u32-Stands packet (at + 4) ttl r.ttl_small (Stands-first packet (at + 4) _ _ s2) in
      let size_read =
        read_u16-Stands packet (at + 8) (length r.rdata) r.rdata_short
          (Stands-first packet (at + 8) _ _ s3) in
      let inside : ltb (length packet) (at + 10 + length r.rdata) ≡ false =
        ground (arith, Stands-inside packet (at + 10) r.rdata s4) in
      rw (named-IsNameAt r.jumps start r.labels at r.name r.few, r.said, r.ends)
        (rw (type_read, class_read, ttl_read, size_read, inside) refl)

  read_answers-AreRecords :
      (records : Records) (start : ℕ) (xs : List (List ℕ)) (m : Option ℕ)
      → AreRecords printing packet start records
      → read_answers printing (length records) packet start (xs, m)
        ≡ some (xs ++ texts records, lowered m records)
  unfolding read_answers AreRecords texts keep_answer
  read_answers-AreRecords [] start xs m h =
      ap (λ (t : List (List ℕ)). some (t, m)) (sym (append-nil xs))
  read_answers-AreRecords ((ttl, none) ∷ records) start xs m (next, r, later) =
      rw (read_answer-IsRecordAt start ttl none next r)
        (read_answers-AreRecords records next xs m later)
  read_answers-AreRecords ((ttl, some text) ∷ records) start xs m (next, r, later) =
      rw (read_answer-IsRecordAt start ttl (some text) next r) (
        read_answers-AreRecords records next (xs ++ (text ∷ [])) (some (lower_ttl m ttl)) later
        ∙ ap (λ (t : List (List ℕ)). some (t, lowered (some (lower_ttl m ttl)) records))
            (append_assoc xs (text ∷ []) (texts records)))

  -- A response that is laid out as RFC 1035 says, whose names have at most 16 pointers, is summarized: its
  -- answers are the texts, as parse_dns_answer_rdata reads them, of the records that have one, in order;
  -- its time to live is the least of these records, none if there are none; and its status is the name of
  -- the code in its flags.
  pub parse_dns_response-IsResponse :
      (flags : ℕ) (records : Records)
      → IsResponse printing packet flags records
      → (ttl : Option ℕ) × IsLeast ttl records
        × (parse_dns_response printing packet
            ≡ some (record {
              status = dns_rcode_name (flags % 16);
              answers = texts records;
              min_ttl = ttl;
            }))
  unfolding parse_dns_response
  parse_dns_response-IsResponse flags records r =
      let count = length records in
      let s1 =
        Stands-next packet 0 (to_be_bytes 2 r.id) _ 2 (omega (arith, length-to_be_bytes 2 r.id))
          r.header in
      let s2 =
        Stands-next packet 2 (to_be_bytes 2 flags) _ 4 (omega (arith, length-to_be_bytes 2 flags))
          s1 in
      let s3 =
        Stands-next packet 4 (to_be_bytes 2 r.questions) _ 6
          (omega (arith, length-to_be_bytes 2 r.questions)) s2 in
      let s4 =
        Stands-next packet 6 (to_be_bytes 2 count) _ 8 (omega (arith, length-to_be_bytes 2 count))
          s3 in
      let long : ltb (length packet) 12 ≡ false =
        ground (arith, Stands-inside packet 8 r.others s4, r.twelve) in
      let flags_read =
        read_u16-Stands packet 2 flags r.flags_small (Stands-first packet 2 _ _ s1) in
      let asked_read =
        read_u16-Stands packet 4 r.questions r.few_questions (Stands-first packet 4 _ _ s2) in
      let count_read =
        read_u16-Stands packet 6 count r.few_records (Stands-first packet 6 _ _ s3) in
      (
        lowered none records,
        lowered-IsLeast records,
        rw
            (
              long,
              flags_read,
              asked_read,
              count_read,
              skip_questions-AreQuestions r.questions 12 r.start r.asked,
              read_answers-AreRecords records r.start [] none r.answered,
            )
            refl,
      )
