-- ===== src/Dns/RoundTrip.antt =====
-- Names that are written as RFC 1035 says, with a pointer or without, and
-- desktop-agent-be/src/tun_handler/dns_proxy/parser.rs.
use ppaass_ai.Base.{
  ℕ, zero, suc, ◌+◌, ◌-◌, ◌*◌, ◌/◌, ◌%◌, ◌^◌, ◌<◌, ◌≤◌, ◌≡◌, ◌≢◌, refl, sym, ap, ap₂, subst, ◌∙◌,
  inl, inr, Bool-cases, true, false, ◌&&◌, some, List, [], ◌∷◌, ◌++◌, length, drop, get_elem?, ltb,
  leb, ◌==◌, if◌then◌else◌, arith, All, length-append, append_assoc, append-nil, take-append,
  drop-append, drop-drop,
}
use ppaass_ai.Dns.{
  NameWalk, parsed, out_of_fuel, NameStep, go, stop, slice, jump, add_label, name_at,
  after_name_step, walk_name, start_at, parse_dns_name,
}
use ppaass_ai.Dns.Names.{IsLabel, IsParsed, parse_dns_name-IsParsed}

-- The labels of a name, without its end.
abbrev pub label_bytes : List (List ℕ) → List ℕ
label_bytes [] = []
label_bytes (label ∷ labels) = length label ∷ (label ++ label_bytes labels)

get_elem?-append : (pre rest : List ℕ) (x : ℕ) → get_elem? (pre ++ (x ∷ rest)) (length pre) ≡ some x
get_elem?-append [] rest x = refl
get_elem?-append (y ∷ pre) rest x = get_elem?-append pre rest x

get_elem?-append_next :
    (pre rest : List ℕ) (x y : ℕ) → get_elem? (pre ++ (x ∷ (y ∷ rest))) (length pre + 1) ≡ some y
get_elem?-append_next pre rest x y =
    ap₂ (λ (xs : List ℕ) (n : ℕ). get_elem? xs n) (sym (append_assoc pre (x ∷ []) (y ∷ rest)))
      (omega (arith, length-append pre (x ∷ [])))
    ∙ get_elem?-append (pre ++ (x ∷ [])) rest y

slice-append :
    (pre label rest : List ℕ) (x : ℕ)
    → slice (pre ++ (x ∷ (label ++ rest))) (length pre + 1) (length pre + 1 + length label)
      ≡ some label
slice-append pre label rest x =
    let packet = pre ++ (x ∷ (label ++ rest)) in
    let size : length packet ≡ length pre + 1 + length label + length rest =
      omega (arith, length-append pre (x ∷ (label ++ rest)), length-append label rest) in
    let behind : drop (length pre + 1) packet ≡ label ++ rest =
      sym (drop-drop 1 (length pre) packet) ∙ ap (drop 1) (drop-append pre (x ∷ (label ++ rest))) in
    let count : length pre + 1 + length label - (length pre + 1) ≡ length label = omega arith in
    let fits : (leb (length pre + 1) (length pre + 1 + length label)
          && leb (length pre + 1 + length label) (length packet))
        ≡ true =
      ground (arith, size) in
    rw (fits, count, behind) (ap some (take-append label rest))

-- Reading the labels goes on behind them.
walked : NameWalk → ℕ → List (List ℕ) → NameWalk
walked w end labels = record w {
  cursor = end;
  offset = if w.jumped then w.offset else end;
  labels = w.labels ++ labels;
}

-- One label.
name_at-label :
    (pre label rest : List ℕ) (w : NameWalk)
    → IsLabel label
    → w.cursor ≡ length pre
    → name_at
        (pre ++ (length label ∷ (label ++ rest)))
        w
        (get_elem? (pre ++ (length label ∷ (label ++ rest))) w.cursor)
      ≡ go (walked w (length pre + 1 + length label) (label ∷ []))
unfolding name_at add_label walked
name_at-label pre label rest w (pos, low) at =
    let first = get_elem?-append pre (label ++ rest) (length label) in
    let part = slice-append pre label rest (length label) in
    let no_pointer : (length label / 64 == 3) ≡ false = ground arith in
    let plain : (length label / 64 == 0) ≡ true = ground arith in
    let filled : (length label == 0) ≡ false = ground arith in
    rw at (rw first (rw (no_pointer, plain, filled, part) refl))

-- Not yet jumped, the offset is the cursor.
abbrev Follows : NameWalk → Type 0
Follows w = w.jumped ≡ false → w.offset ≡ w.cursor

walked-nil : (w : NameWalk) (end : ℕ) → Follows w → w.cursor ≡ end → walked w end [] ≡ w
unfolding walked
walked-nil w end f at = elim (Bool-cases w.jumped) [
  | inl before ↦ ground (arith, before, append-nil w.labels)
  | inr straight ↦ ground (arith, straight, f straight, append-nil w.labels)
]

walked-walked :
    (w : NameWalk) (e e' : ℕ) (xs ys : List (List ℕ))
    → walked (walked w e xs) e' ys ≡ walked w e' (xs ++ ys)
unfolding walked
walked-walked w e e' xs ys = ground (arith, append_assoc w.labels xs ys)

walked-Follows : (w : NameWalk) (e : ℕ) (xs : List (List ℕ)) → Follows (walked w e xs)
unfolding walked
walked-Follows w e xs straight = ground arith

walked-cursor : (w : NameWalk) (e : ℕ) (xs : List (List ℕ)) → (walked w e xs).cursor ≡ e
unfolding walked
walked-cursor w e xs = refl

walk_name-labels :
    (k : ℕ) (labels : List (List ℕ)) (packet pre rest : List ℕ) (w : NameWalk)
    → packet ≡ pre ++ (label_bytes labels ++ rest)
    → All IsLabel labels
    → w.cursor ≡ length pre
    → Follows w
    → walk_name (length labels + k) packet w
      ≡ walk_name k packet (walked w (length pre + length (label_bytes labels)) labels)
unfolding walk_name after_name_step
walk_name-labels k [] packet pre rest w e h at f =
    ap₂ (λ (n : ℕ) (v : NameWalk). walk_name n packet v) (omega arith)
      (sym (walked-nil w (length pre + 0) f (omega arith)))
walk_name-labels k (label ∷ labels) packet pre rest w e (first, others) at f =
    let whole : packet ≡ pre ++ (length label ∷ (label ++ (label_bytes labels ++ rest))) =
      e
      ∙ ap (λ (t : List ℕ). pre ++ (length label ∷ t))
          (append_assoc label (label_bytes labels) rest) in
    let pre' = pre ++ (length label ∷ label) in
    let again : packet ≡ pre' ++ (label_bytes labels ++ rest) =
      whole ∙ sym (append_assoc pre (length label ∷ label) (label_bytes labels ++ rest)) in
    let size : length pre' ≡ length pre + 1 + length label =
      omega (arith, length-append pre (length label ∷ label)) in
    let w' = walked w (length pre + 1 + length label) (label ∷ []) in
    let step : name_at packet w (get_elem? packet w.cursor) ≡ go w' =
      rw whole (name_at-label pre label (label_bytes labels ++ rest) w first at) in
    let count : length (label ∷ labels) + k ≡ suc (length labels + k) = omega arith in
    let ends : length pre' + length (label_bytes labels)
        ≡ length pre + length (label_bytes (label ∷ labels)) =
      omega (arith, size, length-append label (label_bytes labels)) in
    rw count (
      rw step (
        walk_name-labels k labels packet pre' rest w' again others (walked-cursor w _ _ ∙ sym size)
          (walked-Follows w _ _)
        ∙ ap (walk_name k packet) (
            walked-walked w _ _ (label ∷ []) labels
            ∙ ap (λ (n : ℕ). walked w n (label ∷ labels)) ends)))

-- A name at an offset of a packet, as RFC 1035 has it: labels, and a zero byte or a pointer to a name.
-- It is told by its number of pointers, where it starts, its labels, and where what follows it starts.
pub data IsNameAt (packet : List ℕ) : ℕ → ℕ → List (List ℕ) → ℕ → Type 0 where
  ends_there :
      (pre : List ℕ) (labels : List (List ℕ)) (rest : List ℕ) {start end : ℕ}
      → All IsLabel labels
      → packet ≡ pre ++ (label_bytes labels ++ (0 ∷ rest))
      → start ≡ length pre
      → end ≡ length pre + length (label_bytes labels) + 1
      → IsNameAt packet zero start labels end
  points_to :
      (pre : List ℕ) (labels : List (List ℕ)) (rest : List ℕ) (target : ℕ)
      {jumps start end target_end : ℕ} {more all : List (List ℕ)}
      → All IsLabel labels
      → packet ≡ pre ++ (label_bytes labels ++ ((192 + target / 256) ∷ (target % 256 ∷ rest)))
      → target < 2 ^ 14
      → IsNameAt packet jumps target more target_end
      → start ≡ length pre
      → all ≡ labels ++ more
      → end ≡ length pre + length (label_bytes labels) + 2
      → IsNameAt packet (suc jumps) start all end

-- More fuel changes nothing where it is enough.
walk_name-more :
    (n k : ℕ) (packet : List ℕ) (w : NameWalk)
    → walk_name n packet w ≢ out_of_fuel
    → walk_name (n + k) packet w ≡ walk_name n packet w
unfolding walk_name
walk_name-more zero k packet w enough = absurd (enough refl)
walk_name-more (suc n) k packet w enough =
    let up : suc n + k ≡ suc (n + k) = omega arith in
    rw up (
      after (name_at packet w (get_elem? packet w.cursor)) enough
        (λ w' e. walk_name-more n k packet w' e))
  where
    after :
        (step : NameStep)
        → after_name_step step (walk_name n packet) ≢ out_of_fuel
        → ((w' : NameWalk)
            → walk_name n packet w' ≢ out_of_fuel
            → walk_name (n + k) packet w' ≡ walk_name n packet w')
        → after_name_step step (walk_name (n + k) packet)
          ≡ after_name_step step (walk_name n packet)
    after (go w') enough same = same w' enough
    after (stop result) enough same = refl

-- The end of a name.
name_at-end :
    (packet pre rest : List ℕ) (w : NameWalk)
    → packet ≡ pre ++ (0 ∷ rest)
    → w.cursor ≡ length pre
    → name_at packet w (get_elem? packet w.cursor)
      ≡ stop (parsed w.labels (if w.jumped then w.offset else length pre + 1))
unfolding name_at
name_at-end packet pre rest w e at = rw (at, e) (rw (get_elem?-append pre rest 0) refl)

-- A pointer.
name_at-pointer :
    (packet pre rest : List ℕ) (target : ℕ) (w : NameWalk)
    → packet ≡ pre ++ ((192 + target / 256) ∷ (target % 256 ∷ rest))
    → target < 2 ^ 14
    → w.cursor ≡ length pre
    → w.jumps + 1 ≤ 16
    → name_at packet w (get_elem? packet w.cursor)
      ≡ go (record {
        cursor = target;
        offset = if w.jumped then w.offset else length pre + 2;
        jumped = true;
        jumps = w.jumps + 1;
        labels = w.labels;
      })
unfolding name_at jump
name_at-pointer packet pre rest target w e low at few =
    let first = get_elem?-append pre (target % 256 ∷ rest) (192 + target / 256) in
    let second = get_elem?-append_next pre rest (192 + target / 256) (target % 256) in
    let pointer : ((192 + target / 256) / 64 == 3) ≡ true = ground arith in
    let allowed : ltb 16 (w.jumps + 1) ≡ false = ground arith in
    let joined : (192 + target / 256) % 64 * 256 + target % 256 ≡ target = omega arith in
    rw (at, e) (rw (first, pointer, second, allowed, joined) refl)

-- The offset that a name leaves.
abbrev left_at : NameWalk → ℕ → ℕ
left_at w end = if w.jumped then w.offset else end

walked-parts :
    (w : NameWalk) (e : ℕ) (xs : List (List ℕ))
    → ((walked w e xs).labels ≡ w.labels ++ xs)
      × ((walked w e xs).jumps ≡ w.jumps)
      × ((n : ℕ) → left_at (walked w e xs) n ≡ left_at w n)
unfolding walked
walked-parts w e xs = (refl, refl, λ n. ground arith)

walk_name-IsNameAt :
    (packet : List ℕ) {j start end : ℕ} {labels : List (List ℕ)}
    → IsNameAt packet j start labels end
    → (w : NameWalk) → w.cursor ≡ start
    → Follows w
    → w.jumps + j ≤ 16
    → (n : ℕ) × (walk_name n packet w ≡ parsed (w.labels ++ labels) (left_at w end))
unfolding walk_name
walk_name-IsNameAt packet (ends_there pre labels rest {start} {end} h e s t) w at f few =
    let w' = walked w (length pre + length (label_bytes labels)) labels in
    let (labels', jumps', left') =
      walked-parts w (length pre + length (label_bytes labels)) labels in
    let pre' = pre ++ label_bytes labels in
    let size : length pre' ≡ length pre + length (label_bytes labels) =
      length-append pre (label_bytes labels) in
    let there = walked-cursor w (length pre + length (label_bytes labels)) labels in
    let step =
      name_at-end packet pre' rest w' (e ∙ sym (append_assoc pre (label_bytes labels) (0 ∷ rest)))
        (there ∙ sym size) in
    (
      length labels + suc zero,
      walk_name-labels (suc zero) labels packet pre (0 ∷ rest) w e h (at ∙ s) f
          ∙ ap (λ (x : NameStep). after_name_step x (walk_name zero packet)) step
          ∙ ap₂ parsed labels'
              (left' (length pre' + 1) ∙ ap (left_at w) (ap (λ (n : ℕ). n + 1) size ∙ sym t)),
    )
walk_name-IsNameAt packet
      (points_to pre labels rest target {jumps} {start} {end} {target_end} {more} {all} h e low name
        s whole t)
      w at f few =
    let w' = walked w (length pre + length (label_bytes labels)) labels in
    let (labels', jumps', left') =
      walked-parts w (length pre + length (label_bytes labels)) labels in
    let pre' = pre ++ label_bytes labels in
    let size : length pre' ≡ length pre + length (label_bytes labels) =
      length-append pre (label_bytes labels) in
    let there = walked-cursor w (length pre + length (label_bytes labels)) labels in
    let step =
      name_at-pointer packet pre' rest target w'
        (e
          ∙ sym (
              append_assoc pre (label_bytes labels) ((192 + target / 256) ∷ (target % 256 ∷ rest))))
        low (there ∙ sym size) (omega (arith, jumps')) in
    let w2 : NameWalk = record {
      cursor = target;
      offset = left_at w' (length pre' + 2);
      jumped = true;
      jumps = w'.jumps + 1;
      labels = w'.labels;
    } in
    let (n, later) =
      walk_name-IsNameAt packet name w2 refl (λ x. absurd (cc)) (omega (arith, jumps')) in
    (
      length labels + suc n,
      walk_name-labels (suc n) labels packet pre ((192 + target / 256) ∷ (target % 256 ∷ rest)) w e
            h (at ∙ s) f
          ∙ ap (λ (x : NameStep). after_name_step x (walk_name n packet)) step
          ∙ later
          ∙ ap₂ parsed
              (ap (λ (xs : List (List ℕ)). xs ++ more) labels'
                ∙ append_assoc w.labels labels more
                ∙ ap (λ (xs : List (List ℕ)). w.labels ++ xs) (sym whole))
              (left' (length pre' + 2) ∙ ap (left_at w) (ap (λ (n : ℕ). n + 2) size ∙ sym t)),
    )

-- A name with at most 16 pointers, wherever it stands in a packet and wherever they point, is parsed to
-- its labels and the offset behind it.
pub parse_dns_name-IsNameAt :
    (packet : List ℕ) (jumps start : ℕ) (labels : List (List ℕ)) (end : ℕ)
    → IsNameAt packet jumps start labels end
    → jumps ≤ 16
    → parse_dns_name packet start ≡ parsed labels end
unfolding parse_dns_name
parse_dns_name-IsNameAt packet jumps start labels end name few =
    let fuel = 17 * (length packet + 1) in
    let (n, reads) =
      walk_name-IsNameAt packet name (start_at start) refl (λ x. refl) (omega arith) in
    let total : walk_name fuel packet (start_at start) ≢ out_of_fuel =
      λ e. subst (IsParsed packet start) e (parse_dns_name-IsParsed packet start) in
    sym (walk_name-more fuel n packet (start_at start) total)
    ∙ ap (λ (m : ℕ). walk_name m packet (start_at start)) (omega arith)
    ∙ walk_name-more n fuel packet (start_at start) (λ e. cc (e, reads))
    ∙ reads
