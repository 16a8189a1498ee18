-- ===== src/UdpTransport/Replay/History.antt =====
-- The replay window of protocol/src/udp_transport/replay.rs against the list of all numbers that
-- were ever accepted.
use ppaass_ai.Base.{
  ℕ, ◌+◌, ◌-◌, ◌≤◌, ◌<◌, max, ◌≡◌, refl, sym, ap, ap₂, ◌∙◌, inl, inr, Bool-cases, Option-cases,
  Bool, true, not, ◌&&◌, Option, none, some, List, [], ◌∷◌, arith, ltb, leb, ◌==◌, if◌then◌else◌,
  replicate, contains, IsDistinct,
}
use ppaass_ai.UdpTransport.Replay.{
  ReplayWindow, new, set_bit, shift_older, unseen, acceptable, may_accept, mark, commit,
}
use ppaass_ai.UdpTransport.Replay.Bitmap.{
  marked, IsBitmap, bit_is_set_lem, marked-set_bit, marked-shift_older, marked-replicate,
  IsBitmap-replicate, set_bit-IsBitmap, shift_older-IsBitmap,
}

abbrev later : ℕ → Option ℕ → ℕ
later x none = x
later x (some h) = max x h

-- The highest number of a history.
abbrev pub newest : List ℕ → Option ℕ
newest [] = none
newest (x ∷ xs) = some (later x (newest xs))

abbrev recent : Option ℕ → ℕ → Bool
recent none seq = true
recent (some h) seq = ltb h (seq + 4096)

-- What the window promises: a number is taken if it was never accepted and is less than 4096
-- behind the highest one accepted.
abbrev pub fresh : List ℕ → ℕ → Bool
fresh history seq = not (contains seq history) && recent (newest history) seq

abbrev expected_bit : Option ℕ → List ℕ → ℕ → ℕ
expected_bit none history d = 0
expected_bit (some h) history d = if leb d h && contains (h - d) history then 1 else 0

-- The window `w` holds what the history says.
pub record Represents (w : ReplayWindow) (history : List ℕ) : Type 0 where
  pub highest : w.highest ≡ newest history
  pub bitmap : IsBitmap w.seen
  pub bits : (d : ℕ) → d < 4096 → marked w.seen d ≡ expected_bit (newest history) history d

pub Represents-new : Represents new []
unfolding new
Represents-new = record {
  highest = refl;
  bitmap = IsBitmap-replicate;
  bits = λ d h. marked-replicate d;
}

no_newest : (history : List ℕ) → newest history ≡ none → history ≡ []
no_newest [] n = refl
no_newest (z ∷ zs) n = cc

contains-le-newest :
    (x h : ℕ) (history : List ℕ) → newest history ≡ some h → contains x history ≡ true → x ≤ h
contains-le-newest x h [] e c = cc
contains-le-newest x h (y ∷ ys) e c = elim (Option-cases (newest ys)) [
  | inl n ↦ ground (arith, n, no_newest ys n)
  | inr (k, n) ↦ ground (arith, n, contains-le-newest x k ys n)
]

unseen-fresh :
    (history seen : List ℕ) (h seq : ℕ)
    → newest history ≡ some h
    → ((d : ℕ) → d < 4096 → marked seen d ≡ expected_bit (newest history) history d)
    → unseen seen h seq ≡ fresh history seq
unfolding unseen
unseen-fresh history seen h seq e bits = elim (Bool-cases (ltb h seq)) [
  | inl ahead ↦ ground (arith, contains-le-newest seq h history e)
  | inr behind ↦
      let back : seq ≤ h → h - (h - seq) ≡ seq = λ p. omega arith in
      ground (
        arith,
        bits (h - seq),
        bit_is_set_lem seen (h - seq),
        ap (λ (t : ℕ). contains t history) (back (ground arith)),
      )
]

-- For a window that represents a history, `may_accept` is true exactly for the numbers that are not
-- in the history and are less than 4096 behind its highest.
pub may_accept-fresh :
    (w : ReplayWindow) (history : List ℕ) (seq : ℕ)
    → Represents w history
    → may_accept w seq ≡ fresh history seq
unfolding may_accept
may_accept-fresh w history seq r = elim (Option-cases (newest history)) [
  | inl n ↦ rw (r.highest, n, no_newest history n) refl
  | inr (h, n) ↦
      ap (λ (o : Option ℕ). acceptable o w.seen seq) (r.highest ∙ n)
      ∙ unseen-fresh history w.seen h seq n r.bits
]

abbrev pub extend : List ℕ → ℕ → List ℕ
extend history seq = if fresh history seq then seq ∷ history else history

-- The bits of the window that `mark` returns, in the cases of its `match`.
module _ (seen : List ℕ) (seq d : ℕ) (b : IsBitmap seen) (hd : d < 4096) where
  first_bits : marked seen d ≡ 0 → marked (set_bit seen 0) d ≡ expected_bit (some seq) (seq ∷ []) d
  first_bits z = ground (arith, marked-set_bit seen 0 d b.size)

  module _ (history : List ℕ) (h : ℕ) (n : newest history ≡ some h) where
    behind_bits :
        marked seen d ≡ expected_bit (some h) history d
        → seq ≤ h
        → h - seq < 4096
        → marked (set_bit seen (h - seq)) d ≡ expected_bit (some h) (seq ∷ history) d
    behind_bits e p q = ground (arith, marked-set_bit seen (h - seq) d b.size)

    cleared_bits :
        h < seq
        → 4096 ≤ seq - h
        → marked (set_bit (replicate 64 0) 0) d ≡ expected_bit (some seq) (seq ∷ history) d
    cleared_bits p q = ground (
      arith,
      marked-set_bit (replicate 64 0) 0 d IsBitmap-replicate.size,
      marked-replicate d,
      contains-le-newest (seq - d) h history n,
    )

    shifted_bits :
        marked seen (d - (seq - h)) ≡ expected_bit (some h) history (d - (seq - h))
        → h < seq
        → seq - h < 4096
        → marked (set_bit (shift_older seen (seq - h)) 0) d
          ≡ expected_bit (some seq) (seq ∷ history) d
    shifted_bits e p q = elim (Bool-cases (ltb d (seq - h))) [
      | inl low ↦ ground (arith, bit, shift, contains-le-newest (seq - d) h history n)
      | inr high ↦
          let down : h - (d - (seq - h)) ≡ seq - d = ground arith in
          ground (arith, bit, shift, e, ap (λ (t : ℕ). contains t history) down)
    ]
      where
        bit :
            marked (set_bit (shift_older seen (seq - h)) 0) d
            ≡ (if 0 == d then 1 else marked (shift_older seen (seq - h)) d)
        bit =
            marked-set_bit (shift_older seen (seq - h)) 0 d
              ((shift_older-IsBitmap seen (seq - h) b).size) (omega arith)

        shift :
            marked (shift_older seen (seq - h)) d
            ≡ (if ltb d (seq - h) then 0 else marked seen (d - (seq - h)))
        shift = marked-shift_older seen (seq - h) d b hd

fresh-recent :
    (history : List ℕ) (seq h : ℕ)
    → newest history ≡ some h
    → fresh history seq ≡ true
    → h < seq + 4096
fresh-recent history seq h n f = ground arith

at_top :
    (history : List ℕ) (seq d top : ℕ) {x : ℕ}
    → later seq (newest history) ≡ top
    → x ≡ expected_bit (some top) (seq ∷ history) d
    → x ≡ expected_bit (newest (seq ∷ history)) (seq ∷ history) d
at_top history seq d top e p = p ∙ ap (λ (t : ℕ). expected_bit (some t) (seq ∷ history) d) (sym e)

mark-some :
    (seen history : List ℕ) (h seq : ℕ)
    → IsBitmap seen
    → newest history ≡ some h
    → ((d : ℕ) → d < 4096 → marked seen d ≡ expected_bit (some h) history d)
    → h < seq + 4096
    → Represents (mark (some h) seen seq) (seq ∷ history)
unfolding mark
mark-some seen history h seq b n bits near = elim (Bool-cases (ltb h seq)) [
  | inl ahead ↦
      let top : later seq (newest history) ≡ seq = ground (arith, n) in
      elim (Bool-cases (leb 4096 (seq - h))) [
        | inl far ↦
            rw (ahead, far)
              (record {
                highest = ap some (sym top);
                bitmap = set_bit-IsBitmap (replicate 64 0) 0 IsBitmap-replicate;
                bits = λ d hd.
                    at_top history seq d seq top
                      (cleared_bits seen seq d b hd history h n (ground arith) (ground arith));
              })
        | inr close ↦
            rw (ahead, close)
              (record {
                highest = ap some (sym top);
                bitmap =
                    set_bit-IsBitmap (shift_older seen (seq - h)) 0
                      (shift_older-IsBitmap seen (seq - h) b);
                bits = λ d hd. at_top history seq d seq top (
                    shifted_bits seen seq d b hd history h n (bits (d - (seq - h)) (omega arith))
                      (ground arith) (ground arith));
              })
      ]
  | inr behind ↦
      let top : later seq (newest history) ≡ h = ground (arith, n) in
      rw behind (record {
        highest = ap some (sym top);
        bitmap = set_bit-IsBitmap seen (h - seq) b;
        bits = λ d hd.
            at_top history seq d h top
              (behind_bits seen seq d b hd history h n (bits d hd) (ground arith) (omega arith));
      })
]

mark-Represents :
    (w : ReplayWindow) (history : List ℕ) (seq : ℕ)
    → Represents w history
    → fresh history seq ≡ true
    → Represents (mark w.highest w.seen seq) (seq ∷ history)
unfolding mark
mark-Represents w history seq r f = elim (Option-cases (newest history)) [
  | inl n ↦
      rw (r.highest, n, no_newest history n)
        (record {
          highest = refl;
          bitmap = set_bit-IsBitmap w.seen 0 r.bitmap;
          bits = λ d hd.
              first_bits w.seen seq d r.bitmap hd
                (r.bits d hd ∙ ap (λ (o : Option ℕ). expected_bit o history d) n);
        })
  | inr (h, n) ↦
      rw (r.highest, n)
        (mark-some w.seen history h seq r.bitmap n
          (λ d hd. r.bits d hd ∙ ap (λ (o : Option ℕ). expected_bit o history d) n)
          (fresh-recent history seq h n f))
]

pub commit-Represents :
    (w : ReplayWindow) (history : List ℕ) (seq : ℕ)
    → Represents w history
    → ((commit w seq).1 ≡ fresh history seq) × Represents (commit w seq).0 (extend history seq)
unfolding commit
commit-Represents w history seq r = elim (Bool-cases (fresh history seq)) [
  | inl f ↦ rw (may_accept-fresh w history seq r, f) (refl, mark-Represents w history seq r f)
  | inr f ↦ rw (may_accept-fresh w history seq r, f) (refl, r)
]

-- A run of the window over received numbers: for each whether it was committed.
pub commit_all : ReplayWindow → List ℕ → List Bool
unfolding commit
commit_all w [] = []
commit_all w (seq ∷ seqs) = let (w', taken) = commit w seq in taken ∷ commit_all w' seqs

-- The same run over the plain history.
abbrev pub fresh_all : List ℕ → List ℕ → List Bool
fresh_all history [] = []
fresh_all history (seq ∷ seqs) = fresh history seq ∷ fresh_all (extend history seq) seqs

-- The numbers of a run that the window committed, the latest first.
pub committed : ReplayWindow → List ℕ → List ℕ → List ℕ
unfolding commit
committed w taken [] = taken
committed w taken (seq ∷ seqs) =
    committed (commit w seq).0 (if (commit w seq).1 then seq ∷ taken else taken) seqs

commit_all-eq :
    (w : ReplayWindow) (history seqs : List ℕ)
    → Represents w history
    → commit_all w seqs ≡ fresh_all history seqs
unfolding commit_all
commit_all-eq w history [] r = refl
commit_all-eq w history (seq ∷ seqs) r =
    let (e, r') = commit-Represents w history seq r in
    ap₂ (λ (b : Bool) (bs : List Bool). b ∷ bs) e
      (commit_all-eq (commit w seq).0 (extend history seq) seqs r')

committed-IsDistinct :
    (w : ReplayWindow) (history seqs : List ℕ)
    → Represents w history
    → IsDistinct history
    → IsDistinct (committed w history seqs)
unfolding committed
committed-IsDistinct w history [] r d = d
committed-IsDistinct w history (seq ∷ seqs) r d =
    let (e, r') = commit-Represents w history seq r in
    rw e (
      committed-IsDistinct (commit w seq).0 (extend history seq) seqs r'
        (extend-IsDistinct history seq d))
  where
    extend-IsDistinct : (hs : List ℕ) (x : ℕ) → IsDistinct hs → IsDistinct (extend hs x)
    extend-IsDistinct hs x dis = elim (Bool-cases (fresh hs x)) [
      | inl f ↦ rw f (ground arith, dis)
      | inr f ↦ rw f dis
    ]

-- On every sequence of received numbers, in any order, the window started by `new` commits exactly
-- the numbers that were not committed before and are less than 4096 behind the highest committed.
pub commit_all-new : (seqs : List ℕ) → commit_all new seqs ≡ fresh_all [] seqs
commit_all-new seqs = commit_all-eq new [] seqs Represents-new

-- Whatever is received, no number is committed twice.
pub committed-new-IsDistinct : (seqs : List ℕ) → IsDistinct (committed new [] seqs)
committed-new-IsDistinct seqs = committed-IsDistinct new [] seqs Represents-new tt
