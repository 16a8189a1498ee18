-- ===== src/ClientUdp/Stream/Reads.antt =====
-- Reading a stream of common/src/client_connection/udp.rs, against a queue of whole datagrams.
use ppaass_ai.Base.{
  ℕ, ◌≡◌, refl, sym, ap, ap₂, ◌∙◌, inl, inr, Bool, Bool-cases, true, List, [], ◌∷◌, ◌++◌, length,
  drop, arith, ltb, ◌==◌, if◌then◌else◌, append_assoc,
}
use ppaass_ai.ClientUdp.Stream.{
  UdpClientStream, ReadResult, ready, short_datagram_buffer, not_ready, read_whole, receive_next,
  read_rest, poll_read,
}

abbrev pub filled : List (List ℕ) → List (List ℕ)
filled [] = []
filled ([] ∷ rest) = filled rest
filled ((b ∷ bytes) ∷ rest) = (b ∷ bytes) ∷ filled rest

abbrev pub unread : List ℕ → ℕ → List (List ℕ)
unread buf pos = if ltb pos (length buf) then drop pos buf ∷ [] else []

-- The datagrams that are still to be read.
abbrev pub waiting : UdpClientStream → List (List ℕ)
waiting s = unread s.read_buf s.read_pos ++ filled s.inbound

-- What a queue of whole datagrams answers: a read takes the first as a whole, or leaves it if there is
-- not room for it.
abbrev pub take_first : ℕ → Bool → List (List ℕ) → ReadResult × List (List ℕ)
take_first remaining ended [] = (if ended then ready [] else not_ready, [])
take_first remaining ended (datagram ∷ rest) =
    if ltb remaining (length datagram)
    then (short_datagram_buffer remaining (length datagram), datagram ∷ rest)
    else (ready datagram, rest)

abbrev pub read_fifo : ℕ → Bool → List (List ℕ) → ReadResult × List (List ℕ)
read_fifo remaining ended queue =
    if remaining == 0 then (ready [], queue) else take_first remaining ended queue

-- The stream after a read stands for the queue after it, and ends when it did.
pub record IsRead (remaining : ℕ) (s : UdpClientStream) (queue : List (List ℕ))
    (after : ReadResult × UdpClientStream) : Type 0 where
  pub result : after.0 ≡ (take_first remaining s.ended queue).0
  pub left : waiting after.1 ≡ (take_first remaining s.ended queue).1
  pub same_end : after.1.ended ≡ s.ended

read_all : (buf : List ℕ) (more : List (List ℕ)) → unread buf (length buf) ++ more ≡ more
read_all buf more = ground arith

unread-start : (b : ℕ) (bytes : List ℕ) → unread (b ∷ bytes) 0 ≡ (b ∷ bytes) ∷ []
unread-start b bytes = ground arith

receive_next-IsRead :
    (remaining : ℕ) (inbound : List (List ℕ)) (s : UdpClientStream)
    → IsRead remaining s (filled inbound) (receive_next remaining inbound s)
unfolding receive_next read_whole
receive_next-IsRead remaining [] s = record { result = refl; left = refl; same_end = refl }
receive_next-IsRead remaining ([] ∷ rest) s = receive_next-IsRead remaining rest s
receive_next-IsRead remaining ((b ∷ bytes) ∷ rest) s =
    elim (Bool-cases (ltb remaining (length (b ∷ bytes)))) [
      | inl short ↦ record {
        result = rw short refl;
        left = rw short (ap (λ (t : List (List ℕ)). t ++ filled rest) (unread-start b bytes));
        same_end = rw short refl;
      }
      | inr fits ↦ record {
        result = rw fits refl;
        left = rw fits (read_all (b ∷ bytes) (filled rest));
        same_end = rw fits refl;
      }
    ]

read_rest-IsRead :
    (remaining : ℕ) (s : UdpClientStream)
    → ltb s.read_pos (length s.read_buf) ≡ true
    → IsRead remaining s
        (drop s.read_pos s.read_buf ∷ filled s.inbound)
        (read_rest remaining (drop s.read_pos s.read_buf) s)
unfolding read_rest
read_rest-IsRead remaining s some_left =
    elim (Bool-cases (ltb remaining (length (drop s.read_pos s.read_buf)))) [
      | inl short ↦ record {
        result = rw short refl;
        left = rw (short, some_left) refl;
        same_end = rw short refl;
      }
      | inr fits ↦ record {
        result = rw fits refl;
        left = rw fits (read_all s.read_buf (filled s.inbound));
        same_end = rw fits refl;
      }
    ]

-- A read of a stream answers as its queue of whole datagrams does: it takes the first as a whole, or
-- leaves it and says how much room it needs; nothing is split, lost or passed twice.
poll_read_lem :
    (remaining : ℕ) (s : UdpClientStream)
    → ((poll_read remaining s).0 ≡ (read_fifo remaining s.ended (waiting s)).0)
      × (waiting (poll_read remaining s).1 ≡ (read_fifo remaining s.ended (waiting s)).1)
      × ((poll_read remaining s).1.ended ≡ s.ended)
unfolding poll_read
poll_read_lem remaining s = elim (Bool-cases (remaining == 0)) [
  | inl no_room ↦ rw no_room (refl, refl, refl)
  | inr room ↦ rw room (elim (Bool-cases (ltb s.read_pos (length s.read_buf))) [
    | inl some_left ↦
        let r = read_rest-IsRead remaining s some_left in
        rw some_left (r.result, r.left, r.same_end)
    | inr none_left ↦
        let r = receive_next-IsRead remaining s.inbound s in
        rw none_left (r.result, r.left, r.same_end)
  ])
]

-- What happens at the two ends of the queue: a datagram is put in, the senders go, or the caller reads
-- with so much room.
pub data ReadEvent : Type 0 where
  arrived : List ℕ → ReadEvent
  hung_up : ReadEvent
  reading : ℕ → ReadEvent

unfoldable pub run_reads : List ReadEvent → UdpClientStream → List ReadResult
run_reads [] s = []
run_reads (arrived datagram ∷ events) s =
    run_reads events (record s { inbound = s.inbound ++ (datagram ∷ []) })
run_reads (hung_up ∷ events) s = run_reads events (record s { ended = true })
run_reads (reading remaining ∷ events) s =
    let (result, s') = poll_read remaining s in result ∷ run_reads events s'

-- The same on a queue of datagrams that are not empty.
unfoldable pub run_fifo : List ReadEvent → Bool → List (List ℕ) → List ReadResult
run_fifo [] ended queue = []
run_fifo (arrived datagram ∷ events) ended queue =
    run_fifo events ended (queue ++ filled (datagram ∷ []))
run_fifo (hung_up ∷ events) ended queue = run_fifo events true queue
run_fifo (reading remaining ∷ events) ended queue =
    let (result, queue') = read_fifo remaining ended queue in result ∷ run_fifo events ended queue'

filled-append : (xs ys : List (List ℕ)) → filled (xs ++ ys) ≡ filled xs ++ filled ys
filled-append [] ys = refl
filled-append ([] ∷ xs) ys = filled-append xs ys
filled-append ((b ∷ bytes) ∷ xs) ys = ap (λ t. (b ∷ bytes) ∷ t) (filled-append xs ys)

-- Whatever arrives and however the caller reads, the answers of a stream are those of a queue of whole
-- datagrams without the empty ones: each read takes the first datagram as a whole, or leaves it and says
-- how much room it needs, and none is split, lost, repeated or passed out of order.
pub run_reads-eq-run_fifo :
    (events : List ReadEvent) (s : UdpClientStream)
    → run_reads events s ≡ run_fifo events s.ended (waiting s)
unfolding run_reads run_fifo
run_reads-eq-run_fifo [] s = refl
run_reads-eq-run_fifo (arrived datagram ∷ events) s =
    let queued : unread s.read_buf s.read_pos ++ filled (s.inbound ++ (datagram ∷ []))
        ≡ waiting s ++ filled (datagram ∷ []) =
      ap (λ t. unread s.read_buf s.read_pos ++ t) (filled-append s.inbound (datagram ∷ []))
      ∙ sym (
          append_assoc (unread s.read_buf s.read_pos) (filled s.inbound)
            (filled (datagram ∷ []))) in
    run_reads-eq-run_fifo events (record s { inbound = s.inbound ++ (datagram ∷ []) })
    ∙ ap (run_fifo events s.ended) queued
run_reads-eq-run_fifo (hung_up ∷ events) s =
    run_reads-eq-run_fifo events (record s { ended = true })
run_reads-eq-run_fifo (reading remaining ∷ events) s =
    let (result, left, same) = poll_read_lem remaining s in
    let after = (poll_read remaining s).1 in
    ap₂ (λ (r : ReadResult) (rs : List ReadResult). r ∷ rs) result
      (run_reads-eq-run_fifo events after ∙ ap₂ (run_fifo events) same left)
