-- ===== src/Base/Queue.antt =====
-- What `try_send` of a bounded queue answers: taken, or the item is lost since the queue is full or its
-- receiver is gone.
pub data TrySend : Type 0 where
  taken full disconnected : TrySend
