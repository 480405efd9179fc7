-- ===== src/Server/Reader/Valid.antt =====
-- What a call of `server_queueread` keeps: the server's threshold, and the validity of the queues.
use carbon_c_relay.Prelude.{
  ℕ, Option, some, List, [], ◌∷◌, ◌==◌, length, drop, Bool-cases, Option-cases, inl, inr,
}
use carbon_c_relay.Queue.{Queue, queue_free, queue_dequeue_vector, queue_putback}
use carbon_c_relay.Queue.Inv.{IsValid, queue_putback-IsValid}
use carbon_c_relay.Queue.Batch.{queue_dequeue_vector_refines}
use carbon_c_relay.Server.Send.{update}
use carbon_c_relay.Server.Conn.{
  Socket, Conn, Kept, put_back, settle, send_batch, send_dequeued, server_queuesend, server_poll,
  until_null,
}
use carbon_c_relay.Server.Reader.{Secondary, is_busy, help}

put_back-IsValid : (ms : List (List ℕ)) (k : Kept) → IsValid k.queue → IsValid (put_back ms k).queue
unfolding put_back
put_back-IsValid [] k v = v
put_back-IsValid (m ∷ ms) k v = elim (Bool-cases (queue_putback k.queue (some m)).0) [
  | inl stored ↦
      rw (put_back, stored)
        (put_back-IsValid ms (record k { queue = (queue_putback k.queue (some m)).1 })
          (queue_putback-IsValid (some m) v))
  | inr refused ↦ rw (put_back, refused) (put_back-IsValid ms _ (queue_putback-IsValid (some m) v))
]

settle-IsValid :
    (batch : List (List ℕ)) (len flushed : ℕ) (q : Queue (List ℕ)) (dropped : ℕ) (c : Conn)
    → IsValid q
    → IsValid (settle batch len flushed q dropped c).kept.queue
unfolding settle
settle-IsValid batch len flushed q dropped c v = elim (Option-cases c.fd) [
  | inl closed ↦ rw (settle, closed) (put_back-IsValid (drop flushed batch) _ v)
  | inr (fd, opened) ↦ rw (settle, opened) v
]

send_dequeued-IsValid :
    (socket : Socket) (c : Conn) (ret : List (Option (List ℕ))) (q : Queue (List ℕ)) (dropped : ℕ)
    → IsValid q
    → IsValid (send_dequeued socket c ret q dropped).kept.queue
unfolding send_dequeued send_batch
send_dequeued-IsValid socket c ret q dropped v = elim (Bool-cases (length ret == 0)) [
  | inl empty ↦ rw (send_dequeued, empty) v
  | inr full ↦
      rw (send_dequeued, full) (settle-IsValid (until_null ret) (length ret) _ q dropped _ v)
]

pub server_queuesend-IsValid :
    (socket : Socket) (bsize : ℕ) (c : Conn) (q : Queue (List ℕ)) (dropped : ℕ)
    → IsValid q
    → IsValid (server_queuesend socket bsize c q dropped).kept.queue
unfolding server_queuesend
server_queuesend-IsValid socket bsize c q dropped v = elim (Bool-cases (server_poll socket c).0) [
  | inl ready ↦
      rw (server_queuesend, ready)
        (send_dequeued-IsValid socket (server_poll socket c).1 (queue_dequeue_vector q bsize).0
          (queue_dequeue_vector q bsize).1 dropped (queue_dequeue_vector_refines q bsize v).1)
  | inr not_ready ↦ rw (server_queuesend, not_ready) v
]

abbrev pub AllValid : (ℕ → Queue (List ℕ)) → Type 0
AllValid queues = (k : ℕ) → IsValid (queues k)

pub update-AllValid :
    (queues : ℕ → Queue (List ℕ)) (k : ℕ) (q : Queue (List ℕ))
    → AllValid queues
    → IsValid q
    → AllValid (update queues k q)
update-AllValid queues k q v w j = elim (Bool-cases (j == k)) [
  | inl same ↦ rw same w
  | inr other ↦ rw other (v j)
]

pub help-AllValid :
    (socket : Socket) (bsize id qfree : ℕ) (queues : ℕ → Queue (List ℕ)) (c : Conn) (len : ℕ)
    (ps : List Secondary)
    → AllValid queues
    → AllValid (help socket bsize id qfree queues c len ps).queues
unfolding help
help-AllValid socket bsize id qfree queues c len [] v = v
help-AllValid socket bsize id qfree queues c len (p ∷ ps) v =
    let d = server_queuesend socket bsize c (queues p.queue) p.dropped in
    let v' =
      update-AllValid queues p.queue d.kept.queue v
        (server_queuesend-IsValid socket bsize c (queues p.queue) p.dropped (v p.queue)) in
    elim (Bool-cases (is_busy id qfree (queue_free (queues p.queue)) p)) [
      | inr idle ↦ rw (help, idle) (help-AllValid socket bsize id qfree queues c len ps v)
      | inl busy ↦ elim (Option-cases d.result) [
        | inl failed ↦ rw (help, busy, failed) v'
        | inr (k, sent) ↦
            rw (help, busy, sent)
              (help-AllValid socket bsize id qfree (update queues p.queue d.kept.queue) d.conn _ ps
                v')
      ]
    ]
