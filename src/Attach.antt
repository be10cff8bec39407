-- ===== src/Attach.antt =====
-- A client attaches to the output of a pane (`stream_connect` of crates/pyred/src/stream.rs): it is
-- sent the replay buffer, and then what the output channel brings. The steps of the daemon's reader
-- thread and of the attaching task come in any order.
use pyre.Prelude.{ℕ, ◌<◌, ◌^◌, ◌≡◌, refl, sym, ap, ◌∙◌, Bool, true, false, List, [], ◌∷◌, ◌++◌}
use pyre.Prelude.{arith, all, take, drop, append-nil, append_assoc, flatten, if◌then◌else◌}
use pyre.RingBuf
use pyre.RingBuf.{RingBuf, push, push_chunks, snapshot}
use pyre.RingBuf.Contents.{suffix}
use pyre.RingBuf.Replay.{snapshot-push_chunks}

-- `in_flight` are the chunks that the reader thread has put into the buffer and not yet handed to
-- the output channel, `queue` those that wait in the subscriber's end of the channel, and `sent` what
-- the client was sent so far.
pub record PaneOutput : Type 0 where
  pub ringbuf : RingBuf
  pub in_flight : List (List ℕ)
  pub subscribed : Bool
  pub queue : List (List ℕ)
  pub sending : Bool
  pub sent : List ℕ

-- The reader thread puts a chunk into the buffer and later hands it to the channel; the attaching
-- task sends the snapshot, subscribes, and then takes chunks from the channel, which may have dropped
-- the oldest ones, until the pane or the socket is closed.
pub data AttachStep : Type 0 where
  buffer : (chunk : List ℕ) → AttachStep
  hand_over : AttachStep
  send_snapshot : AttachStep
  subscribe : AttachStep
  receive : AttachStep
  lag : (n : ℕ) → AttachStep
  stop : AttachStep

unfoldable pub step : PaneOutput → AttachStep → PaneOutput
step p (buffer chunk) = record p {
  ringbuf = push p.ringbuf chunk;
  in_flight = p.in_flight ++ (chunk ∷ []);
}
step p hand_over = record p {
  in_flight = drop 1 p.in_flight;
  queue = if p.subscribed then p.queue ++ take 1 p.in_flight else p.queue;
}
step p send_snapshot = record p { sent = p.sent ++ snapshot p.ringbuf }
step p subscribe = record p { subscribed = true }
step p receive =
    if p.sending
    then record p { queue = drop 1 p.queue; sent = p.sent ++ flatten (take 1 p.queue) }
    else p
step p (lag n) = record p { queue = drop n p.queue }
step p stop = record p { sending = false }

unfoldable pub run : PaneOutput → List AttachStep → PaneOutput
run p [] = p
run p (s ∷ steps) = run (step p s) steps

-- The task's order: the snapshot is taken and sent, and then it subscribes; what happens before,
-- between and after these two.
unfoldable pub attach : ℕ → List AttachStep → List AttachStep → List AttachStep → PaneOutput
attach cap past gap live =
    run
      (record {
        ringbuf = RingBuf.new cap;
        in_flight = [];
        subscribed = false;
        queue = [];
        sending = true;
        sent = [];
      })
      (past ++ (send_snapshot ∷ (gap ++ (subscribe ∷ live))))

-- The steps of the reader thread, and those with a receiver that keeps up and is not closed.
abbrev is_read : AttachStep → Bool
is_read (buffer chunk) = true
is_read hand_over = true
is_read _ = false

abbrev is_smooth : AttachStep → Bool
is_smooth receive = true
is_smooth s = is_read s

-- The chunks that the pane puts out, and those of them that are in flight at the end.
unfoldable pub chunks_of : List AttachStep → List (List ℕ)
chunks_of [] = []
chunks_of (buffer chunk ∷ steps) = chunk ∷ chunks_of steps
chunks_of (_ ∷ steps) = chunks_of steps

unfoldable pub flying : List (List ℕ) → List AttachStep → List (List ℕ)
flying chunks [] = chunks
flying chunks (buffer chunk ∷ steps) = flying (chunks ++ (chunk ∷ [])) steps
flying chunks (hand_over ∷ steps) = flying (drop 1 chunks) steps
flying chunks (_ ∷ steps) = flying chunks steps

-- Until the subscription nothing reaches the client.
abbrev unheard : RingBuf → List (List ℕ) → List ℕ → PaneOutput
unheard r chunks sent = record {
  ringbuf = r;
  in_flight = chunks;
  subscribed = false;
  queue = [];
  sending = true;
  sent = sent;
}

run-before :
    (r : RingBuf) (chunks : List (List ℕ)) (sent : List ℕ) (steps rest : List AttachStep)
    → all is_read steps ≡ true
    → run (unheard r chunks sent) (steps ++ rest)
      ≡ run (unheard (push_chunks r (chunks_of steps)) (flying chunks steps) sent) rest
unfolding run step chunks_of flying push_chunks
run-before r chunks sent [] rest h = refl
run-before r chunks sent (buffer c ∷ steps) rest h =
    run-before (push r c) (chunks ++ (c ∷ [])) sent steps rest h
run-before r chunks sent (hand_over ∷ steps) rest h = run-before r (drop 1 chunks) sent steps rest h
run-before r chunks sent (send_snapshot ∷ steps) rest h = absurd (ground (arith, h))
run-before r chunks sent (subscribe ∷ steps) rest h = absurd (ground (arith, h))
run-before r chunks sent (receive ∷ steps) rest h = absurd (ground (arith, h))
run-before r chunks sent (lag n ∷ steps) rest h = absurd (ground (arith, h))
run-before r chunks sent (stop ∷ steps) rest h = absurd (ground (arith, h))

-- What the client was sent, and what is on its way to it.
abbrev pub on_the_way : PaneOutput → List ℕ
on_the_way p = p.sent ++ flatten (p.queue ++ p.in_flight)

abbrev after : RingBuf → List (List ℕ) → List (List ℕ) → List ℕ → PaneOutput
after r chunks queue sent = record {
  ringbuf = r;
  in_flight = chunks;
  subscribed = true;
  queue = queue;
  sending = true;
  sent = sent;
}

first_moves :
    (queue chunks more : List (List ℕ))
    → (queue ++ take 1 chunks) ++ (drop 1 chunks ++ more) ≡ queue ++ (chunks ++ more)
first_moves queue [] more = append_assoc queue [] more
first_moves queue (c ∷ chunks) more = append_assoc queue (c ∷ []) (chunks ++ more)

first_sent :
    (sent : List ℕ) (queue more : List (List ℕ))
    → (sent ++ flatten (take 1 queue)) ++ flatten (drop 1 queue ++ more)
      ≡ sent ++ flatten (queue ++ more)
first_sent sent [] more = append_assoc sent [] (flatten more)
first_sent sent (c ∷ queue) more =
    ap (λ l. (sent ++ l) ++ flatten (queue ++ more)) (append-nil c)
    ∙ append_assoc sent c (flatten (queue ++ more))

run-after :
    (r : RingBuf) (chunks queue : List (List ℕ)) (sent : List ℕ) (steps : List AttachStep)
    → all is_smooth steps ≡ true
    → on_the_way (run (after r chunks queue sent) steps)
      ≡ sent ++ flatten (queue ++ (chunks ++ chunks_of steps))
unfolding run step chunks_of
run-after r chunks queue sent [] h =
    ap (λ l. sent ++ flatten (queue ++ l)) (sym (append-nil chunks))
run-after r chunks queue sent (buffer c ∷ steps) h =
    run-after (push r c) (chunks ++ (c ∷ [])) queue sent steps h
    ∙ ap (λ l. sent ++ flatten (queue ++ l)) (append_assoc chunks (c ∷ []) (chunks_of steps))
run-after r chunks queue sent (hand_over ∷ steps) h =
    run-after r (drop 1 chunks) (queue ++ take 1 chunks) sent steps h
    ∙ ap (λ l. sent ++ flatten l) (first_moves queue chunks (chunks_of steps))
run-after r chunks queue sent (receive ∷ steps) h =
    run-after r chunks (drop 1 queue) (sent ++ flatten (take 1 queue)) steps h
    ∙ first_sent sent queue (chunks ++ chunks_of steps)
run-after r chunks queue sent (send_snapshot ∷ steps) h = absurd (ground (arith, h))
run-after r chunks queue sent (subscribe ∷ steps) h = absurd (ground (arith, h))
run-after r chunks queue sent (lag n ∷ steps) h = absurd (ground (arith, h))
run-after r chunks queue sent (stop ∷ steps) h = absurd (ground (arith, h))

-- In every order of the reader's and the task's steps in which the receiver does not lag and is not
-- closed, what the client was sent, with what is queued for it and in flight, is the last `cap` bytes
-- that the buffer took before the snapshot, and then every chunk handed to the channel after the
-- subscription: those in flight then, and those put out since. So a chunk that is buffered before the
-- snapshot and in flight at the subscription comes twice, and one that is buffered and handed over
-- between the two does not come at all.
pub sent-attach :
    (cap : ℕ) (past gap live : List AttachStep)
    → cap < 2 ^ 63
    → all is_read past ≡ true
    → all is_read gap ≡ true
    → all is_smooth live ≡ true
    → on_the_way (attach cap past gap live)
      ≡ suffix cap (flatten (chunks_of past))
        ++ flatten (flying (flying [] past) gap ++ chunks_of live)
unfolding attach run step
sent-attach cap past gap live h reads gap_reads smooth =
    ap on_the_way (run-before (RingBuf.new cap) [] [] past _ reads)
    ∙ ap on_the_way (
        run-before (push_chunks (RingBuf.new cap) (chunks_of past)) (flying [] past) (snapshot _)
          gap _ gap_reads)
    ∙ run-after _ (flying (flying [] past) gap) [] _ live smooth
    ∙ ap (λ l. l ++ flatten (flying (flying [] past) gap ++ chunks_of live))
        (snapshot-push_chunks cap (chunks_of past) h)
