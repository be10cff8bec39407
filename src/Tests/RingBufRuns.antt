-- ===== src/Tests/RingBufRuns.antt =====
-- The unit tests of crates/pyred/src/ringbuf.rs, and the theorems about the buffer at small inputs.
use pyre.Prelude.{ℕ, ◌≡◌, refl, List, [], ◌∷◌, arith}
use pyre.Attach.{
  AttachStep, buffer, hand_over, receive, step, run, attach, chunks_of, flying, on_the_way,
  sent-attach,
}
use pyre.RingBuf.{RingBuf, new, push_byte, push_loop, push, snapshot, push_chunks}
use pyre.RingBuf.Bounds.{IsValid, push_chunks-IsValid}
use pyre.RingBuf.Replay.{snapshot-push, snapshot-push_chunks}

-- "12345678" fills the buffer, "ABCD" goes round its end.
abbrev chunks : List (List ℕ)
chunks =
    (b'1' ∷ b'2' ∷ b'3' ∷ b'4' ∷ b'5' ∷ b'6' ∷ b'7' ∷ b'8' ∷ [])
    ∷ (b'A' ∷ b'B' ∷ b'C' ∷ b'D' ∷ [])
    ∷ []

multiple_pushes_wrapping_correct_order :
    snapshot (push_chunks (new 8) chunks)
    ≡ b'5' ∷ b'6' ∷ b'7' ∷ b'8' ∷ b'A' ∷ b'B' ∷ b'C' ∷ b'D' ∷ []
unfolding snapshot push_chunks push push_loop push_byte new
multiple_pushes_wrapping_correct_order = refl

push_larger_than_cap_single_call : snapshot (push (new 2) (1 ∷ 2 ∷ 3 ∷ [])) ≡ 2 ∷ 3 ∷ []
unfolding snapshot push push_loop push_byte new
push_larger_than_cap_single_call = refl

snapshot-push_chunks_example :
    snapshot (push_chunks (new 8) chunks)
    ≡ b'5' ∷ b'6' ∷ b'7' ∷ b'8' ∷ b'A' ∷ b'B' ∷ b'C' ∷ b'D' ∷ []
snapshot-push_chunks_example = snapshot-push_chunks 8 chunks (omega arith)

-- 8, then 9, round the end of an array of three bytes.
abbrev wrapped : RingBuf
wrapped = record { buf = 9 ∷ 7 ∷ 8 ∷ []; head = 2; len = 2; cap = 3 }

wrapped-IsValid : IsValid wrapped
wrapped-IsValid = ground arith

snapshot-push_example : snapshot (push wrapped (1 ∷ 2 ∷ [])) ≡ 9 ∷ 1 ∷ 2 ∷ []
unfolding snapshot
snapshot-push_example = snapshot-push wrapped (1 ∷ 2 ∷ []) wrapped-IsValid

push_chunks-IsValid_example : IsValid (push_chunks wrapped chunks)
push_chunks-IsValid_example = push_chunks-IsValid wrapped chunks wrapped-IsValid

-- Of the two chunks before the snapshot the second is in flight until the subscription has come, and
-- comes twice; one that is handed over in between does not come.
abbrev past : List AttachStep
past = buffer (1 ∷ []) ∷ hand_over ∷ buffer (2 ∷ []) ∷ []

sent-attach_example :
    on_the_way (attach 8 past [] (hand_over ∷ buffer (3 ∷ []) ∷ hand_over ∷ receive ∷ []))
    ≡ 1 ∷ 2 ∷ 2 ∷ 3 ∷ []
unfolding chunks_of flying
sent-attach_example =
    sent-attach 8 past [] (hand_over ∷ buffer (3 ∷ []) ∷ hand_over ∷ receive ∷ []) (omega arith)
      refl refl refl

missed_between :
    (attach 8 past
      (hand_over ∷ buffer (7 ∷ []) ∷ hand_over ∷ [])
      (buffer (3 ∷ []) ∷ hand_over ∷ receive ∷ [])).sent
    ≡ 1 ∷ 2 ∷ 3 ∷ []
unfolding attach run step snapshot push push_loop push_byte new
missed_between = refl
