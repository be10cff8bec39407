-- ===== src/RingBuf/Replay.antt =====
-- What a reattaching client is shown: the last `cap` bytes of all that was pushed, in order,
-- however the output was cut into chunks.
use native.Mathlib.Decide.{dec_lt, dec_le}
use pyre.Prelude.{ℕ, ◌+◌, ◌-◌, ◌^◌, ◌≤◌, ◌<◌, ◌≡◌, sym, ap, ◌∙◌, arith}
use pyre.Prelude.{List, [], ◌∷◌, ◌++◌, length, drop, leb, le→leb, ==_iff, ==_ne}
use pyre.Prelude.{drop-append_ge, length-append, length-drop, append-nil, append_assoc, drop_all}
use pyre.Prelude.{false, flatten, if◌then◌else◌}
use pyre.RingBuf.{RingBuf, new, push_loop, push, snapshot, push_chunks}
use pyre.RingBuf.Bounds.{IsValid, new-IsValid, push-IsValid, cap-push}
use pyre.RingBuf.Circular.{tabulate, length-tabulate}
use pyre.RingBuf.Contents.{
  suffix, entry, contents, suffix-suffix, suffix_short, contents-push_loop, snapshot-eq-contents,
}

-- Cutting an input down to its last `c` bytes first does not change the last `c` of the whole.
suffix-drop :
    (c : ℕ) (xs ys : List ℕ)
    → c ≤ length ys
    → suffix c (xs ++ drop (length ys - c) ys) ≡ suffix c (xs ++ ys)
suffix-drop c xs ys h =
    drop-append_ge _ xs (drop (length ys - c) ys) (omega (arith, short))
    ∙ ap (λ k. drop k (drop (length ys - c) ys)) {y = 0} (omega (arith, short))
    ∙ sym (
        drop-append_ge (length (xs ++ ys) - c) xs ys (omega (arith, long))
        ∙ ap (λ k. drop k ys) {y = length ys - c} (omega (arith, long)))
  where
    short : length (xs ++ drop (length ys - c) ys) ≡ length xs + c
    short =
        omega (arith, length-append xs (drop (length ys - c) ys), length-drop (length ys - c) ys)

    long : length (xs ++ ys) ≡ length xs + length ys
    long = length-append xs ys

-- What the loop is given stands for the whole input.
contents-push_loop_cut :
    (r : RingBuf) (bytes : List ℕ)
    → IsValid r
    → 0 < r.cap
    → contents (
        push_loop r (if leb r.cap (length bytes) then drop (length bytes - r.cap) bytes else bytes))
      ≡ suffix r.cap (contents r ++ bytes)
contents-push_loop_cut r bytes v p = elim (dec_le r.cap (length bytes)) [
  | yes h ↦ rw (le→leb r.cap (length bytes) h) (
      contents-push_loop r (drop (length bytes - r.cap) bytes) v p
      ∙ suffix-drop r.cap (contents r) bytes h)
  | no h ↦
      let e : leb r.cap (length bytes) ≡ false = ground arith in
      rw e (contents-push_loop r bytes v p)
]

length-contents : (r : RingBuf) → length (contents r) ≡ r.len
length-contents r = length-tabulate r.len (entry r)

contents-push :
    (r : RingBuf) (bytes : List ℕ)
    → IsValid r
    → contents (push r bytes) ≡ suffix r.cap (contents r ++ bytes)
unfolding push
contents-push r [] v = ground (
  arith,
  append-nil (contents r),
  suffix_short r.cap (contents r) (omega (arith, length-contents r)),
)
contents-push r (b ∷ bytes) v = elim (dec_lt 0 r.cap) [
  | yes p ↦ rw (==_ne r.cap 0 (omega arith)) (contents-push_loop_cut r (b ∷ bytes) v p)
  | no p ↦
      let e : r.cap ≡ 0 = omega arith in
      rw ((==_iff r.cap 0).1 e) (
        ap (λ k. tabulate k (entry r)) {y = 0} (omega arith)
        ∙ sym (drop_all (length all - r.cap) all (omega arith)))
]
  where
    all : List ℕ
    all = contents r ++ (b ∷ bytes)

-- The buffer after a push holds the last `cap` bytes of what it held and the bytes pushed, in
-- order, for every valid buffer and every input.
pub snapshot-push :
    (r : RingBuf) (bytes : List ℕ)
    → IsValid r
    → snapshot (push r bytes) ≡ suffix r.cap (snapshot r ++ bytes)
snapshot-push r bytes v =
    snapshot-eq-contents (push r bytes) (push-IsValid r bytes v)
    ∙ contents-push r bytes v
    ∙ ap (λ l. suffix r.cap (l ++ bytes)) (sym (snapshot-eq-contents r v))

snapshot-push_chunks_from :
    (r : RingBuf) (chunks : List (List ℕ))
    → IsValid r
    → snapshot (push_chunks r chunks) ≡ suffix r.cap (snapshot r ++ flatten chunks)
unfolding push_chunks
snapshot-push_chunks_from r [] v = rw append-nil (
    sym (
      suffix_short r.cap (snapshot r)
        (omega (arith, ap length (snapshot-eq-contents r v), length-contents r))))
snapshot-push_chunks_from r (c ∷ chunks) v =
    snapshot-push_chunks_from (push r c) chunks (push-IsValid r c v)
    ∙ ap (λ k. suffix k (snapshot (push r c) ++ flatten chunks)) (cap-push r c)
    ∙ ap (λ l. suffix r.cap (l ++ flatten chunks)) (snapshot-push r c v)
    ∙ suffix-suffix r.cap (snapshot r ++ c) (flatten chunks)
    ∙ ap (suffix r.cap) (append_assoc (snapshot r) c (flatten chunks))

-- A new buffer of capacity `cap` that is fed any sequence of chunks replays exactly the last
-- `cap` bytes of their concatenation, wherever the chunks were cut.
pub snapshot-push_chunks :
    (cap : ℕ) (chunks : List (List ℕ))
    → cap < 2 ^ 63
    → snapshot (push_chunks (new cap) chunks) ≡ suffix cap (flatten chunks)
unfolding new snapshot
snapshot-push_chunks cap chunks h = snapshot-push_chunks_from (new cap) chunks (new-IsValid cap h)
