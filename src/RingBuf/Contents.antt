-- ===== src/RingBuf/Contents.antt =====
-- The bytes that the buffer holds, read in circular order: what one byte, one loop and `snapshot`
-- make of them.
use pyre.Prelude.{ℕ, suc, ◌+◌, ◌-◌, ◌%◌, ◌≤◌, ◌<◌, ◌≡◌, sym, ap, ◌∙◌, arith}
use pyre.Prelude.{
  List, [], ◌∷◌, ◌++◌, length, get_or, set, take, drop, lt→ltb, le→leb, ==_iff, ==_ne, ap₂,
}
use pyre.Prelude.{drop-append_le, drop-drop, length-append, length-drop}
use pyre.Prelude.{append_assoc, append-nil, get_or-set_self, get_or-set_ne}
use pyre.Prelude.Machine.{u64}
use native.Mathlib.Nat.{mod-lt, mod-add-mod}
use native.Mathlib.Decide.{dec_lt, dec_le}
use pyre.RingBuf.{RingBuf, push_byte, push_loop, snapshot}
use pyre.RingBuf.Bounds.{IsValid, push_byte-IsValid, cap-push_byte}
use pyre.RingBuf.Circular.{
  tabulate, length-tabulate, tabulate_ext, tabulate-suc, tabulate-add, take-drop-tabulate,
  mod_below, mod_round, mod-ne, take_all,
}

-- The last `c` elements.
abbrev pub suffix : ℕ → List ℕ → List ℕ
suffix c l = drop (length l - c) l

-- The bytes held, read in circular order.
abbrev pub entry : RingBuf → ℕ → ℕ
entry r i = get_or r.buf ((r.head + i) % r.cap) 0

abbrev pub contents : RingBuf → List ℕ
contents r = tabulate r.len (entry r)

push_byte_room :
    (r : RingBuf) (b : ℕ)
    → IsValid r
    → r.len < r.cap
    → push_byte r b ≡ record r { buf = set r.buf ((r.head + r.len) % r.cap) b; len = suc r.len }
unfolding push_byte
push_byte_room r b v h =
    let sum : u64 (r.head + r.len) ≡ r.head + r.len = ground (arith, v.head_in) in
    ground (arith, lt→ltb r.len r.cap h, sum)

push_byte_full :
    (r : RingBuf) (b : ℕ)
    → IsValid r
    → r.len ≡ r.cap
    → 0 < r.cap
    → push_byte r b ≡ record r { buf = set r.buf r.head b; head = (r.head + 1) % r.cap }
unfolding push_byte
push_byte_full r b v h p =
    let low : r.head < r.cap = v.head_in p in
    let sum : u64 (r.head + r.len) ≡ r.head + r.len = omega arith in
    let next : u64 (r.head + 1) ≡ r.head + 1 = omega arith in
    ground (arith, sum, next, mod_round (r.head + r.len) r.cap)

-- A byte written while there is room stands behind the contents.
contents-push_byte_room :
    (r : RingBuf) (b : ℕ)
    → IsValid r
    → r.len < r.cap
    → contents (push_byte r b) ≡ contents r ++ (b ∷ [])
contents-push_byte_room r b v h = rw (push_byte_room r b v h) (
    tabulate-suc r.len (entry r')
    ∙ ap₂ (λ l x. l ++ (x ∷ [])) (tabulate_ext r.len (entry r') (entry r) old) last)
  where
    w : ℕ
    w = (r.head + r.len) % r.cap

    r' : RingBuf
    r' = record r { buf = set r.buf w b; len = suc r.len }

    low : w < length r.buf
    low = omega (arith, mod-lt (r.head + r.len) {m = r.cap} (omega arith))

    last : entry r' r.len ≡ b
    last = get_or-set_self r.buf w b 0 low

    old : (i : ℕ) → i < r.len → entry r' i ≡ entry r i
    old i p =
        get_or-set_ne r.buf w ((r.head + i) % r.cap) b 0
          (mod-ne r.head i r.len r.cap (v.head_in (omega arith)) p h)

-- A byte written into a full ring takes the place of the oldest one.
contents-push_byte_full :
    (r : RingBuf) (b c : ℕ)
    → IsValid r
    → r.len ≡ r.cap
    → r.cap ≡ suc c
    → contents (push_byte r b) ≡ drop 1 (contents r ++ (b ∷ []))
contents-push_byte_full r b c v h p = rw (push_byte_full r b v h (omega arith)) (
    ap (λ k. tabulate k (entry r')) (h ∙ p)
    ∙ tabulate-suc c (entry r')
    ∙ ap₂ (λ l x. l ++ (x ∷ [])) (tabulate_ext c (entry r') (λ i. entry r (suc i)) old) last
    ∙ ap (λ k. drop 1 (tabulate k (entry r) ++ (b ∷ []))) (sym (h ∙ p)))
  where
    r' : RingBuf
    r' = record r { buf = set r.buf r.head b; head = (r.head + 1) % r.cap }

    low : r.head < r.cap
    low = v.head_in (omega arith)

    turn : (i : ℕ) → ((r.head + 1) % r.cap + i) % r.cap ≡ (r.head + suc i) % r.cap
    turn i = rw mod-add-mod (ap (λ k. k % r.cap) (omega arith))

    back : (r.head + suc c) % r.cap ≡ r.head
    back = omega (arith, mod_round (r.head + suc c) r.cap (omega arith) (omega arith))

    last : entry r' c ≡ b
    last = rw (turn c, back) (get_or-set_self r.buf r.head b 0 (omega arith))

    old : (i : ℕ) → i < c → entry r' i ≡ entry r (suc i)
    old i q = rw (turn i) (
        get_or-set_ne r.buf r.head ((r.head + suc i) % r.cap) b 0 (λ e.
          mod-ne r.head 0 (suc i) r.cap low (omega arith) (omega arith)
            (omega (arith, mod_below (r.head + 0) r.cap (omega arith)))))

-- Keeping the last `c` elements before an append, and again after it, is keeping them once.
pub suffix-suffix : (c : ℕ) (xs ys : List ℕ) → suffix c (suffix c xs ++ ys) ≡ suffix c (xs ++ ys)
suffix-suffix c xs ys =
    rw (← drop-append_le (length xs - c) xs ys (omega arith))
      (drop-drop m (length xs - c) (xs ++ ys) ∙ ap (λ k. drop k (xs ++ ys)) total)
  where
    m : ℕ
    m = length (drop (length xs - c) (xs ++ ys)) - c

    total : length xs - c + m ≡ length (xs ++ ys) - c
    total = omega (arith, length-drop (length xs - c) (xs ++ ys), length-append xs ys)

pub suffix_short : (c : ℕ) (xs : List ℕ) → length xs ≤ c → suffix c xs ≡ xs
suffix_short c xs h = ap (λ k. drop k xs) {x = length xs - c} {y = 0} (omega arith)

contents-push_byte :
    (r : RingBuf) (b : ℕ)
    → IsValid r
    → 0 < r.cap
    → contents (push_byte r b) ≡ suffix r.cap (contents r ++ (b ∷ []))
contents-push_byte r b v p = elim (dec_lt r.len r.cap) [
  | yes h ↦
      contents-push_byte_room r b v h
      ∙ sym (suffix_short r.cap (contents r ++ (b ∷ [])) (omega (arith, size)))
  | no h ↦
      contents-push_byte_full r b (r.cap - 1) v (omega arith) (omega arith)
      ∙ ap (λ k. drop k (contents r ++ (b ∷ []))) {x = 1}
          {y = length (contents r ++ (b ∷ [])) - r.cap} (omega (arith, size))
]
  where
    size : length (contents r ++ (b ∷ [])) ≡ r.len + 1
    size = omega (arith, length-append (contents r) (b ∷ []), length-tabulate r.len (entry r))

pub contents-push_loop :
    (r : RingBuf) (bytes : List ℕ)
    → IsValid r
    → 0 < r.cap
    → contents (push_loop r bytes) ≡ suffix r.cap (contents r ++ bytes)
unfolding push_loop
contents-push_loop r [] v p =
    rw append-nil
      (sym (suffix_short r.cap (contents r) (omega (arith, length-tabulate r.len (entry r)))))
contents-push_loop r (b ∷ bytes) v p =
    contents-push_loop (push_byte r b) bytes (push_byte-IsValid r b p v)
      (omega (arith, cap-push_byte r b))
    ∙ ap₂ (λ k l. suffix k (l ++ bytes)) (cap-push_byte r b) (contents-push_byte r b v p)
    ∙ suffix-suffix r.cap (contents r ++ (b ∷ [])) bytes
    ∙ ap (suffix r.cap) (append_assoc (contents r) (b ∷ []) bytes)

-- One slice of the array, where the contents do not go round its end.
slice-eq-contents :
    (r : RingBuf)
    → IsValid r
    → 0 < r.cap
    → r.head + r.len ≤ r.cap
    → take r.len (drop r.head r.buf) ≡ contents r
slice-eq-contents r v p h =
    take-drop-tabulate r.buf r.head r.len (omega arith)
    ∙ tabulate_ext r.len (λ i. get_or r.buf (r.head + i) 0) (entry r)
        (λ i q. ap (λ k. get_or r.buf k 0) (sym (mod_below (r.head + i) r.cap (omega arith))))

-- Two slices, where they do.
slices-eq-contents :
    (r : RingBuf)
    → IsValid r
    → 0 < r.cap
    → r.cap ≤ r.head + r.len
    → drop r.head r.buf ++ take (r.len - (r.cap - r.head)) r.buf ≡ contents r
slices-eq-contents r v p h =
    ap₂ ◌++◌ upper lower
    ∙ sym (tabulate-add (r.cap - r.head) (r.len - (r.cap - r.head)) (entry r))
    ∙ ap (λ k. tabulate k (entry r)) (omega arith)
  where
    low : r.head < r.cap
    low = v.head_in p

    upper : drop r.head r.buf ≡ tabulate (r.cap - r.head) (entry r)
    upper =
        sym
          (take_all (r.cap - r.head) (drop r.head r.buf) (omega (arith, length-drop r.head r.buf)))
        ∙ take-drop-tabulate r.buf r.head (r.cap - r.head) (omega arith)
        ∙ tabulate_ext (r.cap - r.head) (λ i. get_or r.buf (r.head + i) 0) (entry r)
            (λ i q. ap (λ k. get_or r.buf k 0) (sym (mod_below (r.head + i) r.cap (omega arith))))

    around :
        (i : ℕ) → i < r.len - (r.cap - r.head) → 0 + i ≡ (r.head + (r.cap - r.head + i)) % r.cap
    around i q =
        omega (arith, mod_round (r.head + (r.cap - r.head + i)) r.cap (omega arith) (omega arith))

    lower :
        take (r.len - (r.cap - r.head)) r.buf
        ≡ tabulate (r.len - (r.cap - r.head)) (λ i. entry r (r.cap - r.head + i))
    lower =
        take-drop-tabulate r.buf 0 (r.len - (r.cap - r.head)) (omega arith)
        ∙ tabulate_ext (r.len - (r.cap - r.head)) (λ i. get_or r.buf (0 + i) 0)
            (λ i. entry r (r.cap - r.head + i)) (λ i q. ap (λ k. get_or r.buf k 0) (around i q))

-- The slices that `snapshot` joins are the contents in circular order.
pub snapshot-eq-contents : (r : RingBuf) → IsValid r → snapshot r ≡ contents r
unfolding snapshot
snapshot-eq-contents r v = elim (dec_lt 0 r.len) [
  | no z ↦
      let e : r.len ≡ 0 = omega arith in
      rw ((==_iff r.len 0).1 e) (ap (λ k. tabulate k (entry r)) (sym e))
  | yes p ↦
      let low : r.head < r.cap = v.head_in (omega arith) in
      let sum : u64 (r.head + r.len) ≡ r.head + r.len = omega arith in
      elim (dec_le (r.head + r.len) r.cap) [
        | yes h ↦
            rw (==_ne r.len 0 (omega arith), sum, le→leb (r.head + r.len) r.cap h)
              (slice-eq-contents r v (omega arith) h)
        | no h ↦ ground (arith, slices-eq-contents r v (omega arith) (omega arith), sum)
      ]
]
