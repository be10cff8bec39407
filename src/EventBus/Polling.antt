-- ===== src/EventBus/Polling.antt =====
-- What a client that polls with the number of the last event it saw is told.
use native.Mathlib.Decide.{dec_lt}
use pyre.Prelude.{ℕ, suc, ◌+◌, ◌-◌, ◌^◌, ◌%◌, ◌<◌, max, ◌≡◌, refl, sym, ap, subst, ◌∙◌}
use pyre.Prelude.{
  false, true, List, [], ◌∷◌, ◌++◌, length, drop, leb, filter, length-append, length-drop,
}
use pyre.Prelude.{append_assoc, append-nil, drop-append_le, drop-drop, arith, if◌then◌else◌}
use pyre.Proto.{PaneEvent}
use pyre.EventBus.{
  PaneEventBus, Emission, new, stamp, newer, emit_event, emit_all, events_after, event_ring_cap,
}
use pyre.EventBus.Numbered.{
  numbered, length-numbered, numbered-append, drop-numbered, filter-numbered,
}

-- The bus after the emissions `es`: the channel was handed all of them, the ring holds the last 256.
abbrev pub Holds : PaneEventBus → List Emission → Type 0
Holds bus es =
    (bus.tx ≡ numbered 1 es)
    × (bus.ring ≡ drop (length es - event_ring_cap) (numbered 1 es))
    × (bus.seq ≡ length es)

new-Holds : Holds new []
unfolding new
new-Holds = (refl, refl, refl)

-- The last 256 of one more.
last-append :
    (es : List Emission) (ev : PaneEvent) (r : List PaneEvent)
    → r ≡ drop (length es - event_ring_cap) (numbered 1 es)
    → (if leb event_ring_cap (length r) then drop 1 r else r) ++ (ev ∷ [])
      ≡ drop (length es + 1 - event_ring_cap) (numbered 1 es ++ (ev ∷ []))
last-append es ev r e = elim (dec_lt (length es) 256) [
  | yes h ↦
      let fits : leb event_ring_cap (length r) ≡ false = ground (arith, size) in
      rw fits (
        ap (λ l. l ++ (ev ∷ []))
          (e ∙ ap (λ k. drop k (numbered 1 es)) {x = length es - 256} {y = 0} (omega arith))
        ∙ ap (λ k. drop k (numbered 1 es ++ (ev ∷ []))) {x = 0} {y = length es + 1 - 256}
            (omega arith))
  | no h ↦
      let full : leb event_ring_cap (length r) ≡ true = ground (arith, size) in
      rw full (
        ap (λ l. drop 1 l ++ (ev ∷ [])) e
        ∙ ap (λ l. l ++ (ev ∷ [])) (drop-drop 1 (length es - 256) (numbered 1 es))
        ∙ sym (
            drop-append_le (length es - 256 + 1) (numbered 1 es) (ev ∷ [])
              (omega (arith, length-numbered 1 es)))
        ∙ ap (λ k. drop k (numbered 1 es ++ (ev ∷ []))) {x = length es - 256 + 1}
            {y = length es + 1 - 256} (omega arith))
]
  where
    size : length r ≡ length es - (length es - 256)
    size =
        ap length e
        ∙ omega (arith, length-drop (length es - 256) (numbered 1 es), length-numbered 1 es)

emit_event-Holds :
    (bus : PaneEventBus) (es : List Emission) (e : Emission)
    → Holds bus es
    → length es < 2 ^ 63
    → Holds (emit_event bus e) (es ++ (e ∷ []))
unfolding emit_event
emit_event-Holds bus es e (t, r, s) small =
    rw (count, size)
      (
        ap (λ l. l ++ (stamp (length es + 1) e ∷ [])) t ∙ sym more,
        last-append es (stamp (length es + 1) e) bus.ring r
            ∙ ap (drop (length es + 1 - 256)) (sym more),
        refl,
      )
  where
    count : (bus.seq + 1) % 18446744073709551616 ≡ length es + 1
    count = omega (arith, s)

    size : length (es ++ (e ∷ [])) ≡ length es + 1
    size = length-append es (e ∷ [])

    more : numbered 1 (es ++ (e ∷ [])) ≡ numbered 1 es ++ (stamp (length es + 1) e ∷ [])
    more =
        numbered-append 1 es (e ∷ [])
        ∙ ap (λ k. numbered 1 es ++ (stamp k e ∷ [])) {x = 1 + length es} {y = length es + 1}
            (omega arith)

emit_all-Holds :
    (bus : PaneEventBus) (es fs : List Emission)
    → Holds bus es
    → length es + length fs < 2 ^ 63
    → Holds (emit_all bus fs) (es ++ fs)
unfolding emit_all
emit_all-Holds bus es [] h small = rw (append-nil es) h
emit_all-Holds bus es (e ∷ fs) h small =
    subst (Holds (emit_all (emit_event bus e) fs)) (append_assoc es (e ∷ []) fs) (
      emit_all-Holds (emit_event bus e) (es ++ (e ∷ [])) fs
        (emit_event-Holds bus es e h (omega arith)) (omega (arith, length-append es (e ∷ []))))

-- After any emissions on a new bus, fewer than 2^63, a poll with `after_seq` is answered with
-- the emissions behind the first `after_seq`, numbered consecutively from 1 on and in order, as
-- far as they are among the last 256; the channel was handed each emission once, in this order.
pub events_after-emit_all :
    (es : List Emission) (after_seq : ℕ)
    → length es < 2 ^ 63
    → (events_after (emit_all new es) after_seq
        ≡ drop (max after_seq (length es - 256)) (numbered 1 es))
      × ((emit_all new es).tx ≡ numbered 1 es)
unfolding events_after
events_after-emit_all es a small =
    let (t, r, s) : Holds (emit_all new es) es = emit_all-Holds new [] es new-Holds (omega arith) in
    (
      ap (filter (newer a)) (r ∙ drop-numbered old 1 es)
          ∙ filter-numbered a (1 + old) (drop old es)
          ∙ ap (drop (suc a - (1 + old))) (sym (drop-numbered old 1 es))
          ∙ drop-drop (suc a - (1 + old)) old (numbered 1 es)
          ∙ ap (λ k. drop k (numbered 1 es)) {x = old + (suc a - (1 + old))} {y = max a old}
              (omega arith),
      t,
    )
  where
    old : ℕ
    old = length es - 256
