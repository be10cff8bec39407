-- ===== src/EventBus/Races.antt =====
-- Two concurrent emissions: an emitter takes its number and locks the ring in two steps, so that
-- another one can come between them.
use pyre.Prelude.{ℕ, ◌+◌, ◌%◌, ◌^◌, ◌<◌, ◌≤◌, ◌≡◌, refl, ap, ◌∙◌}
use pyre.Prelude.{List, [], ◌∷◌, ◌++◌, length, drop, leb, filter, filter-append}
use pyre.Prelude.{Bool-cases, inl, inr, subst, append_assoc, if◌then◌else◌, arith}
use pyre.Proto.{PaneEvent}
use pyre.EventBus.{
  PaneEventBus, Emission, stamp, newer, fetch_seq, push_ring, broadcast, events_after,
  event_ring_cap,
}

-- The first emitter takes its number, the second one makes its whole emission, and only then the
-- first one comes to the ring: the bus between the two pushes, and the bus at the end.
unfoldable pub second_overtakes : PaneEventBus → Emission → Emission → PaneEventBus × PaneEventBus
second_overtakes bus e f =
    let first = fetch_seq bus in
    let second = fetch_seq first.0 in
    let between = broadcast (push_ring second.0 (stamp second.1 f)) (stamp second.1 f) in
    (between, broadcast (push_ring between (stamp first.1 e)) (stamp first.1 e))

-- Every event of the ring is numbered up to `seq`.
abbrev pub UpTo : ℕ → List PaneEvent → Type 0
UpTo n evs = filter (newer n) evs ≡ []

none_newer_drop : (n : ℕ) (evs : List PaneEvent) → UpTo n evs → UpTo n (drop 1 evs)
none_newer_drop n [] h = h
none_newer_drop n (ev ∷ evs) h = ground (arith, h)

none_newer_weaken : (n : ℕ) (evs : List PaneEvent) → UpTo n evs → UpTo (n + 1) evs
none_newer_weaken n [] h = refl
none_newer_weaken n (ev ∷ evs) h =
    let tail : UpTo n evs = none_newer_drop n (ev ∷ evs) h in
    let later : UpTo (n + 1) evs = none_newer_weaken n evs tail in ground (arith, h, later)

newest_of_push :
    (n : ℕ) (bus : PaneEventBus) (ev : PaneEvent)
    → UpTo n bus.ring
    → filter (newer n) (push_ring bus ev).ring ≡ filter (newer n) (ev ∷ [])
newest_of_push n bus ev h =
    filter-append (newer n)
      (if leb event_ring_cap (length bus.ring) then drop 1 bus.ring else bus.ring) (ev ∷ [])
    ∙ ap (λ l. l ++ filter (newer n) (ev ∷ [])) kept
  where
    kept :
        filter
          (newer n)
          (if leb event_ring_cap (length bus.ring) then drop 1 bus.ring else bus.ring)
        ≡ []
    kept = elim (Bool-cases (leb event_ring_cap (length bus.ring))) [
      | inl e ↦ rw e (none_newer_drop n bus.ring h)
      | inr e ↦ rw e h
    ]

-- Where one emission overtakes another on a bus whose ring holds no number above its counter, a
-- client that polls between the two pushes is told of the second one alone; at the end, a poll
-- behind that event is told nothing, though the channel was handed both events.
pub second_overtakes_lem :
    (bus : PaneEventBus) (e f : Emission)
    → UpTo bus.seq bus.ring
    → bus.seq < 2 ^ 63
    → (events_after (second_overtakes bus e f).0 bus.seq ≡ stamp (bus.seq + 2) f ∷ [])
      × (events_after (second_overtakes bus e f).1 (bus.seq + 2) ≡ [])
      × ((second_overtakes bus e f).1.tx
          ≡ bus.tx ++ (stamp (bus.seq + 2) f ∷ stamp (bus.seq + 1) e ∷ []))
unfolding events_after second_overtakes
second_overtakes_lem bus e f h small =
    rw (one, two)
      (
        newest_of_push n taken (stamp (n + 2) f) h ∙ told,
        newest_of_push (n + 2) between (stamp (n + 1) e)
              (newest_of_push (n + 2) taken (stamp (n + 2) f) above ∙ past (n + 2) f (omega arith))
            ∙ past (n + 1) e (omega arith),
        append_assoc bus.tx (stamp (n + 2) f ∷ []) (stamp (n + 1) e ∷ []),
      )
  where
    n : ℕ
    n = bus.seq

    one : (n + 1) % 18446744073709551616 ≡ n + 1
    one = omega arith

    two : (n + 1 + 1) % 18446744073709551616 ≡ n + 2
    two = omega arith

    taken : PaneEventBus
    taken = record bus { seq = n + 2 }

    between : PaneEventBus
    between = broadcast (push_ring taken (stamp (n + 2) f)) (stamp (n + 2) f)

    told : filter (newer n) (stamp (n + 2) f ∷ []) ≡ stamp (n + 2) f ∷ []
    told = ground arith

    past : (m : ℕ) (x : Emission) → m ≤ n + 2 → filter (newer (n + 2)) (stamp m x ∷ []) ≡ []
    past m x k = ground arith

    above : UpTo (n + 2) bus.ring
    above =
        subst (λ k. UpTo k bus.ring) {x = n + 1 + 1} (omega arith)
          (none_newer_weaken (n + 1) bus.ring (none_newer_weaken n bus.ring h))
