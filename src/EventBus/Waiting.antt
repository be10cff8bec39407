-- ===== src/EventBus/Waiting.antt =====
-- The long poll: what it answers is behind the client's cursor, and it does answer when something
-- behind the cursor is there or arrives.
use pyre.Prelude.{ℕ, ◌≡◌, refl, sym, ap₂, ◌∙◌, inl, inr, Bool-cases, arith}
use pyre.Prelude.{List, [], ◌∷◌, ◌++◌, Bool, true, false, ◌||◌, not}
use pyre.Prelude.{filter, filter-append, is_empty}
use pyre.Proto.{PaneEvent}
use pyre.EventBus.{
  PaneEventBus, Received, event, lagged, channel_closed, newer, events_after, first_event, coalesce,
  next_pane_event,
}

-- All the events are numbered above `a`.
abbrev pub Fresh : ℕ → List PaneEvent → Type 0
Fresh a evs = filter (newer a) evs ≡ evs

-- Before the channel closes something behind the cursor arrives, by itself or in the ring that a
-- lagged receiver falls back on.
unfoldable pub arrives : ℕ → List Received → Bool
arrives a [] = false
arrives a (event ev ∷ rest) = newer a ev || arrives a rest
arrives a (lagged bus ∷ rest) = not (is_empty (events_after bus a)) || arrives a rest
arrives a (channel_closed ∷ rest) = false

filter_twice : (a : ℕ) (evs : List PaneEvent) → Fresh a (filter (newer a) evs)
filter_twice a [] = refl
filter_twice a (ev ∷ evs) = ground (arith, filter_twice a evs)

first_event-Fresh : (a : ℕ) (live : List Received) → Fresh a (first_event a live)
unfolding first_event events_after
first_event-Fresh a [] = refl
first_event-Fresh a (event ev ∷ rest) = ground (arith, first_event-Fresh a rest)
first_event-Fresh a (lagged bus ∷ rest) = elim (Bool-cases (is_empty (filter (newer a) bus.ring))) [
  | inl e ↦ rw e (first_event-Fresh a rest)
  | inr e ↦ rw e (filter_twice a bus.ring)
]
first_event-Fresh a (channel_closed ∷ rest) = refl

coalesce-Fresh : (a : ℕ) (burst : List Received) → Fresh a (coalesce a burst)
unfolding coalesce
coalesce-Fresh a [] = refl
coalesce-Fresh a (event ev ∷ rest) = ground (arith, coalesce-Fresh a rest)
coalesce-Fresh a (lagged bus ∷ rest) = refl
coalesce-Fresh a (channel_closed ∷ rest) = refl

first_event-arrives :
    (a : ℕ) (live : List Received) → arrives a live ≡ true → is_empty (first_event a live) ≡ false
unfolding first_event arrives
first_event-arrives a [] h = absurd (ground arith)
first_event-arrives a (event ev ∷ rest) h = ground (arith, first_event-arrives a rest)
first_event-arrives a (lagged bus ∷ rest) h = elim (Bool-cases (is_empty (events_after bus a))) [
  | inl e ↦ rw e (first_event-arrives a rest (sym (rw e refl) ∙ h))
  | inr e ↦ rw e e
]
first_event-arrives a (channel_closed ∷ rest) h = absurd (ground arith)

is_empty-append : (xs ys : List PaneEvent) → is_empty xs ≡ false → is_empty (xs ++ ys) ≡ false
is_empty-append [] ys h = absurd (ground arith)
is_empty-append (x ∷ xs) ys h = refl

events_after-Fresh : (bus : PaneEventBus) (a : ℕ) → Fresh a (events_after bus a)
unfolding events_after
events_after-Fresh bus a = filter_twice a bus.ring

-- Whatever is in the ring and whatever arrives, every event of the answer is numbered above
-- `after_seq`.
pub next_pane_event-Fresh :
    (bus : PaneEventBus) (after_seq : ℕ) (live burst : List Received)
    → Fresh after_seq (next_pane_event bus after_seq live burst)
unfolding next_pane_event
next_pane_event-Fresh bus a live burst = elim (Bool-cases (is_empty (events_after bus a))) [
  | inr e ↦ rw e (events_after-Fresh bus a)
  | inl e ↦ rw e (elim (Bool-cases (is_empty (first_event a live))) [
    | inl none_first ↦ rw none_first refl
    | inr some_first ↦ rw some_first (
        filter-append (newer a) (first_event a live) _
        ∙ ap₂ (λ x y. x ++ y) (first_event-Fresh a live) (coalesce-Fresh a _))
  ])
]

-- The answer is not empty where the ring has an event numbered above `after_seq`, or where one
-- arrives, directly or in the ring of a lagged receiver, before the timeout and before the
-- channel closes.
pub next_pane_event-answers :
    (bus : PaneEventBus) (after_seq : ℕ) (live burst : List Received)
    → (not (is_empty (events_after bus after_seq)) || arrives after_seq live) ≡ true
    → is_empty (next_pane_event bus after_seq live burst) ≡ false
unfolding next_pane_event
next_pane_event-answers bus a live burst h = elim (Bool-cases (is_empty (events_after bus a))) [
  | inr e ↦ rw e e
  | inl e ↦
      let first : is_empty (first_event a live) ≡ false =
        first_event-arrives a live (sym (rw e refl) ∙ h) in
      rw (e, first) (is_empty-append (first_event a live) _ first)
]
