-- ===== src/Tests/EventBusRuns.antt =====
-- Events of two panes on the bus.
use pyre.Prelude.{◌≡◌, refl, false, List, [], ◌∷◌, none, some, drop, is_empty, arith}
use pyre.Proto.{spawned, closed, running}
use pyre.EventBus.{
  PaneEventBus, Emission, Received, event, lagged, new, stamp, emit_event, emit_all, events_after,
  next_pane_event,
}
use pyre.EventBus.Numbered.{numbered}
use pyre.EventBus.Polling.{events_after-emit_all}
use pyre.EventBus.Races.{second_overtakes, second_overtakes_lem}
use pyre.EventBus.Waiting.{Fresh, arrives, next_pane_event-Fresh, next_pane_event-answers}

abbrev opened : Emission
opened = record { pane_id = 1; kind = spawned; state = some running; agent = none }

abbrev ended : Emission
ended = record { pane_id = 2; kind = closed; state = none; agent = none }

events_after-emit_all_example :
    (events_after (emit_all new (opened ∷ ended ∷ [])) 1
      ≡ drop 1 (numbered 1 (opened ∷ ended ∷ [])))
    × ((emit_all new (opened ∷ ended ∷ [])).tx ≡ numbered 1 (opened ∷ ended ∷ []))
events_after-emit_all_example = events_after-emit_all (opened ∷ ended ∷ []) 1 (omega arith)

second_event : events_after (emit_all new (opened ∷ ended ∷ [])) 1 ≡ stamp 2 ended ∷ []
unfolding events_after emit_all emit_event new
second_event = refl

-- A bus that has one event.
abbrev one : PaneEventBus
one = record { tx = stamp 1 opened ∷ []; ring = stamp 1 opened ∷ []; seq = 1 }

second_overtakes_lem_example :
    (events_after (second_overtakes one opened ended).0 1 ≡ stamp 3 ended ∷ [])
    × (events_after (second_overtakes one opened ended).1 3 ≡ [])
    × ((second_overtakes one opened ended).1.tx
        ≡ stamp 1 opened ∷ stamp 3 ended ∷ stamp 2 opened ∷ [])
second_overtakes_lem_example = second_overtakes_lem one opened ended refl (omega arith)

-- The receiver lags behind, and finds the event in the ring; then another one arrives in time.
abbrev live : List Received
live = event (stamp 1 opened) ∷ lagged one ∷ event (stamp 2 ended) ∷ []

next_pane_event-Fresh_example : Fresh 0 (next_pane_event one 0 live [])
next_pane_event-Fresh_example = next_pane_event-Fresh one 0 live []

next_pane_event-answers_example : is_empty (next_pane_event one 1 live []) ≡ false
unfolding events_after arrives
next_pane_event-answers_example = next_pane_event-answers one 1 live [] refl
