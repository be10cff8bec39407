-- ===== src/PaneClosed/NotStarted.antt =====
-- The end of the last pane of a session, and the watch over the workers afterwards.
use pyre.Prelude.{ℕ, ◌≡◌, false, true, List, any, contains, none-filtered, ◌==◌}
use pyre.PaneIndex.{get_or_alloc_pane_by_slot, remove}
use pyre.PaneIndex.Respawn.{Watch, watch_all, registers, has_session, watch_all-not_started}
use pyre.PaneClosed.{Supervisor, pane_closed}
use pyre.PaneClosed.Effects.{remaining, registry-pane_closed, drop_last_slot}

-- After the report of the last pane of a session no end of a process and no missing heartbeat starts
-- a worker for the session again, until one registers for it.
pub last_pane_closed_stays :
    (sup : Supervisor) (fresh session slot : ℕ) (ws : List Watch)
    → (remaining sup fresh session slot == 0) ≡ true
    → any (registers session) ws ≡ false
    → contains (watch_all (pane_closed sup fresh session slot).registry ws).1 session ≡ false
unfolding remaining remove
last_pane_closed_stays sup fresh session slot ws h others =
    watch_all-not_started session (pane_closed sup fresh session slot).registry ws
      (rw
        (
          registry-pane_closed sup fresh session slot,
          drop_last_slot (get_or_alloc_pane_by_slot sup.registry fresh session slot).0 session slot
              h,
        )
        (none-filtered (has_session session) _))
      others
