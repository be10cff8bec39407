-- ===== src/PaneOps/InRange.antt =====
-- The indices of the client stay in range: no session is without a tab, and what is active exists.
use pyre.Prelude.{ℕ, zero, suc, ◌-◌, ◌≡◌, refl, ap, inl, inr, Bool-cases}
use pyre.Prelude.{Bool, true, ◌&&◌, ◌||◌, ltb, lt→ltb, if◌then◌else◌, List, [], ◌∷◌}
use pyre.Prelude.{Option, none, some, length, length-set, get_elem?, set, is_empty, min, arith}
use pyre.Layout.Tree.{LayoutNode, all_leaves}
use pyre.Layout.Edit
use pyre.PaneOps.{
  Tab, SessionView, AppState, remove_at, refocus_first, drop_tab, close_in, close_tab,
  close_session, close_located, close_slot, close_pane_inner, leaves_left, locate_pane, slot_pane,
  put_session,
}

abbrev pub view_ok : SessionView → Bool
view_ok view = ltb view.active_tab (length view.tabs)

abbrev pub all_ok : List SessionView → Bool
all_ok [] = true
all_ok (v ∷ vs) = view_ok v && all_ok vs

-- The active tab of every session exists, and so does the active session unless there is none.
pub record InRange (state : AppState) : Type 0 where
  pub tabs_ok : all_ok state.sessions ≡ true
  pub active_ok :
      (is_empty state.sessions || ltb state.active_session (length state.sessions)) ≡ true

all_ok-set :
    (vs : List SessionView) (i : ℕ) (v : SessionView)
    → view_ok v ≡ true
    → all_ok vs ≡ true
    → all_ok (set vs i v) ≡ true
all_ok-set [] i v e h = refl
all_ok-set (x ∷ vs) zero v e h = ground (arith, e, h)
all_ok-set (x ∷ vs) (suc i) v e h =
    let rest : all_ok vs ≡ true = ground (arith, h) in ground (arith, h, all_ok-set vs i v e rest)

all_ok-remove_at :
    (vs : List SessionView) (i : ℕ) → all_ok vs ≡ true → all_ok (remove_at vs i) ≡ true
unfolding remove_at
all_ok-remove_at [] i h = refl
all_ok-remove_at (x ∷ vs) zero h = ground (arith, h)
all_ok-remove_at (x ∷ vs) (suc i) h =
    let rest : all_ok vs ≡ true = ground (arith, h) in ground (arith, h, all_ok-remove_at vs i rest)

abbrev some_ok : Option SessionView → Bool
some_ok none = true
some_ok (some v) = view_ok v

length-refocus_first : (ts : List Tab) (i : ℕ) → length (refocus_first ts i) ≡ length ts
unfolding refocus_first
length-refocus_first [] i = refl
length-refocus_first (t ∷ ts) zero = refl
length-refocus_first (t ∷ ts) (suc i) = ap suc (length-refocus_first ts i)

set-empty : (vs : List SessionView) (i : ℕ) (v : SessionView) → is_empty (set vs i v) ≡ is_empty vs
set-empty [] i v = refl
set-empty (x ∷ vs) zero v = refl
set-empty (x ∷ vs) (suc i) v = refl

put_session-InRange :
    (state : AppState) (si : ℕ) (view : SessionView)
    → view_ok view ≡ true
    → InRange state
    → InRange (put_session state si view)
put_session-InRange state si view e h = record {
  tabs_ok = all_ok-set state.sessions si view e h.tabs_ok;
  active_ok = rw (set-empty state.sessions si view, length-set state.sessions si view) h.active_ok;
}

drop_tab-InRange :
    (state : AppState) (si ti : ℕ) (tabs : List Tab)
    → InRange state
    → InRange (drop_tab state si ti tabs)
unfolding drop_tab
drop_tab-InRange state si ti [] h = record {
  tabs_ok = all_ok-remove_at state.sessions si h.tabs_ok;
  active_ok = in_bounds (remove_at state.sessions si);
}
  where
    in_bounds :
        (left : List SessionView)
        → (is_empty left
            || ltb
                (if is_empty left
                  then state.active_session
                  else min state.active_session (length left - 1))
                (length left))
          ≡ true
    in_bounds [] = refl
    in_bounds (v ∷ left) =
        lt→ltb (min state.active_session (suc (length left) - 1)) (suc (length left)) (omega arith)
drop_tab-InRange state si ti (t ∷ ts) h =
    put_session-InRange state si _
      (rw (length-refocus_first (t ∷ ts) (min ti (length (t ∷ ts) - 1)))
        (lt→ltb (min ti (suc (length ts) - 1)) (suc (length ts)) (omega arith)))
      h

close_in-InRange :
    (state : AppState) (pane si ti : ℕ) (view : SessionView) (tab : Tab)
    → view_ok view ≡ true
    → InRange state
    → InRange (close_in state pane si ti view tab)
unfolding close_in
close_in-InRange state pane si ti view tab e h =
    elim (Bool-cases (is_empty (leaves_left closed.1 (all_leaves closed.0) pane))) [
      | inl y ↦ rw y (drop_tab-InRange state si ti (remove_at view.tabs ti) h)
      | inr y ↦ rw y (put_session-InRange state si _ (rw (length-set view.tabs ti _) e) h)
    ]
  where
    closed : LayoutNode × Option ℕ
    closed = Edit.close tab.root pane

close_session-InRange :
    (state : AppState) (pane si ti : ℕ) (o : Option SessionView)
    → some_ok o ≡ true
    → InRange state
    → InRange (close_session state pane si ti o)
unfolding close_session close_tab
close_session-InRange state pane si ti none e h = h
close_session-InRange state pane si ti (some view) e h = go (get_elem? view.tabs ti)
  where
    go : (o : Option Tab) → InRange (close_tab state pane si ti view o)
    go none = h
    go (some tab) = close_in-InRange state pane si ti view tab e h

all_ok-some : (vs : List SessionView) (i : ℕ) → all_ok vs ≡ true → some_ok (get_elem? vs i) ≡ true
all_ok-some [] i h = refl
all_ok-some (x ∷ vs) zero h = ground (arith, h)
all_ok-some (x ∷ vs) (suc i) h = all_ok-some vs i (ground (arith, h))

close_located-InRange :
    (state : AppState) (slot pane : ℕ) (fire : Bool) (place : Option (ℕ × ℕ))
    → InRange state
    → InRange (close_located state slot pane fire place)
unfolding close_located
close_located-InRange state slot pane fire none h = h
close_located-InRange state slot pane fire (some (si, ti)) h =
    close_session-InRange _ pane si ti (get_elem? state.sessions si)
      (all_ok-some state.sessions si h.tabs_ok)
      (record { tabs_ok = h.tabs_ok; active_ok = h.active_ok })

-- Closing any slot keeps every index of the client in range: no session is left without a tab, the
-- active tab of every session exists, and so does the active session unless all are gone.
pub close_pane_inner-InRange :
    (state : AppState) (slot_idx : ℕ) (fire_rpc : Bool)
    → InRange state
    → InRange (close_pane_inner state slot_idx fire_rpc)
unfolding close_pane_inner close_slot
close_pane_inner-InRange state slot_idx fire_rpc h = go (slot_pane state.slots slot_idx)
  where
    go : (o : Option ℕ) → InRange (close_slot state slot_idx fire_rpc o)
    go none = h
    go (some pane) =
        close_located-InRange state slot_idx pane fire_rpc (locate_pane state.sessions pane) h
