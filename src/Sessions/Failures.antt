-- ===== src/Sessions/Failures.antt =====
-- What an operation that fails leaves behind.
use pyre.Prelude.{ℕ, ◌≡◌, ◌⊎◌, inl, inr, refl, Bool, true, false, Bool-cases, if◌then◌else◌, subst}
use pyre.Prelude.{Option, none, some, List, find?, find?-here, ==_iff, sym}
use pyre.Layout.Tree.{LayoutNode, Orient}
use pyre.Sessions.State.{
  Pane, Window, Session, Effect, upsert_session, Registry, Error, store_failed, Result, ok, err,
  write, is_window, is_session, get_session,
}
use pyre.Sessions.Panes.{
  OpenPaneReq, Spawn, save_session, open_started, open_at, open_in, open_pane, close_pane_at,
  close_pane, split_opened, split_in, split_at, open_pane_split, mirror,
}
use pyre.Sessions.Windows.{
  new_window_in, new_window, rename_window_at, rename_window, rename_pane_at, rename_pane,
  rename_session_at, rename_session, weigh_tree, weigh_window, weigh_at, set_pane_weight, answer,
}
use pyre.Sessions.Exits.{close_window_of, close_window, kill_session_at, kill_session}
use pyre.Sessions.Ops.{
  Op, create, open_one, split_one, close_one, weigh, add_window, end_window, name_window, name_pane,
  name_session, kill, exited, failure, run_op,
}

-- A refused write leaves its change in memory; no write was taken and nothing was announced.
abbrev pub IsUnsaved : Registry → Registry → Error → Type 0
IsUnsaved r r' e = (e ≡ store_failed) × (r'.log ≡ r.log) × (r'.bus ≡ r.bus)

-- A new process whose pane row was refused: the row of its session was written again with the name
-- that the session has, and nothing else happened.
abbrev pub IsHalfSaved : Registry → Registry → Error → Type 0
IsHalfSaved r r' e =
    (e ≡ store_failed)
    × (s : Session) × (get_session r s.id ≡ some s)
    × (r' ≡ write r (upsert_session s.id s.name))

-- What the outcome of an operation that began at `r` says.
abbrev IsUndone : Registry → Registry × Option Error → Type 0
IsUndone r (r', none) = Unit
IsUndone r (r', some e) = (r' ≡ r) ⊎ (IsUnsaved r r' e ⊎ IsHalfSaved r r' e)

open_started-IsUndone :
    (r : Registry) (s : Session) (req : OpenPaneReq) (spawn : Spawn) (w : Window)
    → get_session r s.id ≡ some s
    → IsUndone r (failure (open_started r s req spawn w))
unfolding open_started save_session
open_started-IsUndone r s req spawn w found = elim (Bool-cases spawn.session_saved) [
  | inr a ↦ rw a (inl refl)
  | inl a ↦ elim (Bool-cases spawn.pane_saved) [
    | inr b ↦ rw (a, b) (inr (inr (refl, s, found, refl)))
    | inl b ↦ simp (a, b) tt
  ]
]

open_at-IsUndone :
    (r : Registry) (s : Session) (req : OpenPaneReq) (spawn : Spawn) (o : Option Window)
    → get_session r s.id ≡ some s
    → IsUndone r (failure (open_at r s req spawn o))
unfolding open_at
open_at-IsUndone r s req spawn none found = inl refl
open_at-IsUndone r s req spawn (some w) found = elim (Bool-cases spawn.started) [
  | inl e ↦ simp e (open_started-IsUndone r s req spawn w found)
  | inr e ↦ rw e (inl refl)
]

get_session-here :
    (r : Registry) (id : ℕ) (s : Session) → get_session r id ≡ some s → get_session r s.id ≡ some s
unfolding get_session
get_session-here r id s found =
    let same : s.id ≡ id = (==_iff s.id id).0 (find?-here (is_session id) r.sessions s found) in
    subst (λ i. get_session r i ≡ some s) (sym same) found

open_pane-IsUndone :
    (r : Registry) (id : ℕ) (req : OpenPaneReq) (spawn : Spawn)
    → IsUndone r (failure (open_pane r id req spawn))
unfolding open_pane open_in
open_pane-IsUndone r id req spawn = go (get_session r id) refl
  where
    go :
        (o : Option Session)
        → get_session r id ≡ o
        → IsUndone r (failure (open_in r id req spawn o))
    go none found = inl refl
    go (some s) found = open_at-IsUndone r s req spawn _ (get_session-here r id s found)

split_opened-IsUndone :
    (r : Registry) (session window parent : ℕ) (orient : Orient) (o : Registry × Result ℕ)
    → IsUndone r (failure o)
    → IsUndone r (failure (split_opened session window parent orient o))
unfolding split_opened
split_opened-IsUndone r session window parent orient (r', err e) h = h
split_opened-IsUndone r session window parent orient (r', ok pane) h = tt

split_in-IsUndone :
    (r : Registry) (s : Session) (p : Pane) (orient : Orient) (req : OpenPaneReq) (spawn : Spawn)
    (o : Option Window)
    → IsUndone r (failure (split_in r s p orient req spawn o))
unfolding split_in
split_in-IsUndone r s p orient req spawn none = inl refl
split_in-IsUndone r s p orient req spawn (some w) =
    split_opened-IsUndone r s.id w.id p.id orient _ (open_pane-IsUndone r s.id req spawn)

split_at-IsUndone :
    (r : Registry) (parent : ℕ) (orient : Orient) (name cmd : Option (List ℕ)) (spawn : Spawn)
    (o : Option (Session × Pane))
    → IsUndone r (failure (split_at r parent orient name cmd spawn o))
unfolding split_at
split_at-IsUndone r parent orient name cmd spawn none = inl refl
split_at-IsUndone r parent orient name cmd spawn (some (s, p)) =
    split_in-IsUndone r s p orient (mirror p name cmd) spawn _

close_pane_at-IsUndone :
    (r : Registry) (pane : ℕ) (killed : ℕ → Bool) (o : Option (Session × Pane))
    → IsUndone r (failure (close_pane_at r pane killed true o))
unfolding close_pane_at
close_pane_at-IsUndone r pane killed none = inl refl
close_pane_at-IsUndone r pane killed (some (s, p)) = elim (Bool-cases (killed pane)) [
  | inl e ↦ rw e tt
  | inr e ↦ rw e (inl refl)
]

weigh_tree-IsUndone :
    (r : Registry) (session window pane weight : ℕ) (written : Bool) (o : Option LayoutNode)
    → IsUndone r (failure (weigh_tree r session window pane weight written o))
unfolding weigh_tree
weigh_tree-IsUndone r session window pane weight written none = inl refl
weigh_tree-IsUndone r session window pane weight true (some tree) = tt
weigh_tree-IsUndone r session window pane weight false (some tree) = inr (inl (refl, refl, refl))

weigh_at-IsUndone :
    (r : Registry) (pane weight : ℕ) (written : Bool) (o : Option (Session × Pane))
    → IsUndone r (failure (weigh_at r pane weight written o))
unfolding weigh_at weigh_window
weigh_at-IsUndone r pane weight written none = inl refl
weigh_at-IsUndone r pane weight written (some (s, p)) = go (find? (is_window p.window) s.windows)
  where
    go : (o : Option Window) → IsUndone r (failure (weigh_window r s p weight written o))
    go none = inl refl
    go (some w) = weigh_tree-IsUndone r s.id w.id p.id weight written w.layout

new_window_in-IsUndone :
    (r : Registry) (session : ℕ) (name : Option (List ℕ)) (id : ℕ) (o : Option Session)
    → IsUndone r (failure (new_window_in r session name id o))
unfolding new_window_in
new_window_in-IsUndone r session name id none = inl refl
new_window_in-IsUndone r session name id (some s) = tt

close_window_of-IsUndone :
    (r : Registry) (window : ℕ) (killed : ℕ → Bool) (o : Option Session)
    → IsUndone r (failure (close_window_of r window killed o))
unfolding close_window_of
close_window_of-IsUndone r window killed none = inl refl
close_window_of-IsUndone r window killed (some s) = tt

kill_session_at-IsUndone :
    (r : Registry) (id : ℕ) (o : Option Session) → IsUndone r (failure (kill_session_at r id o))
unfolding kill_session_at
kill_session_at-IsUndone r id none = inl refl
kill_session_at-IsUndone r id (some s) = tt

-- The row of a name, which the store takes or refuses.
row-IsUndone :
    (r r' : Registry) (written : Bool) (e : Effect)
    → r'.log ≡ r.log
    → r'.bus ≡ r.bus
    → IsUndone r (failure (if written then write r' e else r', answer written))
row-IsUndone r r' true e log bus = tt
row-IsUndone r r' false e log bus = inr (inl (refl, log, bus))

rename_window_at-IsUndone :
    (r : Registry) (window : ℕ) (name : List ℕ) (written : Bool) (o : Option Window)
    → IsUndone r (failure (rename_window_at r window name written o))
unfolding rename_window_at
rename_window_at-IsUndone r window name written none = inl refl
rename_window_at-IsUndone r window name written (some w) = row-IsUndone r _ written _ refl refl

rename_pane_at-IsUndone :
    (r : Registry) (pane : ℕ) (name : List ℕ) (written : Bool) (o : Option (Session × Pane))
    → IsUndone r (failure (rename_pane_at r pane name written o))
unfolding rename_pane_at
rename_pane_at-IsUndone r pane name written none = inl refl
rename_pane_at-IsUndone r pane name written (some (s, p)) = row-IsUndone r _ written _ refl refl

rename_session_at-IsUndone :
    (r : Registry) (id : ℕ) (name : List ℕ) (written : Bool) (o : Option Session)
    → IsUndone r (failure (rename_session_at r id name written o))
unfolding rename_session_at
rename_session_at-IsUndone r id name written none = inl refl
rename_session_at-IsUndone r id name written (some s) = row-IsUndone r _ written _ refl refl

run_op-IsUndone : (r : Registry) (op : Op) → IsUndone r (run_op r op)
unfolding run_op open_pane_split close_pane set_pane_weight new_window close_window rename_window
    rename_pane rename_session kill_session
run_op-IsUndone r (create name default id window now) = tt
run_op-IsUndone r (open_one session req spawn) = open_pane-IsUndone r session req spawn
run_op-IsUndone r (split_one parent orient name cmd spawn) =
    split_at-IsUndone r parent orient name cmd spawn _
run_op-IsUndone r (close_one pane killed) = close_pane_at-IsUndone r pane killed _
run_op-IsUndone r (weigh pane weight written) = weigh_at-IsUndone r pane weight written _
run_op-IsUndone r (add_window session name id) = new_window_in-IsUndone r session name id _
run_op-IsUndone r (end_window window killed) = close_window_of-IsUndone r window killed _
run_op-IsUndone r (name_window window name written) =
    rename_window_at-IsUndone r window name written _
run_op-IsUndone r (name_pane pane name written) = rename_pane_at-IsUndone r pane name written _
run_op-IsUndone r (name_session session name written) =
    rename_session_at-IsUndone r session name written _
run_op-IsUndone r (kill session) = kill_session_at-IsUndone r session _
run_op-IsUndone r (exited pane) = tt

-- An operation that answers an error has left the registry as it was, with two exceptions, both of
-- them a write that the store refused. The change may stand in memory, and then no write was taken
-- and nothing was announced. Or a new pane's row was refused, and then the row of a session that
-- there is was written, with the name that it has, and nothing else was changed or announced.
pub run_op-failure :
    (r : Registry) (op : Op) (e : Error)
    → (run_op r op).1 ≡ some e
    → ((run_op r op).0 ≡ r) ⊎ (IsUnsaved r (run_op r op).0 e ⊎ IsHalfSaved r (run_op r op).0 e)
run_op-failure r op e h = subst (λ o. IsUndone r ((run_op r op).0, o)) h (run_op-IsUndone r op)
