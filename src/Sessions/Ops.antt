-- ===== src/Sessions/Ops.antt =====
-- The operations of the registry as data, and what a sequence of them does.
use pyre.Prelude.{ℕ, Bool, true, List, [], ◌∷◌, Option, none, some}
use pyre.Layout.Tree.{Orient}
use pyre.Sessions.State.{Registry, Error, Result, ok, err}
use pyre.Sessions.Panes.{OpenPaneReq, Spawn, open_pane, close_pane, open_pane_split}
use pyre.Sessions.Windows.{
  new_session, new_window, rename_window, rename_pane, rename_session, set_pane_weight,
}
use pyre.Sessions.Exits.{close_window, kill_session, remove_pane}

pub data Op : Type 0 where
  create : (name : Option (List ℕ)) (default : List ℕ) (id window now : ℕ) → Op
  open_one : (session : ℕ) (req : OpenPaneReq) (spawn : Spawn) → Op
  split_one : (parent : ℕ) (orient : Orient) (name cmd : Option (List ℕ)) (spawn : Spawn) → Op
  close_one : (pane : ℕ) (killed : ℕ → Bool) → Op
  weigh : (pane weight : ℕ) (written : Bool) → Op
  add_window : (session : ℕ) (name : Option (List ℕ)) (id : ℕ) → Op
  end_window : (window : ℕ) (killed : ℕ → Bool) → Op
  name_window : (window : ℕ) (name : List ℕ) (written : Bool) → Op
  name_pane : (pane : ℕ) (name : List ℕ) (written : Bool) → Op
  name_session : (session : ℕ) (name : List ℕ) (written : Bool) → Op
  kill : (session : ℕ) → Op
  exited : (pane : ℕ) → Op

abbrev error_of {ℓ} : {A : Type ℓ} → Result A → Option Error
error_of (ok a) = none
error_of (err e) = some e

abbrev pub failure {ℓ} : {A : Type ℓ} → Registry × Result A → Registry × Option Error
failure (r, a) = (r, error_of a)

-- The clients' calls hand over the store.
unfoldable pub run_op : Registry → Op → Registry × Option Error
run_op r (create name default id window now) = (new_session r name default id window now, none)
run_op r (open_one session req spawn) = failure (open_pane r session req spawn)
run_op r (split_one parent orient name cmd spawn) =
    failure (open_pane_split r parent orient name cmd spawn)
run_op r (close_one pane killed) = failure (close_pane r pane killed true)
run_op r (weigh pane weight written) = failure (set_pane_weight r pane weight written)
run_op r (add_window session name id) = failure (new_window r session name id)
run_op r (end_window window killed) = failure (close_window r window killed)
run_op r (name_window window name written) = failure (rename_window r window name written)
run_op r (name_pane pane name written) = failure (rename_pane r pane name written)
run_op r (name_session session name written) = failure (rename_session r session name written)
run_op r (kill session) = failure (kill_session r session)
run_op r (exited pane) = (remove_pane r pane, none)

unfoldable pub run_ops : Registry → List Op → Registry
run_ops r [] = r
run_ops r (op ∷ ops) = run_ops (run_op r op).0 ops
