-- ===== src/Sessions/Order.antt =====
-- The order of the effects of the registry: what is allowed behind what.
use pyre.Prelude.{ℕ, ◌≡◌, refl, sym, ap, subst, ◌∙◌, Bool, true, false, ◌&&◌, if◌then◌else◌, arith}
use pyre.Prelude.{List, [], ◌∷◌, ◌++◌, append-nil, append_assoc}
use pyre.Layout.Tree.{LayoutNode}
use pyre.Proto.{PaneEventKind, spawned, state_changed, closed, layout_changed}
use pyre.Sessions.State.{
  Effect, upsert_session, upsert_pane, upsert_window, upsert_window_layout, assign_pane_window,
  delete_window, rename_window_row, rename_pane_row, announce,
}

abbrev is_layout_changed : PaneEventKind → Bool
is_layout_changed layout_changed = true
is_layout_changed _ = false

-- Whether the last effect, or else the one before all, is a write of a layout.
abbrev layout_written : Bool → Effect → Bool
layout_written last (upsert_window_layout window tree) = true
layout_written last _ = false

abbrev pub allowed : Bool → Effect → Bool
allowed last (announce pane kind) = if is_layout_changed kind then last else true
allowed last _ = true

-- Every announcement of a changed layout stands right behind the write of a layout.
unfoldable pub write_first : Bool → List Effect → Bool
write_first last [] = true
write_first last (e ∷ es) = allowed last e && write_first (layout_written last e) es

-- The log only grew, by effects that are in order.
pub record Grows (old new_log : List Effect) : Type 0 where
  pub more : List Effect
  pub grown : new_log ≡ old ++ more
  pub in_order : write_first false more ≡ true

allowed_later : (last : Bool) (e : Effect) → allowed false e ≡ true → allowed last e ≡ true
allowed_later true (announce p spawned) h = refl
allowed_later true (announce p state_changed) h = refl
allowed_later true (announce p closed) h = refl
allowed_later true (announce p layout_changed) h = refl
allowed_later false e h = h
allowed_later true (upsert_session _ _) h = refl
allowed_later true (upsert_pane _ _ _ _ _) h = refl
allowed_later true (upsert_window _ _ _ _) h = refl
allowed_later true (upsert_window_layout _ _) h = refl
allowed_later true (assign_pane_window _ _ _) h = refl
allowed_later true (delete_window _) h = refl
allowed_later true (rename_window_row _ _) h = refl
allowed_later true (rename_pane_row _ _ _) h = refl

layout_written_same : (a b : Bool) (e : Effect) → layout_written a e ≡ layout_written b e
layout_written_same a b (upsert_window_layout _ _) = refl
layout_written_same a b (upsert_session _ _) = refl
layout_written_same a b (upsert_pane _ _ _ _ _) = refl
layout_written_same a b (upsert_window _ _ _ _) = refl
layout_written_same a b (assign_pane_window _ _ _) = refl
layout_written_same a b (delete_window _) = refl
layout_written_same a b (rename_window_row _ _) = refl
layout_written_same a b (rename_pane_row _ _ _) = refl
layout_written_same a b (announce _ _) = refl

both : (a b : Bool) → (a && b) ≡ true → (a ≡ true) × (b ≡ true)
both true true h = (refl, refl)
both true false h = absurd (ground arith)
both false b h = absurd (ground arith)

write_first_later :
    (last : Bool) (es : List Effect) → write_first false es ≡ true → write_first last es ≡ true
unfolding write_first
write_first_later last [] h = refl
write_first_later last (e ∷ es) h =
    let (now, later) = both (allowed false e) (write_first (layout_written false e) es) h in
    rw (allowed_later last e now, layout_written_same last false e) later

write_first-append :
    (last : Bool) (xs ys : List Effect)
    → write_first last xs ≡ true
    → write_first false ys ≡ true
    → write_first last (xs ++ ys) ≡ true
unfolding write_first
write_first-append last [] ys h k = write_first_later last ys k
write_first-append last (x ∷ xs) ys h k =
    let (now, later) = both (allowed last x) (write_first (layout_written last x) xs) h in
    rw now (write_first-append (layout_written last x) xs ys later k)

pub stays : (log : List Effect) → Grows log log
unfolding write_first
stays log = record { more = []; grown = sym (append-nil log); in_order = refl }

pub then_grows : {a b c : List Effect} → Grows a b → Grows b c → Grows a c
then_grows {a} {b} {c} g h = record {
  more = g.more ++ h.more;
  grown = h.grown ∙ ap (λ l. l ++ h.more) g.grown ∙ append_assoc a g.more h.more;
  in_order = write_first-append false g.more h.more g.in_order h.in_order;
}

-- One effect that needs nothing before it, and a written layout with its announcement.
pub plain : (log : List Effect) (e : Effect) → allowed false e ≡ true → Grows log (log ++ (e ∷ []))
unfolding write_first
plain log e h = record { more = e ∷ []; grown = refl; in_order = rw h refl }

pub saved :
    (log : List Effect) (window pane : ℕ) (tree : LayoutNode) (kind : PaneEventKind)
    → Grows log ((log ++ (upsert_window_layout window tree ∷ [])) ++ (announce pane kind ∷ []))
unfolding write_first
saved log window pane tree kind = record {
  more = upsert_window_layout window tree ∷ announce pane kind ∷ [];
  grown = append_assoc log (upsert_window_layout window tree ∷ []) (announce pane kind ∷ []);
  in_order = announced kind;
}
  where
    announced :
        (kind : PaneEventKind)
        → write_first false (upsert_window_layout window tree ∷ announce pane kind ∷ []) ≡ true
    announced spawned = refl
    announced state_changed = refl
    announced closed = refl
    announced layout_changed = refl

-- One more effect behind a log that is known to be the old one.
pub plain_at :
    (log same : List Effect) (e : Effect)
    → same ≡ log
    → allowed false e ≡ true
    → Grows log (same ++ (e ∷ []))
plain_at log same e p h = subst (λ l. Grows l (same ++ (e ∷ []))) p (plain same e h)
