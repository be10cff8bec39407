-- ===== src/Sessions/Regular.antt =====
-- A regular registry: a session has its own id alone, at least one window, and owns what it holds.
use pyre.Prelude.{
  ℕ, ◌≡◌, refl, sym, ap, ◌∙◌, inl, inr, arith, Bool, true, false, not, if◌then◌else◌,
}
use pyre.Prelude.{Bool-cases, ==_iff, subst, List, [], ◌∷◌, ◌++◌, map, some}
use pyre.Prelude.{◌==◌, find?, filter, any, is_empty, all, all-append_one, all-filter, all-map}
use pyre.Prelude.{
  is_empty-map, is_empty-append_one, none-filter, none-append_one, any-map, ||-false, find?-cons,
}
use pyre.Sessions.State.{
  Pane, Window, Session, is_session, is_pane, is_window, change_session, change_window,
}
use pyre.Sessions.Panes.{insert_pane, remove_from}

pub record IsSound (s : Session) : Type 0 where
  pub windows_ne : is_empty s.windows ≡ false
  pub windows_own : all (λ w. w.session == s.id) s.windows ≡ true
  pub panes_own : all (λ p. p.session == s.id) s.panes ≡ true

abbrev pub IsRegular : List Session → Type 0
IsRegular [] = Unit
IsRegular (s ∷ ss) = IsSound s × (any (is_session s.id) ss ≡ false) × IsRegular ss

-- An update that keeps the id, at one session or at another.
change-id :
    (f : Session → Session) (id : ℕ) (s : Session)
    → ((x : Session) → (f x).id ≡ x.id)
    → (if is_session id s then f s else s).id ≡ s.id
change-id f id s k = elim (Bool-cases (is_session id s)) [ inl e ↦ rw e (k s) | inr e ↦ rw e refl ]

any-change_session :
    (f : Session → Session) (id a : ℕ) (ss : List Session)
    → ((x : Session) → (f x).id ≡ x.id)
    → any (is_session a) (change_session f id ss) ≡ any (is_session a) ss
any-change_session f id a ss k =
    any-map (is_session a) _ ss (λ x. ap (λ i. i == a) (change-id f id x k))

-- An update of every session that keeps its id and keeps it sound.
pub map-IsRegular :
    (f : Session → Session) (ss : List Session)
    → ((x : Session) → (f x).id ≡ x.id)
    → ((x : Session) → IsSound x → IsSound (f x))
    → IsRegular ss
    → IsRegular (map f ss)
map-IsRegular f [] k sound h = h
map-IsRegular f (x ∷ ss) k sound (hx, absent, hs) = (
  sound x hx,
  any-map (is_session (f x).id) f ss (λ y. ap (λ i. i == (f x).id) (k y))
      ∙ subst (λ i. any (is_session i) ss ≡ false) (sym (k x)) absent,
  map-IsRegular f ss k sound hs,
)

-- The same where only the sessions with an id are updated.
pub change_session-IsRegular :
    (f : Session → Session) (id : ℕ) (ss : List Session)
    → ((x : Session) → (f x).id ≡ x.id)
    → ((x : Session) → x.id ≡ id → IsSound x → IsSound (f x))
    → IsRegular ss
    → IsRegular (change_session f id ss)
change_session-IsRegular f id ss k sound =
    map-IsRegular _ ss (λ x. change-id f id x k)
      (λ x hx. elim (Bool-cases (is_session id x)) [
        | inl e ↦ rw e (sound x ((==_iff x.id id).0 e) hx)
        | inr e ↦ rw e hx
      ])

-- A session that is dropped anyway may be changed before.
pub filter-change_session :
    (f : Session → Session) (id : ℕ) (ss : List Session)
    → ((x : Session) → (f x).id ≡ x.id)
    → filter (λ s. not (is_session id s)) (change_session f id ss)
      ≡ filter (λ s. not (is_session id s)) ss
filter-change_session f id [] k = refl
filter-change_session f id (x ∷ ss) k = elim (Bool-cases (is_session id x)) [
  | inl e ↦ rw (e, k x, e) (filter-change_session f id ss k)
  | inr e ↦ rw (e, e) (ap (λ ys. x ∷ ys) (filter-change_session f id ss k))
]

change_session_absent :
    (f : Session → Session) (id : ℕ) (ss : List Session)
    → any (is_session id) ss ≡ false
    → change_session f id ss ≡ ss
change_session_absent f id [] h = refl
change_session_absent f id (x ∷ ss) h =
    rw
      (
        (||-false {a = is_session id x} h).0,
        change_session_absent f id ss (||-false {a = is_session id x} h).1,
      )
      refl

-- The same for an update that is only known to be right for the session that the lookup found.
pub change_found-IsRegular :
    (f : Session → Session) (id : ℕ) (s : Session) (ss : List Session)
    → ((x : Session) → (f x).id ≡ x.id)
    → find? (is_session id) ss ≡ some s
    → (IsSound s → IsSound (f s))
    → IsRegular ss
    → IsRegular (change_session f id ss)
change_found-IsRegular f id s [] k found sound h = h
change_found-IsRegular f id s (x ∷ ss) k found sound (hx, absent, hs) =
    elim (find?-cons (is_session id) x ss s found) [
      | inl (e, same) ↦
          let gone : any (is_session id) ss ≡ false =
            subst (λ i. any (is_session i) ss ≡ false) ((==_iff x.id id).0 e) absent in
          rw (e, change_session_absent f id ss gone)
            (
              subst (λ y. IsSound (f y)) (sym same) (sound (subst IsSound same hx)),
              subst (λ i. any (is_session i) ss ≡ false) (sym (k x)) absent,
              hs,
            )
      | inr (e, later) ↦ rw e (
        hx,
        any-change_session f id x.id ss k ∙ absent,
        change_found-IsRegular f id s ss k later sound hs,
      )
    ]

==_comm : (a b : ℕ) → (a == b) ≡ (b == a)
==_comm a b = ground arith

pub filter-IsRegular :
    (p : Session → Bool) (ss : List Session) → IsRegular ss → IsRegular (filter p ss)
filter-IsRegular p [] h = h
filter-IsRegular p (x ∷ ss) (hx, absent, hs) = elim (Bool-cases (p x)) [
  | inl e ↦ rw e (hx, none-filter (is_session x.id) p ss absent, filter-IsRegular p ss hs)
  | inr e ↦ rw e (filter-IsRegular p ss hs)
]

pub append-IsRegular :
    (ss : List Session) (s : Session)
    → any (is_session s.id) ss ≡ false
    → IsSound s
    → IsRegular ss
    → IsRegular (ss ++ (s ∷ []))
append-IsRegular [] s absent sound h = (sound, refl, tt)
append-IsRegular (x ∷ ss) s absent sound (hx, hn, hs) =
    let (first, others) = ||-false {a = is_session s.id x} absent in
    (
      hx,
      none-append_one (is_session x.id) ss s hn (==_comm s.id x.id ∙ first),
      append-IsRegular ss s others sound hs,
    )

pub change_window-IsSound :
    (f : Window → Window) (window : ℕ) (s : Session)
    → ((w : Window) → (f w).session ≡ w.session)
    → IsSound s
    → IsSound (change_window f window s)
change_window-IsSound f window s k h = record {
  windows_ne = is_empty-map _ s.windows ∙ h.windows_ne;
  windows_own =
      all-map (λ w. w.session == s.id) _ s.windows
        (λ w e. elim (Bool-cases (is_window window w)) [ inl y ↦ rw (y, k w) e | inr y ↦ rw y e ])
        h.windows_own;
  panes_own = h.panes_own;
}

pub remove_from-IsSound : (pane : ℕ) (s : Session) → IsSound s → IsSound (remove_from pane s)
remove_from-IsSound pane s h = record {
  windows_ne = h.windows_ne;
  windows_own = h.windows_own;
  panes_own = all-filter _ _ s.panes h.panes_own;
}

pub insert_pane-IsSound :
    (p : Pane) (now : ℕ) (s : Session)
    → p.session ≡ s.id
    → IsSound s
    → IsSound (insert_pane p now s)
insert_pane-IsSound p now s own h = record {
  windows_ne = h.windows_ne;
  windows_own = h.windows_own;
  panes_own =
      all-append_one (λ q. q.session == s.id) (filter (λ q. not (is_pane p.id q)) s.panes) p
        (all-filter _ _ s.panes h.panes_own) ((==_iff p.session s.id).1 own);
}

pub add_window-IsSound :
    (w : Window) (s : Session)
    → w.session ≡ s.id
    → IsSound s
    → IsSound (record s { windows = s.windows ++ (w ∷ []) })
add_window-IsSound w s own h = record {
  windows_ne = is_empty-append_one s.windows w;
  windows_own =
      all-append_one (λ x. x.session == s.id) s.windows w h.windows_own
        ((==_iff w.session s.id).1 own);
  panes_own = h.panes_own;
}
