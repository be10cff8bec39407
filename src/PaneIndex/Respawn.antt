-- ===== src/PaneIndex/Respawn.antt =====
-- The supervisor's watch over its workers: the SIGCHLD handler and the heartbeat monitor of
-- crates/pyred/src/supervisor.rs. Starting a process is the session's name in a list.
use pyre.Prelude.{ℕ, ◌≡◌, refl, ap, ◌∙◌, inl, inr, Bool, false}
use pyre.Prelude.{Bool-cases, List, [], ◌∷◌, ◌++◌, map, Option, none, some, any, contains}
use pyre.Prelude.{
  ◌==◌, ◌||◌, if◌then◌else◌, none-append_one, contains-append, none-filter, found_other, ||-false,
}
use mathlib.Core.Option
use pyre.PaneIndex.{
  Worker, WorkerHandle, WorkerRegistry, without, remove, session_for_pid, pane_count,
  stale_sessions, insert,
}

-- The branch on the session of the process that ended.
unfoldable pub reap_session : WorkerRegistry → Option ℕ → WorkerRegistry × List ℕ
reap_session registry none = (registry, [])
reap_session registry (some session) = (
  (remove registry session).0,
  if pane_count registry.panes session == 0 then [] else session ∷ [],
)

unfoldable pub reap : WorkerRegistry → ℕ → WorkerRegistry × List ℕ
reap registry pid = reap_session registry (session_for_pid registry pid)

-- The workers without a heartbeat for 15 seconds, in milliseconds.
abbrev heartbeat_timeout : ℕ
heartbeat_timeout = 15000

abbrev remove_all : WorkerRegistry → List ℕ → WorkerRegistry
remove_all registry [] = registry
remove_all registry (session ∷ rest) = remove_all (remove registry session).0 rest

unfoldable pub respawn_stale : WorkerRegistry → ℕ → WorkerRegistry × List ℕ
respawn_stale registry now =
    let stale = stale_sessions registry now heartbeat_timeout in (remove_all registry stale, stale)

-- What the supervisor sees of its workers: one has registered, one has ended, time has passed.
pub data Watch : Type 0 where
  registered : (session : ℕ) (handle : WorkerHandle) → Watch
  exited : (pid : ℕ) → Watch
  beat : (now : ℕ) → Watch

unfoldable pub watch : WorkerRegistry → Watch → WorkerRegistry × List ℕ
watch registry (registered session handle) = (insert registry session handle, [])
watch registry (exited pid) = reap registry pid
watch registry (beat now) = respawn_stale registry now

unfoldable pub watch_all : WorkerRegistry → List Watch → WorkerRegistry × List ℕ
watch_all registry [] = (registry, [])
watch_all registry (w ∷ ws) =
    let seen = watch registry w in let rest = watch_all seen.0 ws in (rest.0, seen.1 ++ rest.1)

abbrev pub has_session : ℕ → Worker → Bool
has_session session w = w.session_id == session

abbrev pub registers : ℕ → Watch → Bool
registers session (registered other handle) = other == session
registers session _ = false

-- The registry has no worker for the session, and the session is not among those started.
abbrev Gone : ℕ → WorkerRegistry × List ℕ → Type 0
Gone session (registry, started) =
    (any (has_session session) registry.inner ≡ false) × (contains started session ≡ false)

reap_session-Gone :
    (session : ℕ) (registry : WorkerRegistry) (o : Option Worker)
    → any (has_session session) registry.inner ≡ false
    → ((w : Worker) → o ≡ some w → has_session session w ≡ false)
    → Gone session (reap_session registry (Option.map (λ w. w.session_id) o))
unfolding reap_session remove
reap_session-Gone session registry none h other = (h, refl)
reap_session-Gone session registry (some w) h other = (
  none-filter (has_session session) _ registry.inner h,
  elim (Bool-cases (pane_count registry.panes w.session_id == 0)) [
    | inl e ↦ rw e refl
    | inr e ↦ rw (e, other w refl) refl
  ],
)

remove_all-gone :
    (session : ℕ) (registry : WorkerRegistry) (ids : List ℕ)
    → any (has_session session) registry.inner ≡ false
    → any (has_session session) (remove_all registry ids).inner ≡ false
unfolding remove
remove_all-gone session registry [] h = h
remove_all-gone session registry (s ∷ ids) h =
    remove_all-gone session (remove registry s).0 ids
      (none-filter (has_session session) _ registry.inner h)

contains-sessions :
    (session : ℕ) (ws : List Worker)
    → contains (map (λ w. w.session_id) ws) session ≡ any (has_session session) ws
contains-sessions session [] = refl
contains-sessions session (w ∷ ws) =
    ap (λ b. has_session session w || b) (contains-sessions session ws)

watch-Gone :
    (session : ℕ) (registry : WorkerRegistry) (w : Watch)
    → any (has_session session) registry.inner ≡ false
    → registers session w ≡ false
    → Gone session (watch registry w)
unfolding watch reap session_for_pid respawn_stale stale_sessions insert
watch-Gone session registry (registered other handle) h k = (
  none-append_one (has_session session) (without other registry.inner) _
      (none-filter (has_session session) _ registry.inner h) k,
  refl,
)
watch-Gone session registry (exited pid) h k =
    reap_session-Gone session registry _ h
      (λ w found. found_other _ (has_session session) registry.inner w h found)
watch-Gone session registry (beat now) h k = (
  remove_all-gone session registry (stale_sessions registry now heartbeat_timeout) h,
  contains-sessions session _ ∙ none-filter (has_session session) _ registry.inner h,
)

pub watch_all-not_started :
    (session : ℕ) (registry : WorkerRegistry) (ws : List Watch)
    → any (has_session session) registry.inner ≡ false
    → any (registers session) ws ≡ false
    → contains (watch_all registry ws).1 session ≡ false
unfolding watch_all
watch_all-not_started session registry [] h k = refl
watch_all-not_started session registry (w ∷ ws) h k =
    let (first, others) = ||-false {a = registers session w} k in
    let (gone, none_here) = watch-Gone session registry w h first in
    contains-append (watch registry w).1 (watch_all (watch registry w).0 ws).1 session
    ∙ rw (none_here, watch_all-not_started session (watch registry w).0 ws gone others) refl
