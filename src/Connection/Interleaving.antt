-- ===== src/Connection/Interleaving.antt =====
-- The worker's handlers, whatever other threads do between their sections.
use boxi.Prelude.{
  ℕ, ◌≡◌, refl, ap, ◌∙◌, Bool, true, false, not, ◌&&◌, List, [], ◌∷◌, arith, Bool-cases, inl, inr,
}
use boxi.Prelude.Int.{ℤ, negsuc, int_eq}
use boxi.Connection.State.{
  WorkerState, bst_connecting, bst_connected, bst_start, bst_startwait, bst_stop, bst_restart,
  bst_restarting, bst_sync, bst_reload, err_none, Connection, state_eq, state_eq_refl,
  set_worker_state, start_client, stop_client, restart_client, sync_client, reload_client,
  on_client_terminate,
}
use boxi.Connection.Pid.{
  KillError, kill_ok, kill_bad_signal, kill_access_denied, kill_no_process, kill_error,
  get_client_pid_slow, kill_client, kill_result,
}
use boxi.Connection.Worker.{
  Request, start, stop, restart, sync, reload, make_request, Event, requested, killed, polled,
  terminated, on_event, run_events, done, was_sent, after_send, send_command,
}

-- A state in which the worker is asked for something or at it: no request and no end of a process
-- changes it.
abbrev pub is_busy : WorkerState → Bool
is_busy s =
    not (state_eq s bst_connecting)
    && (not (state_eq s bst_connected)
        && (not (state_eq s bst_startwait) && not (state_eq s bst_restarting)))

-- A request finds another state than the one it wants.
pub set_worker_state-other :
    (old new : WorkerState) (c : Connection)
    → state_eq c.current_state old ≡ false
    → (set_worker_state old new c).0.current_state ≡ c.current_state
unfolding set_worker_state
set_worker_state-other old new c h = rw h refl

pub request-busy :
    (r : Request) (c : Connection)
    → is_busy c.current_state ≡ true
    → (make_request r c).0.current_state ≡ c.current_state
unfolding make_request start_client stop_client restart_client sync_client reload_client
request-busy start c h = set_worker_state-other bst_connecting bst_start c (ground arith)
request-busy stop c h = set_worker_state-other bst_connected bst_stop c (ground arith)
request-busy restart c h = set_worker_state-other bst_connected bst_restart c (ground arith)
request-busy sync c h = set_worker_state-other bst_connected bst_sync c (ground arith)
request-busy reload c h = set_worker_state-other bst_connected bst_reload c (ground arith)

kill_result-state :
    (k : KillError) (c : Connection) → (kill_result k c).0.current_state ≡ c.current_state
kill_result-state kill_ok c = refl
kill_result-state kill_bad_signal c = refl
kill_result-state kill_access_denied c = refl
kill_result-state kill_no_process c = refl
kill_result-state kill_error c = refl

pub kill_client-state :
    (kill : ℤ → KillError) (c : Connection) → (kill_client kill c).0.current_state ≡ c.current_state
unfolding kill_client
kill_client-state kill c = elim (Bool-cases (int_eq c.client_pid (negsuc 0))) [
  | inl e ↦ rw e refl
  | inr e ↦ rw e (kill_result-state (kill c.client_pid) c)
]

kill_result-has_reader :
    (k : KillError) (c : Connection) → (kill_result k c).0.has_reader ≡ c.has_reader
kill_result-has_reader kill_ok c = refl
kill_result-has_reader kill_bad_signal c = refl
kill_result-has_reader kill_access_denied c = refl
kill_result-has_reader kill_no_process c = refl
kill_result-has_reader kill_error c = refl

pub kill_client-has_reader :
    (kill : ℤ → KillError) (c : Connection) → (kill_client kill c).0.has_reader ≡ c.has_reader
unfolding kill_client
kill_client-has_reader kill c = elim (Bool-cases (int_eq c.client_pid (negsuc 0))) [
  | inl e ↦ rw e refl
  | inr e ↦ rw e (kill_result-has_reader (kill c.client_pid) c)
]

terminated-busy :
    (p : ℕ) (success : Bool) (c : Connection)
    → is_busy c.current_state ≡ true
    → (on_client_terminate p success c).current_state ≡ c.current_state
unfolding on_client_terminate
terminated-busy p success c h =
    let a : state_eq c.current_state bst_startwait ≡ false = ground arith in
    let b : state_eq c.current_state bst_connecting ≡ false = ground arith in
    let d : state_eq c.current_state bst_restarting ≡ false = ground arith in rw (a, b, d) refl

event-busy :
    (e : Event) (c : Connection)
    → is_busy c.current_state ≡ true
    → (on_event e c).current_state ≡ c.current_state
unfolding on_event get_client_pid_slow
event-busy (requested r) c h = request-busy r c h
event-busy (killed kill) c h = kill_client-state kill c
event-busy (polled y f) c h = refl
event-busy (terminated p success) c h = terminated-busy p success c h

pub run_events-busy :
    (es : List Event) (c : Connection)
    → is_busy c.current_state ≡ true
    → (run_events es c).current_state ≡ c.current_state
unfolding run_events
run_events-busy [] c h = refl
run_events-busy (e ∷ es) c h =
    let same = event-busy e c h in run_events-busy es (on_event e c) (ap is_busy same ∙ h) ∙ same

pub send_command_lem :
    (asked doing : WorkerState) (es : List Event) (c : Connection)
    → c.current_state ≡ asked
    → is_busy doing ≡ true
    → (c' : Connection) × (send_command asked doing was_sent es c ≡ done c')
      × (c'.current_state ≡ bst_connected)
      × (c'.last_error ≡ err_none)
unfolding send_command after_send
send_command_lem asked doing es c h b =
    let c1 = run_events es (record c { current_state = doing }) in
    let here : state_eq c.current_state asked ≡ true =
      ap (λ s. state_eq s asked) h ∙ state_eq_refl asked in
    let still : state_eq c1.current_state doing ≡ true =
      ap (λ s. state_eq s doing) (run_events-busy es (record c { current_state = doing }) b)
      ∙ state_eq_refl doing in
    (
      record c1 { current_state = bst_connected; last_error = err_none },
      rw (here, still) refl,
      refl,
      refl,
    )
