-- ===== src/Connection/Listening.antt =====
-- Waiting for the client's lines: what `OnConnectedIdle` promises.
use mathlib.Core.Path.{subst}
use boxi.Prelude.{
  ◌≡◌, refl, ap, sym, ◌∙◌, Bool, true, false, ◌||◌, Option, none, some, List, [], ◌∷◌, arith,
  Bool-cases, Option-cases, ◌⊎◌, inl, inr, lit,
}
use boxi.Prelude.Text.{Text, text_eq}
use boxi.Prelude.Int.{ℤ}
use boxi.Connection.State.{
  WorkerState, bst_connecting, bst_connected, bst_start, bst_restarting, Error, err_disconnected,
  err_interrupted, cs_unknown, Connection, state_eq, set_worker_state, start_client, stop_client,
  restart_client, sync_client, reload_client, on_client_terminate,
}
use boxi.Connection.Pid.{get_client_pid_slow}
use boxi.Connection.Worker.{
  start, stop, restart, sync, reload, make_request, Event, requested, killed, polled, terminated,
  on_event, run_events, done,
}
use boxi.Connection.Idle.{
  Reading, read_threw, timed_out, at_eof, line, client_state_of, on_number, after_prefix, on_line,
  do_read_line, is_disconnected, on_hang_up, after_read_line, on_connected_idle,
}
use boxi.Connection.Interleaving.{is_busy, run_events-busy, kill_client-state}

-- The client has hung up.
abbrev pub hangs_up : Reading → Bool
hangs_up read_threw = true
hangs_up timed_out = false
hangs_up at_eof = true
hangs_up (line text) = false

abbrev Connected : WorkerState → Type 0
Connected s = (s ≡ bst_connected) ⊎ (is_busy s ≡ true)

event-Connected :
    (e : Event) (c : Connection)
    → c.current_state ≡ bst_connected
    → Connected (on_event e c).current_state
unfolding on_event make_request start_client stop_client restart_client sync_client reload_client
    set_worker_state on_client_terminate get_client_pid_slow
event-Connected (requested start) c h = inl (rw h refl)
event-Connected (requested stop) c h = inr (rw h refl)
event-Connected (requested restart) c h = inr (rw h refl)
event-Connected (requested sync) c h = inr (rw h refl)
event-Connected (requested reload) c h = inr (rw h refl)
event-Connected (killed kill) c h = inl (kill_client-state kill c ∙ h)
event-Connected (polled y f) c h = inl h
event-Connected (terminated p success) c h = inl (rw h refl)

run-Connected :
    (es : List Event) (c : Connection)
    → c.current_state ≡ bst_connected
    → Connected (run_events es c).current_state
unfolding run_events
run-Connected [] c h = inl h
run-Connected (e ∷ es) c h = elim (event-Connected e c h) [
  | inl s ↦ run-Connected es (on_event e c) s
  | inr b ↦ inr (ap is_busy (run_events-busy es (on_event e c) b) ∙ b)
]

abbrev pub Restarting : WorkerState → Type 0
Restarting s = (s ≡ bst_restarting) ⊎ (s ≡ bst_start)

event-Restarting :
    (e : Event) (c : Connection)
    → c.current_state ≡ bst_restarting
    → Restarting (on_event e c).current_state
unfolding on_event make_request start_client stop_client restart_client sync_client reload_client
    set_worker_state on_client_terminate get_client_pid_slow
event-Restarting (requested start) c h = inl (rw h refl)
event-Restarting (requested stop) c h = inl (rw h refl)
event-Restarting (requested restart) c h = inl (rw h refl)
event-Restarting (requested sync) c h = inl (rw h refl)
event-Restarting (requested reload) c h = inl (rw h refl)
event-Restarting (killed kill) c h = inl (kill_client-state kill c ∙ h)
event-Restarting (polled y f) c h = inl h
event-Restarting (terminated p success) c h = inr (rw h refl)

pub run-Restarting :
    (es : List Event) (c : Connection)
    → c.current_state ≡ bst_restarting
    → Restarting (run_events es c).current_state
unfolding run_events
run-Restarting [] c h = inl h
run-Restarting (e ∷ es) c h = elim (event-Restarting e c h) [
  | inl s ↦ run-Restarting es (on_event e c) s
  | inr b ↦ inr (run_events-busy es (on_event e c) (ap is_busy b) ∙ b)
]

-- A line leaves the worker's state alone, and is no disconnection.
on_number_lem :
    (n : Option ℤ) (c : Connection)
    → ((on_number n c).1.current_state ≡ c.current_state)
      × (is_disconnected (on_number n c).0 ≡ false)
on_number_lem none c = (refl, refl)
on_number_lem (some v) c = elim (Option-cases (client_state_of v)) [
  | inl e ↦ rw (on_number, e) (refl, refl)
  | inr (s, e) ↦ rw (on_number, e) (refl, refl)
]

module _ (to_long : Text → Option ℤ) where
  abbrev LeavesState : Error × Connection → Connection → Type 0
  LeavesState r c = (r.1.current_state ≡ c.current_state) × (is_disconnected r.0 ≡ false)

  on_line_lem : (text : Text) (c : Connection) → LeavesState (on_line to_long text c) c
  unfolding on_line
  on_line_lem text c = elim (Bool-cases (text_eq text (lit "ok"))) [
    | inl e ↦ rw e (refl, refl)
    | inr e ↦ elim (Bool-cases (text_eq text (lit "error"))) [
      | inl e' ↦ rw (e, e') (refl, refl)
      | inr e' ↦ elim (Option-cases (after_prefix (lit "state ") text)) [
        | inl p ↦ rw (e, e', p) (refl, refl)
        | inr (rest, p) ↦ rw (e, e', p) (on_number_lem (to_long rest) c)
      ]
    ]
  ]

  do_read_line_lem :
      (reading : Reading) (c : Connection)
      → ((do_read_line to_long reading c).1.current_state ≡ c.current_state)
        × (is_disconnected (do_read_line to_long reading c).0 ≡ hangs_up reading)
  unfolding do_read_line
  do_read_line_lem read_threw c = (refl, refl)
  do_read_line_lem timed_out c = (refl, refl)
  do_read_line_lem at_eof c = (refl, refl)
  do_read_line_lem (line text) c = on_line_lem text c

  -- From CONNECTED, by what was read: a request that was accepted meanwhile stands; or the client hung up, and connecting begins again with its state unknown; or it stays connected.
  abbrev pub AfterConnected : Reading → Connection → Type 0
  AfterConnected reading c =
      ((is_busy c.current_state ≡ true) × (c.last_error ≡ err_interrupted))
      ⊎ ((hangs_up reading ≡ true)
          × (c.current_state ≡ bst_connecting)
          × (c.client_state ≡ cs_unknown)
          × (c.last_error ≡ err_disconnected))
      ⊎ ((hangs_up reading ≡ false) × (c.current_state ≡ bst_connected))

  after_connected :
      (reading : Reading) (result : Error) (c : Connection)
      → is_disconnected result ≡ hangs_up reading
      → Connected c.current_state
      → AfterConnected reading (after_read_line result c)
  unfolding after_read_line on_hang_up
  after_connected reading result c d (inr b) =
      let no : state_eq c.current_state bst_connected ≡ false = ground arith in
      let no' : state_eq c.current_state bst_restarting ≡ false = ground arith in
      inl (rw (no, no') b, rw (no, no') refl)
  after_connected reading result c d (inl s) = elim (Bool-cases (hangs_up reading)) [
    | inl e ↦
        let gone = d ∙ e in inr (inl (e, rw (s, gone) refl, rw (s, gone) refl, rw (s, gone) refl))
    | inr e ↦ let here = d ∙ e in inr (inr (e, rw (s, here) refl))
  ]

  -- From RESTARTING: the start is next, or goes on being waited for while the client has not hung up.
  abbrev pub AfterRestarting : Reading → Connection → Type 0
  AfterRestarting reading c =
      (c.current_state ≡ bst_start)
      ⊎ ((hangs_up reading ≡ false) × (c.current_state ≡ bst_restarting))

  after_restarting :
      (reading : Reading) (result : Error) (c : Connection)
      → is_disconnected result ≡ hangs_up reading
      → Restarting c.current_state
      → AfterRestarting reading (after_read_line result c)
  unfolding after_read_line on_hang_up
  after_restarting reading result c d (inr s) = inl (rw s refl)
  after_restarting reading result c d (inl s) = elim (Bool-cases (hangs_up reading)) [
    | inl e ↦ let gone = d ∙ e in inl (rw (s, gone) refl)
    | inr e ↦ let here = d ∙ e in inr (e, rw (s, here) refl)
  ]

  -- Whatever other threads do while a line is waited for, `OnConnectedIdle` with a reader fails no assertion. From CONNECTED, a request accepted meanwhile stands, with ERR_INTERRUPTED; else a client that hung up is connected to again, its state unknown, and otherwise the connection stays. From RESTARTING, the state afterwards is START, or RESTARTING as long as the client has not hung up.
  on_connected_idle_lem :
      (reading : Reading) (es : List Event) (c : Connection)
      → c.has_reader ≡ true
      → (c.current_state ≡ bst_connected
          → (c' : Connection) × (on_connected_idle to_long reading es c ≡ done c')
            × AfterConnected reading c')
        × (c.current_state ≡ bst_restarting
            → (c' : Connection) × (on_connected_idle to_long reading es c ≡ done c')
              × AfterRestarting reading c')
  unfolding on_connected_idle
  on_connected_idle_lem reading es c r =
      let read = do_read_line to_long reading (run_events es c) in
      let (same, d) = do_read_line_lem reading (run_events es c) in
      (
        λ h.
            let here : state_eq c.current_state bst_connected ≡ true =
              ap (λ s. state_eq s bst_connected) h in
            (
              after_read_line read.0 read.1,
              rw (here, r) refl,
              after_connected reading read.0 read.1 d
                  (subst Connected (sym same) (run-Connected es c h)),
            ),
        λ h.
            let here : (state_eq c.current_state bst_connected
                  || state_eq c.current_state bst_restarting)
                ≡ true =
              ap (λ s. state_eq s bst_connected || state_eq s bst_restarting) h in
            (
              after_read_line read.0 read.1,
              rw (here, r) refl,
              after_restarting reading read.0 read.1 d
                  (subst Restarting (sym same) (run-Restarting es c h)),
            ),
      )
