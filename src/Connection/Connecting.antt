-- ===== src/Connection/Connecting.antt =====
-- Making the connection: `OnConnect` and `DoConnect`.
use boxi.Prelude.{
  ◌≡◌, refl, ap, ◌∙◌, Bool, true, false, not, ◌&&◌, ◌||◌, List, [], ◌∷◌, if◌then◌else◌,
}
use boxi.Connection.State.{
  WorkerState, bst_connecting, bst_connected, bst_start, Error, err_none, err_socketrefused,
  err_noresponse, err_disconnected, err_interrupted, Connection, state_eq, set_worker_state,
  start_client, stop_client, restart_client, sync_client, reload_client, on_client_terminate,
}
use boxi.Connection.Pid.{get_client_pid_slow}
use boxi.Connection.Worker.{
  start, stop, restart, sync, reload, make_request, Event, requested, killed, polled, terminated,
  on_event, run_events, Handled, done, Net, Connecting, returned, read_summary, do_connect,
  is_connecting, no_error, was_interrupted, after_connect, on_connect, then_lock,
}
use boxi.Connection.Interleaving.{is_busy, run_events-busy, kill_client-state}

abbrev asks_start_event : Event → Bool
asks_start_event (requested start) = true
asks_start_event (requested stop) = false
asks_start_event (requested restart) = false
asks_start_event (requested sync) = false
asks_start_event (requested reload) = false
asks_start_event (killed kill) = false
asks_start_event (polled y f) = false
asks_start_event (terminated p success) = false

-- Is the client's start requested among these?
abbrev pub asks_start : List Event → Bool
asks_start [] = false
asks_start (e ∷ es) = asks_start_event e || asks_start es

-- A connecting state with a start requested, or not.
abbrev pub connecting_or : Bool → WorkerState
connecting_or asked = if asked then bst_start else bst_connecting

event-connecting :
    (e : Event) (c : Connection)
    → c.current_state ≡ bst_connecting
    → (on_event e c).current_state ≡ connecting_or (asks_start_event e)
unfolding on_event make_request start_client stop_client restart_client sync_client reload_client
    set_worker_state on_client_terminate get_client_pid_slow
event-connecting (requested start) c h = rw h refl
event-connecting (requested stop) c h = rw h refl
event-connecting (requested restart) c h = rw h refl
event-connecting (requested sync) c h = rw h refl
event-connecting (requested reload) c h = rw h refl
event-connecting (killed kill) c h = kill_client-state kill c ∙ h
event-connecting (polled y f) c h = h
event-connecting (terminated p success) c h = rw h refl

pub run_connecting :
    (es : List Event) (a : Bool) (c : Connection)
    → c.current_state ≡ connecting_or a
    → (run_events es c).current_state ≡ connecting_or (a || asks_start es)
unfolding run_events
run_connecting [] false c h = h
run_connecting [] true c h = h
run_connecting (e ∷ es) true c h = run_events-busy (e ∷ es) c (ap is_busy h) ∙ h
run_connecting (e ∷ es) false c h =
    run_connecting es (asks_start_event e) (on_event e c) (event-connecting e c h)

-- It ended in a state.
abbrev pub EndsIn : WorkerState → Handled → Type 0
EndsIn s h = (c : Connection) × (h ≡ done c) × (c.current_state ≡ s)

abbrev pub connected_or : Bool → Bool → WorkerState
connected_or asked success =
    if asked then bst_start else if success then bst_connected else bst_connecting

after_connect-EndsIn :
    (result : Error) (es : List Event) (a : Bool) (c : Connection)
    → c.current_state ≡ connecting_or a
    → EndsIn
        (connected_or (a || asks_start es) (no_error result))
        (then_lock (returned result c) es)
unfolding after_connect
after_connect-EndsIn result es a c h =
    go (a || asks_start es) (run_events es c) (run_connecting es a c h)
  where
    go :
        (b : Bool) (c' : Connection)
        → c'.current_state ≡ connecting_or b
        → EndsIn (connected_or b (no_error result)) (after_connect result c')
    go true c' h' = (c', rw h' refl, h')
    go false c' h' = (
      record c' {
        current_state = if no_error result then bst_connected else c'.current_state;
        last_error = if was_interrupted result then c'.last_error else result;
      },
      rw h' refl,
      rw h' refl,
    )

-- What `DoConnect` returned, by whether a start was asked for before it did.
abbrev Returned : Bool → Bool → Connecting → Type 0
Returned asked success d =
    (result : Error) × (c : Connection) × (d ≡ returned result c)
    × (c.current_state ≡ connecting_or asked)
    × ((asked ≡ false) → no_error result ≡ success)

read_summary-Returned :
    (net : Net) (es : List Event) (c : Connection)
    → c.current_state ≡ bst_connecting
    → Returned (asks_start es) (net.reads_line && not net.is_eof) (read_summary net es c)
unfolding read_summary
read_summary-Returned net es c h =
    let c' = run_events es (record c { has_reader = true }) in
    go net.reads_line net.is_eof (asks_start es) c'
      (run_connecting es false (record c { has_reader = true }) h)
  where
    go :
        (reads eof a : Bool) (c' : Connection)
        → c'.current_state ≡ connecting_or a
        → Returned a (reads && not eof) (
            if not reads
            then returned err_noresponse c'
            else if not (is_connecting c')
            then returned err_interrupted c'
            else if eof
            then returned err_disconnected c'
            else returned err_none c')
    go false eof a c' h' = (err_noresponse, c', refl, h', λ e. refl)
    go true eof true c' h' = (err_interrupted, c', rw h' refl, h', λ e. cc)
    go true true false c' h' = (err_disconnected, c', rw h' refl, h', λ e. refl)
    go true false false c' h' = (err_none, c', rw h' refl, h', λ e. refl)

do_connect-Returned :
    (net : Net) (es es' : List Event) (c : Connection)
    → c.current_state ≡ bst_connecting
    → c.has_reader ≡ true
    → net.configured ≡ true
    → Returned
        (asks_start es || (net.opens && asks_start es'))
        (net.opens && (net.reads_line && not net.is_eof))
        (do_connect net es es' c)
unfolding do_connect read_summary
do_connect-Returned net es es' c h r n =
    rw (n, r)
      (go net.opens (asks_start es) (run_events es (record c { has_reader = false }))
        (run_connecting es false (record c { has_reader = false }) h))
  where
    go :
        (opens a : Bool) (c' : Connection)
        → c'.current_state ≡ connecting_or a
        → Returned (a || (opens && asks_start es')) (opens && (net.reads_line && not net.is_eof)) (
            if not opens
            then returned err_socketrefused c'
            else if not (is_connecting c')
            then returned err_interrupted c'
            else read_summary net es' c')
    go false false c' h' = (err_socketrefused, c', refl, h', λ e. refl)
    go false true c' h' = (err_socketrefused, c', refl, h', λ e. refl)
    go true true c' h' = (err_interrupted, c', rw h' refl, h', λ e. cc)
    go true false c' h' =
        let b : is_connecting c' ≡ true = ap (λ s. state_eq s bst_connecting) h' in
        rw b (read_summary-Returned net es' c' h')

connected_or-agrees :
    (a b x y : Bool) → (a ≡ false → x ≡ y) → connected_or (a || b) x ≡ connected_or (a || b) y
connected_or-agrees true b x y h = refl
connected_or-agrees false b x y h = ap (connected_or b) (h refl)

-- An attempt to connect with a reader from before, whatever other threads do during `Open`, during `GetLine` and before the last section: where the client's start was requested, that request stands; else it ends connected exactly where the socket opened and a line was read, not at the end, and otherwise goes on connecting.
on_connect_lem :
    (net : Net) (es es' es'' : List Event) (c : Connection)
    → c.current_state ≡ bst_connecting
    → c.has_reader ≡ true
    → net.configured ≡ true
    → EndsIn
        (connected_or
          ((asks_start es || (net.opens && asks_start es')) || asks_start es'')
          (net.opens && (net.reads_line && not net.is_eof)))
        (on_connect net es es' es'' c)
unfolding on_connect
on_connect_lem net es es' es'' c h r n =
    let (result, c', d, s, ok) = do_connect-Returned net es es' c h r n in
    let here : is_connecting c ≡ true = ap (λ s. state_eq s bst_connecting) h in
    let asked = asks_start es || (net.opens && asks_start es') in
    let (c'', e, s') = after_connect-EndsIn result es'' asked c' s in
    (
      c'',
      rw (here, d) e,
      s'
          ∙ connected_or-agrees asked (asks_start es'') (no_error result)
              (net.opens && (net.reads_line && not net.is_eof)) ok,
    )
