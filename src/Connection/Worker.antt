-- ===== src/Connection/Worker.antt =====
-- The handlers of the worker thread in src/ClientConnection.cc. A handler holds the mutex in
-- sections; between two sections other threads may do anything that `Event` lists.
use boxi.Prelude.{ℕ, Bool, true, false, not, List, [], ◌∷◌, if◌then◌else◌}
use boxi.Prelude.Int.{ℤ}
use boxi.Connection.State.{
  WorkerState, bst_connecting, bst_connected, bst_stop, bst_stopping, bst_restart, bst_restarting,
  bst_sync, bst_syncing, bst_reload, bst_reloading, Error, err_none, err_nosocketconfig,
  err_socketrefused, err_noresponse, err_disconnected, err_interrupted, Connection, state_eq,
  start_client, stop_client, restart_client, sync_client, reload_client, on_client_terminate,
}
use boxi.Connection.Pid.{KillError, PidFile, System, get_client_pid_slow, kill_client}

-- The public requests.
pub data Request : Type 0 where
  start stop restart sync reload : Request

unfoldable pub make_request : Request → Connection → Connection × Bool
make_request start = start_client
make_request stop = stop_client
make_request restart = restart_client
make_request sync = sync_client
make_request reload = reload_client

-- What other threads do: a request, a kill, a look at the PID, and the end of the client's process.
pub data Event : Type 0 where
  requested : Request → Event
  killed : (ℤ → KillError) → Event
  polled : System → PidFile → Event
  terminated : ℕ → Bool → Event

unfoldable pub on_event : Event → Connection → Connection
on_event (requested r) c = (make_request r c).0
on_event (killed kill) c = (kill_client kill c).0
on_event (polled y f) c = (get_client_pid_slow y f c).0
on_event (terminated p success) c = on_client_terminate p success c

unfoldable pub run_events : List Event → Connection → Connection
run_events [] c = c
run_events (e ∷ es) c = run_events es (on_event e c)

-- A handler ends, leaves an exception to its caller, or stops the program: at an `assert`, or by a
-- call on the reader that is not there.
pub data Handled : Type 0 where
  done threw : Connection → Handled
  assert_failed crashed : Handled

-- Did the write of `_sendCommand`, which returns TRUE, return?
pub data Sent : Type 0 where
  was_sent send_threw : Sent

-- From the second section on.
unfoldable pub after_send : WorkerState → Sent → Connection → Handled
after_send doing send_threw c = threw c
after_send doing was_sent c =
    if state_eq c.current_state doing
    then done (record c { current_state = bst_connected; last_error = err_none })
    else assert_failed

-- What OnStopClient, OnSyncClient and OnReloadClient have in common, where there is a socket, which
-- `_sendCommand` does not ask.
unfoldable pub send_command : WorkerState → WorkerState → Sent → List Event → Connection → Handled
send_command asked doing sent es c =
    let after = after_send doing sent (run_events es (record c { current_state = doing })) in
    if state_eq c.current_state asked then after else assert_failed

unfoldable pub on_stop_client : Sent → List Event → Connection → Handled
on_stop_client = send_command bst_stop bst_stopping

unfoldable pub on_sync_client : Sent → List Event → Connection → Handled
on_sync_client = send_command bst_sync bst_syncing

unfoldable pub on_reload_client : Sent → List Event → Connection → Handled
on_reload_client = send_command bst_reload bst_reloading

abbrev pub after_restart : Sent → Connection → Handled
after_restart send_threw c = threw c
after_restart was_sent c = done (record c { last_error = err_none })

unfoldable pub on_restart_client : Sent → List Event → Connection → Handled
on_restart_client sent es c =
    let after = after_restart sent (run_events es (record c { current_state = bst_restarting })) in
    if state_eq c.current_state bst_restart then after else assert_failed

-- What the socket and the configuration do for `DoConnect`: the configuration names a socket, it
-- opens, a line is read (rather than none, or an exception thrown), and the reader is at its end.
pub record Net : Type 0 where
  pub configured : Bool
  pub opens : Bool
  pub reads_line : Bool
  pub is_eof : Bool

-- What `DoConnect` returns, and the fields.
pub data Connecting : Type 0 where
  returned : Error → Connection → Connecting
  crashed_connecting : Connecting

abbrev pub is_connecting : Connection → Bool
is_connecting c = state_eq c.current_state bst_connecting

-- From `apSocket.release()` on, with what happens during `GetLine`.
unfoldable pub read_summary : Net → List Event → Connection → Connecting
read_summary net es c =
    let c' = run_events es (record c { has_reader = true }) in
    if not net.reads_line
    then returned err_noresponse c'
    else if not (is_connecting c')
    then returned err_interrupted c'
    else if net.is_eof
    then returned err_disconnected c'
    else returned err_none c'

-- `DoConnect`, with what happens during `Open` and during `GetLine`.
unfoldable pub do_connect : Net → List Event → List Event → Connection → Connecting
do_connect net es es' c =
    let c' = run_events es (record c { has_reader = false }) in
    if not net.configured
    then returned err_nosocketconfig c
    else if not c.has_reader
    then crashed_connecting
    else if not net.opens
    then returned err_socketrefused c'
    else if not (is_connecting c')
    then returned err_interrupted c'
    else read_summary net es' c'

abbrev pub no_error : Error → Bool
no_error err_none = true
no_error _ = false

abbrev pub was_interrupted : Error → Bool
was_interrupted err_interrupted = true
was_interrupted _ = false

-- The last section of `OnConnect`.
unfoldable pub after_connect : Error → Connection → Handled
after_connect result c =
    if not (is_connecting c)
    then done c
    else done (record c {
      current_state = if no_error result then bst_connected else c.current_state;
      last_error = if was_interrupted result then c.last_error else result;
    })

abbrev pub then_lock : Connecting → List Event → Handled
then_lock crashed_connecting es = crashed
then_lock (returned result c) es = after_connect result (run_events es c)

unfoldable pub on_connect : Net → List Event → List Event → List Event → Connection → Handled
on_connect net es es' es'' c =
    let after = then_lock (do_connect net es es' c) es'' in
    if is_connecting c then after else assert_failed
