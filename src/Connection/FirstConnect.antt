-- ===== src/Connection/FirstConnect.antt =====
-- The first connection that a `ClientConnection` makes.
use boxi.Prelude.{
  ℕ, ◌≡◌, refl, ap, ◌∙◌, Bool, true, false, not, ◌&&◌, List, [], ◌∷◌, Bool-cases, inl, inr,
}
use boxi.Connection.State.{
  WorkerState, bst_connecting, bst_connected, bst_startwait, bst_restarting, Connection,
  new_connection, state_eq, set_worker_state, start_client, stop_client, restart_client,
  sync_client, reload_client, on_client_terminate,
}
use boxi.Connection.Pid.{get_client_pid_slow}
use boxi.Connection.Worker.{
  start, stop, restart, sync, reload, make_request, Event, requested, killed, polled, terminated,
  on_event, run_events, crashed, Net, do_connect, is_connecting, on_connect,
}
use boxi.Connection.Interleaving.{kill_client-has_reader}
use boxi.Connection.Connecting.{asks_start, connecting_or, run_connecting}

set_worker_state-has_reader :
    (old new : WorkerState) (c : Connection)
    → (set_worker_state old new c).0.has_reader ≡ c.has_reader
unfolding set_worker_state
set_worker_state-has_reader old new c = elim (Bool-cases (state_eq c.current_state old)) [
  | inl e ↦ rw e refl
  | inr e ↦ rw e refl
]

terminated-has_reader :
    (p : ℕ) (success : Bool) (c : Connection)
    → (on_client_terminate p success c).has_reader ≡ c.has_reader
unfolding on_client_terminate
terminated-has_reader p success c =
    elim (Bool-cases (
      not (state_eq c.current_state bst_startwait)
      && (not (state_eq c.current_state bst_connecting)
          && not (state_eq c.current_state bst_restarting)))) [
            | inl e ↦ rw e refl
            | inr e ↦ rw e refl
          ]

-- No event touches the reader.
event-has_reader : (e : Event) (c : Connection) → (on_event e c).has_reader ≡ c.has_reader
unfolding on_event make_request start_client stop_client restart_client sync_client reload_client
    get_client_pid_slow
event-has_reader (requested start) c = set_worker_state-has_reader bst_connecting _ c
event-has_reader (requested stop) c = set_worker_state-has_reader bst_connected _ c
event-has_reader (requested restart) c = set_worker_state-has_reader bst_connected _ c
event-has_reader (requested sync) c = set_worker_state-has_reader bst_connected _ c
event-has_reader (requested reload) c = set_worker_state-has_reader bst_connected _ c
event-has_reader (killed kill) c = kill_client-has_reader kill c
event-has_reader (polled y f) c = refl
event-has_reader (terminated p success) c = terminated-has_reader p success c

run_events-has_reader :
    (es : List Event) (c : Connection) → (run_events es c).has_reader ≡ c.has_reader
unfolding run_events
run_events-has_reader [] c = refl
run_events-has_reader (e ∷ es) c = run_events-has_reader es (on_event e c) ∙ event-has_reader e c

-- Whatever happened before but a request to start: the constructor leaves `mapReader` empty, so with a socket configured the first attempt to connect calls a method of no object, whatever the network does.
pub first_connect_crashes :
    (net : Net) (es es' es'' before : List Event)
    → net.configured ≡ true
    → asks_start before ≡ false
    → on_connect net es es' es'' (run_events before new_connection) ≡ crashed
unfolding on_connect do_connect
first_connect_crashes net es es' es'' before n quiet =
    let c = run_events before new_connection in
    let s : c.current_state ≡ bst_connecting =
      run_connecting before false new_connection refl ∙ ap connecting_or quiet in
    let here : is_connecting c ≡ true = ap (λ s. state_eq s bst_connecting) s in
    let empty : c.has_reader ≡ false = run_events-has_reader before new_connection in
    rw (here, n, empty) refl
