-- ===== src/Connection/Commands.antt =====
-- The commands to the client: what the handlers and the requests for them promise.
use mathlib.Core.List.{Memᴰ}
use boxi.Prelude.{
  ℕ, suc, ◌≡◌, refl, ap, sym, ◌∙◌, true, false, List, [], ◌∷◌, if◌then◌else◌, arith, Bool-cases,
  ◌⊎◌, inl, inr,
}
use boxi.Connection.State.{
  WorkerState, bst_connecting, bst_connected, bst_start, bst_stop, bst_stopping, bst_restart,
  bst_sync, bst_syncing, bst_reload, bst_reloading, err_none, Connection, state_eq, state_eq_sound,
  state_eq_refl, set_worker_state, start_client, stop_client, restart_client, sync_client,
  reload_client,
}
use boxi.Connection.Worker.{
  Request, start, stop, restart, sync, reload, make_request, Event, requested, on_event, run_events,
  Handled, done, threw, was_sent, send_threw, after_send, send_command, on_stop_client,
  on_sync_client, on_reload_client,
}
use boxi.Connection.Interleaving.{is_busy, request-busy, run_events-busy, send_command_lem}

-- The handler of a command got through: it is connected again, with no error.
abbrev pub GetsThrough : Handled → Type 0
GetsThrough h =
    (c : Connection) × (h ≡ done c) × (c.current_state ≡ bst_connected) × (c.last_error ≡ err_none)

-- Whatever other threads request, kill, poll or report while the command is written, the handler of a stop, a sync or a reload that was asked for fails no assertion, and ends connected and without an error.
commands_get_through :
    (es : List Event) (c : Connection)
    → (c.current_state ≡ bst_stop → GetsThrough (on_stop_client was_sent es c))
      × (c.current_state ≡ bst_sync → GetsThrough (on_sync_client was_sent es c))
      × (c.current_state ≡ bst_reload → GetsThrough (on_reload_client was_sent es c))
unfolding on_stop_client on_sync_client on_reload_client
commands_get_through es c = (
  λ h. send_command_lem bst_stop bst_stopping es c h refl,
  λ h. send_command_lem bst_sync bst_syncing es c h refl,
  λ h. send_command_lem bst_reload bst_reloading es c h refl,
)

-- Left in a state of its own, for good.
abbrev pub StuckIn : WorkerState → Handled → Type 0
StuckIn s h =
    (c : Connection) × (h ≡ threw c)
    × ((es : List Event) → (run_events es c).current_state ≡ s)
    × ((r : Request) → (make_request r c).1 ≡ false)

refused_busy :
    (r : Request) (c : Connection) → is_busy c.current_state ≡ true → (make_request r c).1 ≡ false
unfolding make_request start_client stop_client restart_client sync_client reload_client
    set_worker_state
refused_busy start c h =
    let b : state_eq c.current_state bst_connecting ≡ false = ground arith in rw b refl
refused_busy stop c h =
    let b : state_eq c.current_state bst_connected ≡ false = ground arith in rw b refl
refused_busy restart c h =
    let b : state_eq c.current_state bst_connected ≡ false = ground arith in rw b refl
refused_busy sync c h =
    let b : state_eq c.current_state bst_connected ≡ false = ground arith in rw b refl
refused_busy reload c h =
    let b : state_eq c.current_state bst_connected ≡ false = ground arith in rw b refl

send_throws_lem :
    (asked doing : WorkerState) (es : List Event) (c : Connection)
    → c.current_state ≡ asked
    → is_busy doing ≡ true
    → StuckIn doing (send_command asked doing send_threw es c)
unfolding send_command after_send
send_throws_lem asked doing es c h b =
    let c1 = run_events es (record c { current_state = doing }) in
    let here : state_eq c.current_state asked ≡ true =
      ap (λ s. state_eq s asked) h ∙ state_eq_refl asked in
    let still : c1.current_state ≡ doing =
      run_events-busy es (record c { current_state = doing }) b in
    let busy : is_busy c1.current_state ≡ true = ap is_busy still ∙ b in
    (c1, rw here refl, λ es'. run_events-busy es' c1 busy ∙ still, λ r. refused_busy r c1 busy)

-- Where the write of a command throws, the handler leaves the state at STOPPING, SYNCING or RELOADING, which nothing but a handler changes again, and in which every request is refused.
failed_send_stuck :
    (es : List Event) (c : Connection)
    → (c.current_state ≡ bst_stop → StuckIn bst_stopping (on_stop_client send_threw es c))
      × (c.current_state ≡ bst_sync → StuckIn bst_syncing (on_sync_client send_threw es c))
      × (c.current_state ≡ bst_reload → StuckIn bst_reloading (on_reload_client send_threw es c))
unfolding on_stop_client on_sync_client on_reload_client
failed_send_stuck es c = (
  λ h. send_throws_lem bst_stop bst_stopping es c h refl,
  λ h. send_throws_lem bst_sync bst_syncing es c h refl,
  λ h. send_throws_lem bst_reload bst_reloading es c h refl,
)

-- How many requests of a sequence are accepted, one after the other.
abbrev pub accepted : List Request → Connection → ℕ
accepted [] c = 0
accepted (r ∷ rs) c =
    let later = accepted rs (make_request r c).0 in
    if (make_request r c).1 then suc later else later

abbrev pub requests : List Request → List Event
requests [] = []
requests (r ∷ rs) = requested r ∷ requests rs

accepted-busy :
    (rs : List Request) (c : Connection) → is_busy c.current_state ≡ true → accepted rs c ≡ 0
accepted-busy [] c h = refl
accepted-busy (r ∷ rs) c h =
    let no : (make_request r c).1 ≡ false = refused_busy r c h in
    rw no (accepted-busy rs (make_request r c).0 (ap is_busy (request-busy r c h) ∙ h))

set_worker_state-cases :
    (old new : WorkerState) (c : Connection)
    → (((set_worker_state old new c).1 ≡ true)
        × (c.current_state ≡ old)
        × ((set_worker_state old new c).0.current_state ≡ new))
      ⊎ (((set_worker_state old new c).1 ≡ false)
          × ((set_worker_state old new c).0.current_state ≡ c.current_state))
unfolding set_worker_state
set_worker_state-cases old new c = elim (Bool-cases (state_eq c.current_state old)) [
  | inl e ↦ rw e (inl (refl, state_eq_sound c.current_state old e, refl))
  | inr e ↦ rw e (inr (refl, refl))
]

-- The state in which a request is accepted, and the one that its handler works on.
abbrev pub asked_in : Request → WorkerState
asked_in start = bst_connecting
asked_in stop = bst_connected
asked_in restart = bst_connected
asked_in sync = bst_connected
asked_in reload = bst_connected

abbrev pub asked_for : Request → WorkerState
asked_for start = bst_start
asked_for stop = bst_stop
asked_for restart = bst_restart
asked_for sync = bst_sync
asked_for reload = bst_reload

asked_for-busy : (r : Request) → is_busy (asked_for r) ≡ true
asked_for-busy start = refl
asked_for-busy stop = refl
asked_for-busy restart = refl
asked_for-busy sync = refl
asked_for-busy reload = refl

-- An accepted request leads from the one to the other, and a refused one leaves the state as it is.
request-cases :
    (r : Request) (c : Connection)
    → (((make_request r c).1 ≡ true)
        × (c.current_state ≡ asked_in r)
        × ((make_request r c).0.current_state ≡ asked_for r))
      ⊎ (((make_request r c).1 ≡ false) × ((make_request r c).0.current_state ≡ c.current_state))
unfolding make_request start_client stop_client restart_client sync_client reload_client
request-cases start c = set_worker_state-cases bst_connecting bst_start c
request-cases stop c = set_worker_state-cases bst_connected bst_stop c
request-cases restart c = set_worker_state-cases bst_connected bst_restart c
request-cases sync c = set_worker_state-cases bst_connected bst_sync c
request-cases reload c = set_worker_state-cases bst_connected bst_reload c

-- Of a sequence of requests, in any state and in any order, with no handler in between, at most one is accepted; where one is, it is one of the sequence that is for the state before, and the state is the one that its handler works on; where none is, the state is as it was.
pub requests_exclusive :
    (rs : List Request) (c : Connection)
    → ((accepted rs c ≡ 0) × ((run_events (requests rs) c).current_state ≡ c.current_state))
      ⊎ ((accepted rs c ≡ 1)
          × ((r : Request) × Memᴰ r rs
              × (c.current_state ≡ asked_in r)
              × ((run_events (requests rs) c).current_state ≡ asked_for r)))
unfolding run_events on_event
requests_exclusive [] c = inl (refl, refl)
requests_exclusive (r ∷ rs) c = elim (request-cases r c) [
  | inl (took, was, now) ↦
      let after = (make_request r c).0 in
      let b : is_busy after.current_state ≡ true = ap is_busy now ∙ asked_for-busy r in
      inr (
        rw took (ap suc (accepted-busy rs after b)),
        (r, Memᴰ.head refl, was, run_events-busy (requests rs) after b ∙ now),
      )
  | inr (refused, same) ↦ elim (requests_exclusive rs (make_request r c).0) [
    | inl (n, s) ↦ inl (rw refused n, s ∙ same)
    | inr (n, (r', m, was, now)) ↦ inr (rw refused n, (r', Memᴰ.tail m, sym same ∙ was, now))
  ]
]
