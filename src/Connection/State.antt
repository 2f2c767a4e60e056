-- ===== src/Connection/State.antt =====
-- The states and errors of `ClientConnection`, its fields, and the requests of the window:
-- include/ClientConnection.h and src/ClientConnection.cc. A function that holds the mutex to its
-- end is one step on the fields.
use boxi.Prelude.{
  ℕ, ◌≡◌, refl, ap, sym, ◌∙◌, Bool, true, false, not, ◌&&◌, Option, none, some, List, [], ◌∷◌, ◌==◌,
  if◌then◌else◌, get_elem?, arith,
}
use boxi.Prelude.Int.{ℤ, negsuc}

pub data WorkerState : Type 0 where
  bst_unknown bst_connecting bst_connected bst_start bst_starting bst_startwait bst_stop
        bst_stopping bst_restart bst_restarting bst_sync bst_syncing bst_reload bst_reloading
        bst_shutdown :
      WorkerState

pub data Error : Type 0 where
  err_none err_unknown err_inprogress err_started err_connected err_invalid_state err_nosocketconfig
        err_socketnotfound err_socketrefused err_noresponse err_badresponse err_readtimeout
        err_disconnected err_fileunknown err_filenotfound err_execfailed err_startfailed
        err_nopidconfig err_pidformat err_resources err_processnotfound err_internal
        err_accessdenied err_cmdfailed err_interrupted :
      Error

pub data ClientState : Type 0 where
  cs_unknown cs_init cs_idle cs_connected cs_error cs_storelimit : ClientState

-- The enumerators in the order in which the header lists them.
abbrev pub worker_states : List WorkerState
worker_states =
    bst_unknown ∷ bst_connecting ∷ bst_connected ∷ bst_start ∷ bst_starting ∷ bst_startwait
    ∷ bst_stop ∷ bst_stopping ∷ bst_restart ∷ bst_restarting ∷ bst_sync ∷ bst_syncing ∷ bst_reload
    ∷ bst_reloading ∷ bst_shutdown ∷ []

-- The number of an enumerator.
abbrev pub state_code : WorkerState → ℕ
state_code bst_unknown = 0
state_code bst_connecting = 1
state_code bst_connected = 2
state_code bst_start = 3
state_code bst_starting = 4
state_code bst_startwait = 5
state_code bst_stop = 6
state_code bst_stopping = 7
state_code bst_restart = 8
state_code bst_restarting = 9
state_code bst_sync = 10
state_code bst_syncing = 11
state_code bst_reload = 12
state_code bst_reloading = 13
state_code bst_shutdown = 14

abbrev pub state_eq : WorkerState → WorkerState → Bool
state_eq s t = state_code s == state_code t

state_of_code : (s : WorkerState) → get_elem? worker_states (state_code s) ≡ some s
state_of_code bst_unknown = refl
state_of_code bst_connecting = refl
state_of_code bst_connected = refl
state_of_code bst_start = refl
state_of_code bst_starting = refl
state_of_code bst_startwait = refl
state_of_code bst_stop = refl
state_of_code bst_stopping = refl
state_of_code bst_restart = refl
state_of_code bst_restarting = refl
state_of_code bst_sync = refl
state_of_code bst_syncing = refl
state_of_code bst_reload = refl
state_of_code bst_reloading = refl
state_of_code bst_shutdown = refl

pub state_eq_sound : (s t : WorkerState) → state_eq s t ≡ true → s ≡ t
state_eq_sound s t h =
    let same : state_code s ≡ state_code t = ground arith in
    let both : some s ≡ some t =
      sym (state_of_code s) ∙ ap (λ n. get_elem? worker_states n) same ∙ state_of_code t in
    cc

pub state_eq_refl : (s : WorkerState) → state_eq s s ≡ true
state_eq_refl s = ground arith

-- The fields. `mClientPid` is an `int`, -1 where the PID is not known.
pub record Connection : Type 0 where
  pub current_state : WorkerState
  pub client_state : ClientState
  pub last_error : Error
  pub client_pid : ℤ
  -- Does `mapReader` hold a reader? `mpSocket` points to its stream.
  pub has_reader : Bool
  -- `mapBackupClientProcess`, the process that was started last, by its number.
  pub process : Option ℕ

-- The constructor.
abbrev pub new_connection : Connection
new_connection = record {
  current_state = bst_connecting;
  client_state = cs_unknown;
  last_error = err_none;
  client_pid = negsuc 0;
  has_reader = false;
  process = none;
}

unfoldable pub set_worker_state : WorkerState → WorkerState → Connection → Connection × Bool
set_worker_state old_state new_state c =
    if not (state_eq c.current_state old_state)
    then (record c { last_error = err_invalid_state }, false)
    else (record c { current_state = new_state }, true)

unfoldable pub start_client : Connection → Connection × Bool
start_client = set_worker_state bst_connecting bst_start

unfoldable pub stop_client : Connection → Connection × Bool
stop_client = set_worker_state bst_connected bst_stop

unfoldable pub restart_client : Connection → Connection × Bool
restart_client = set_worker_state bst_connected bst_restart

unfoldable pub sync_client : Connection → Connection × Bool
sync_client = set_worker_state bst_connected bst_sync

unfoldable pub reload_client : Connection → Connection × Bool
reload_client = set_worker_state bst_connected bst_reload

abbrev same_process : Option ℕ → ℕ → Bool
same_process none p = false
same_process (some q) p = q == p

-- `OnClientTerminate`, with the process and whether its status is zero.
unfoldable pub on_client_terminate : ℕ → Bool → Connection → Connection
on_client_terminate p success c =
    let released = record c { process = if same_process c.process p then none else c.process } in
    let state = if state_eq c.current_state bst_restarting then bst_start else bst_connecting in
    if not (state_eq c.current_state bst_startwait)
      && (not (state_eq c.current_state bst_connecting)
          && not (state_eq c.current_state bst_restarting))
    then released
    else record released {
      current_state = state;
      last_error = if success then c.last_error else err_startfailed;
    }
