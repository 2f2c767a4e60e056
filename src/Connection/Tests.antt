-- ===== src/Connection/Tests.antt =====
-- The connection at concrete inputs.
use mathlib.Core.List.{Memᴰ}
use boxi.Prelude.{
  ℕ, ◌*◌, ◌^◌, ◌<◌, ◌≡◌, refl, ap, true, false, none, some, List, [], ◌∷◌, ◌⊎◌, arith, lit,
}
use boxi.Prelude.Int.{ℤ, pos, negsuc}
use boxi.Connection.State.{WorkerState, bst_connected, cs_idle, Connection, new_connection}
use boxi.Connection.Pid.{
  kill_ok, kill_no_process, PidFile, contents, System, get_client_pid_slow, kill_client,
}
use boxi.Connection.Worker.{
  Request, start, stop, sync, Event, requested, killed, polled, terminated, run_events, crashed,
  Net, on_connect,
}
use boxi.Connection.Commands.{accepted, asked_in, asked_for, requests, requests_exclusive}
use boxi.Connection.Killing.{Holds, kill_client-get_client_pid_slow, kill_client_own_group}
use boxi.Connection.FirstConnect.{first_connect_crashes}

-- A process runs under every PID; `strtol` of any text is 4711, or 2^32 where the text says so.
abbrev host : System
host = record { strtol10 = λ t. pos 4711; probe = λ z. kill_ok }

abbrev odd_host : System
odd_host = record { strtol10 = λ t. pos (1 * 2 ^ 32); probe = λ z. kill_ok }

abbrev meddling : List Event
meddling =
    requested start
    ∷ requested sync
    ∷ killed (λ z. kill_no_process)
    ∷ polled host (contents (lit "4711"))
    ∷ terminated 3 false
    ∷ []

abbrev in_state : WorkerState → Connection
in_state s = record new_connection {
  current_state = s;
  client_state = cs_idle;
  has_reader = true;
  process = some 3;
}

abbrev three_requests : List Request
three_requests = start ∷ sync ∷ stop ∷ []

requests_exclusive_example :
    ((accepted three_requests (in_state bst_connected) ≡ 0)
      × ((run_events (requests three_requests) (in_state bst_connected)).current_state
          ≡ bst_connected))
    ⊎ ((accepted three_requests (in_state bst_connected) ≡ 1)
        × ((r : Request) × Memᴰ r three_requests
            × (bst_connected ≡ asked_in r)
            × ((run_events (requests three_requests) (in_state bst_connected)).current_state
                ≡ asked_for r)))
requests_exclusive_example = requests_exclusive three_requests (in_state bst_connected)

abbrev value : ℤ → ℕ
value (pos n) = n
value (negsuc n) = 0

host-Holds : (f : PidFile) (n : ℕ) → Holds host f n → n < 2 ^ 31
host-Holds f n (text, e, s, p, k) = let same : 4711 ≡ n = ap value s in omega arith

kill_client-get_client_pid_slow_example :
    let signalled =
      (kill_client
        (λ z. kill_ok)
        (get_client_pid_slow host (contents (lit "4711")) new_connection).0).2 in
    (signalled ≡ none)
    ⊎ ((n : ℕ) × Holds host (contents (lit "4711")) n
        × (kill_ok ≡ kill_ok)
        × (signalled ≡ some (pos n)))
kill_client-get_client_pid_slow_example =
    kill_client-get_client_pid_slow host (contents (lit "4711")) (λ z. kill_ok) new_connection
      (host-Holds (contents (lit "4711")))

kill_client_own_group_example :
    (kill_client
      (λ z. kill_ok)
      (get_client_pid_slow odd_host (contents (lit "4294967296")) new_connection).0).2
    ≡ some (pos 0)
kill_client_own_group_example =
    kill_client_own_group odd_host (lit "4294967296") 1 (λ z. kill_ok) new_connection refl
      (omega arith) refl

abbrev good_net : Net
good_net = record { configured = true; opens = true; reads_line = true; is_eof = false }

abbrev only_stop : List Event
only_stop = requested stop ∷ []

first_connect_crashes_example :
    on_connect good_net only_stop [] [] (run_events only_stop new_connection) ≡ crashed
first_connect_crashes_example = first_connect_crashes good_net only_stop [] [] only_stop refl refl
