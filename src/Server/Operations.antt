-- ===== src/Server/Operations.antt =====
-- The operations on the store server, of src/ServerConnection.cc.
use boxi.Prelude.{ℕ, zero, suc, Bool, true, false, not, List, [], ◌∷◌, if◌then◌else◌}
use boxi.Server.Session.{on_answer, Net, Settings, Session, called, disconnect, handle_exception}
use boxi.Server.Connecting.{connect}

pub data Operation : Type 0 where
  get_file list_directory get_account_usage undelete_directory delete_directory : Operation

-- The argument of `Connect`.
unfoldable pub wants_to_write : Operation → Bool
wants_to_write get_file = false
wants_to_write list_directory = false
wants_to_write get_account_usage = false
wants_to_write undelete_directory = true
wants_to_write delete_directory = true

-- How many calls there are in the `try`: the query, and for two of them the stream and its reading.
unfoldable pub calls_of : Operation → ℕ
calls_of get_file = 3
calls_of list_directory = 3
calls_of get_account_usage = 1
calls_of undelete_directory = 1
calls_of delete_directory = 1

-- It returned true, or a value, or false, or none; or it followed NULL.
pub data Result : Type 0 where
  succeeded gave_up crashed : Result

-- The `try` and its `catch`; each call goes by `mpConnection`.
unfoldable pub try_calls : Net → ℕ → Session → Session × Result
try_calls net zero s = (s, succeeded)
try_calls net (suc n) s =
    let rest = try_calls net n (called s) in
    if not s.protocol
    then (s, crashed)
    else on_answer (net.answer s.calls) rest (handle_exception net true (called s), gave_up)
        (handle_exception net false (called s), gave_up)

unfoldable pub perform : Net → Settings → Operation → Session → Session × Result
perform net c op s =
    let (s', ok) = connect net c (wants_to_write op) s in
    if ok then try_calls net (calls_of op) s' else (s', gave_up)

-- What is done with the object from outside.
pub data Event : Type 0 where
  connects : Bool → Event
  disconnects : Event
  performs : Operation → Event
  -- `ErrorString()`, and a `Restore` that comes to its directory, with the calls that it makes by
  -- `mpConnection`: they do not connect first.
  asks_error : Event
  restores : ℕ → Event

-- The calls of a `Restore`, which catches nothing.
unfoldable pub restore_calls : Net → ℕ → Session → Session × Result
restore_calls net zero s = (s, succeeded)
restore_calls net (suc n) s =
    let rest = restore_calls net n (called s) in
    on_answer (net.answer s.calls) rest (called s, gave_up) (called s, gave_up)

unfoldable pub step : Net → Settings → Event → Session → Session × Result
step net c (connects writable) s =
    let (s', ok) = connect net c writable s in (s', if ok then succeeded else gave_up)
step net c disconnects s = (disconnect s, succeeded)
step net c (performs op) s = perform net c op s
step net c asks_error s = if s.protocol then (s, succeeded) else (s, crashed)
step net c (restores n) s = if s.protocol then restore_calls net n s else (s, crashed)

-- Events one after the other, up to a crash.
abbrev pub and_run : Session × Result → (Session → Session × Result) → Session × Result
and_run (s, succeeded) go = go s
and_run (s, gave_up) go = go s
and_run (s, crashed) go = (s, crashed)

unfoldable pub run : Net → Settings → List Event → Session → Session × Result
run net c [] s = (s, succeeded)
run net c (e ∷ es) s = and_run (step net c e s) (run net c es)
