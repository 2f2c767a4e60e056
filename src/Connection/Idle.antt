-- ===== src/Connection/Idle.antt =====
-- `DoReadLine` and `OnConnectedIdle` of src/ClientConnection.cc.
use boxi.Prelude.{
  zero, suc, Bool, true, false, not, ◌&&◌, ◌||◌, Option, none, some, List, if◌then◌else◌, lit,
  length, take, drop,
}
use boxi.Prelude.Text.{Text, text_eq}
use boxi.Prelude.Int.{ℤ, pos, negsuc}
use boxi.Connection.State.{
  bst_connecting, bst_connected, bst_start, bst_restarting, Error, err_none, err_badresponse,
  err_readtimeout, err_disconnected, err_cmdfailed, err_interrupted, ClientState, cs_unknown,
  cs_init, cs_idle, cs_connected, cs_error, cs_storelimit, Connection, state_eq,
}
use boxi.Connection.Worker.{Event, run_events, Handled, done, assert_failed, crashed}

-- What `GetLine` of `DoReadLine` does: it throws a BoxException, ends without a line, or leaves one,
-- with which the reader may be at its end.
pub data Reading : Type 0 where
  read_threw timed_out at_eof : Reading
  line : Text → Reading

-- `(ClientState)value`, where the value is within the bounds.
abbrev pub client_state_of : ℤ → Option ClientState
client_state_of (negsuc zero) = some cs_init
client_state_of (negsuc (suc n)) = none
client_state_of (pos zero) = some cs_idle
client_state_of (pos (suc zero)) = some cs_connected
client_state_of (pos (suc (suc zero))) = some cs_error
client_state_of (pos (suc (suc (suc zero)))) = some cs_storelimit
client_state_of (pos (suc (suc (suc (suc n))))) = none

-- The number of an enumerator.
abbrev pub client_state_code : ClientState → ℤ
client_state_code cs_unknown = negsuc 1
client_state_code cs_init = negsuc 0
client_state_code cs_idle = pos 0
client_state_code cs_connected = pos 1
client_state_code cs_error = pos 2
client_state_code cs_storelimit = pos 3

-- `line2.StartsWith("state ", &rest)`: the rest.
unfoldable pub after_prefix : Text → Text → Option Text
after_prefix prefix text =
    if text_eq (take (length prefix) text) prefix then some (drop (length prefix) text) else none

-- What the number behind "state " gives.
abbrev pub on_number : Option ℤ → Connection → Error × Connection
on_number none c = (err_badresponse, c)
on_number (some value) c = elim (client_state_of value) [
  | some s ↦ (err_none, record c { client_state = s })
  | none ↦ (err_badresponse, record c { client_state = cs_unknown })
]

abbrev pub is_disconnected : Error → Bool
is_disconnected err_disconnected = true
is_disconnected _ = false

abbrev pub reported_error : Error → Error
reported_error err_readtimeout = err_none
reported_error e = e

-- The last section, where the client has hung up.
unfoldable pub on_hang_up : Connection → Connection
on_hang_up c =
    if state_eq c.current_state bst_connected
    then record c {
      client_state = cs_unknown;
      current_state = bst_connecting;
      last_error = err_disconnected;
    }
    else record c { client_state = cs_unknown; current_state = bst_start; last_error = err_none }

-- The last section of `OnConnectedIdle`.
unfoldable pub after_read_line : Error → Connection → Connection
after_read_line result c =
    if not (state_eq c.current_state bst_connected) && not (state_eq c.current_state bst_restarting)
    then record c { last_error = err_interrupted }
    else if is_disconnected result
    then on_hang_up c
    else record c { last_error = reported_error result }

module _ (to_long : Text → Option ℤ) where
  -- A line that was read. `to_long` is `wxString::ToLong`.
  unfoldable pub on_line : Text → Connection → Error × Connection
  on_line text c =
      if text_eq text (lit "ok")
      then (err_none, c)
      else if text_eq text (lit "error")
      then (err_cmdfailed, c)
      else elim (after_prefix (lit "state ") text) [
        | some rest ↦ on_number (to_long rest) c
        | none ↦ (err_none, c)
      ]

  unfoldable pub do_read_line : Reading → Connection → Error × Connection
  do_read_line read_threw c = (err_disconnected, c)
  do_read_line timed_out c = (err_readtimeout, c)
  do_read_line at_eof c = (err_disconnected, c)
  do_read_line (line text) c = on_line text c

  -- `OnConnectedIdle`, with what happens while the line is waited for.
  unfoldable pub on_connected_idle : Reading → List Event → Connection → Handled
  on_connected_idle reading es c =
      let read = do_read_line reading (run_events es c) in
      let after = if c.has_reader then done (after_read_line read.0 read.1) else crashed in
      if state_eq c.current_state bst_connected || state_eq c.current_state bst_restarting
      then after
      else assert_failed
