-- ===== src/Connection/Pid.antt =====
-- The client's process ID: `GetClientPidFast`, `GetClientPidSlow` and `KillClient` of
-- src/ClientConnection.cc.
use boxi.Prelude.{◌-◌, ◌%◌, ◌^◌, Bool, true, false, not, Option, none, some, ltb, if◌then◌else◌}
use boxi.Prelude.Text.{Text}
use boxi.Prelude.Int.{ℤ, pos, negsuc, int_eq}
use boxi.Connection.State.{
  Error, err_none, err_unknown, err_nopidconfig, err_filenotfound, err_accessdenied, err_pidformat,
  err_processnotfound, err_internal, Connection,
}

-- `wxKillError`.
pub data KillError : Type 0 where
  kill_ok kill_bad_signal kill_access_denied kill_no_process kill_error : KillError

-- The PID file, as the calls of wxWidgets find it.
pub data PidFile : Type 0 where
  -- `PidFile.GetInto` fails; `FileExists` does; it does not open; fewer bytes are read than it is
  -- long; or the bytes were read.
  not_configured not_found not_opened short_read : PidFile
  contents : Text → PidFile

-- The C library and the system.
pub record System : Type 0 where
  -- `strtol(buffer, &endptr, 10)`, a `long`.
  pub strtol10 : Text → ℤ
  -- `wxProcess::Kill(pid, wxSIGNONE)`, whose first parameter is an `int`.
  pub probe : ℤ → KillError

-- `long` or `unsigned long` to `int`: the low 32 bits, signed.
unfoldable pub int_of_long : ℤ → ℤ
int_of_long (pos n) =
    let low = n % 2 ^ 32 in if ltb low (2 ^ 31) then pos low else negsuc (2 ^ 32 - low - 1)
int_of_long (negsuc n) =
    let low = n % 2 ^ 32 in if ltb low (2 ^ 31) then negsuc low else pos (2 ^ 32 - low - 1)

abbrev pub is_positive : ℤ → Bool
is_positive (pos n) = ltb 0 n
is_positive (negsuc n) = false

-- What `_GetClientPidSlow` returns, and what it leaves in its parameter, if it writes it.
abbrev pub on_probe : ℤ → KillError → Error × Option ℤ
on_probe pid kill_ok = (err_none, some pid)
on_probe pid kill_bad_signal = (err_internal, none)
on_probe pid kill_access_denied = (err_accessdenied, some pid)
on_probe pid kill_no_process = (err_processnotfound, none)
on_probe pid kill_error = (err_unknown, none)

module _ (y : System) where
  unfoldable pub read_client_pid : PidFile → Error × Option ℤ
  read_client_pid not_configured = (err_nopidconfig, none)
  read_client_pid not_found = (err_filenotfound, none)
  read_client_pid not_opened = (err_accessdenied, none)
  read_client_pid short_read = (err_pidformat, none)
  read_client_pid (contents text) =
      if not (is_positive (y.strtol10 text))
      then (err_pidformat, none)
      else on_probe (y.strtol10 text) (y.probe (int_of_long (y.strtol10 text)))

  abbrev pub pid_after : Error × Option ℤ → ℤ
  pid_after (err_none, some pid) = int_of_long pid
  pid_after _ = negsuc 0

  unfoldable pub get_client_pid_slow : PidFile → Connection → Connection × Error
  get_client_pid_slow f c =
      let result = read_client_pid f in (record c { client_pid = pid_after result }, result.0)

-- `KillClient`: the PID that is signalled, if one is, and what it returns. `kill` is
-- `wxProcess::Kill(pid, wxSIGTERM)`.
abbrev pub kill_result : KillError → Connection → Connection × Bool
kill_result kill_ok c = (c, true)
kill_result kill_bad_signal c = (record c { last_error = err_internal }, false)
kill_result kill_access_denied c = (record c { last_error = err_accessdenied }, false)
kill_result kill_no_process c = (record c { last_error = err_processnotfound }, false)
kill_result kill_error c = (record c { last_error = err_unknown }, false)

-- `KillClient` as one step: it reads the PID and writes `mLastError` without the mutex.
unfoldable pub kill_client : (ℤ → KillError) → Connection → Connection × Bool × Option ℤ
kill_client kill c =
    let signalled = kill_result (kill c.client_pid) c in
    if int_eq c.client_pid (negsuc 0)
    then (record c { last_error = err_processnotfound }, false, none)
    else (signalled.0, signalled.1, some c.client_pid)
