-- ===== src/Server/Session.antt =====
-- The members of a `ServerConnection`, and what the network answers. The classes of Box Backup that
-- it calls are answered by `Net`, by the number of calls made before.
use boxi.Prelude.{Option, none, some, ◌==◌, lit, ℕ, ◌+◌, ◌-◌, Bool, false, Option, if◌then◌else◌}
use boxi.Prelude.Text.{Text}

-- The constants `BackupProtocolError::Err_…` that `ErrorString` knows.
pub data ErrorName : Type 0 where
  wrong_version not_in_right_protocol_phase bad_login cannot_lock_store_for_writing
        session_read_only file_does_not_verify does_not_exist directory_already_exists
        cannot_delete_root target_name_exists storage_limit_exceeded diff_from_file_does_not_exist
        does_not_exist_in_directory patch_consistency_error :
      ErrorName

-- A call returns, or throws a `BoxException`: TLSReadFailed, or another.
pub data Answer : Type 0 where
  returns throws_tls_read_failed throws_other : Answer

-- One value for each of the three.
abbrev pub on_answer {ℓ} : {A : Type ℓ} → Answer → A → A → A → A
on_answer returns a b c = a
on_answer throws_tls_read_failed a b c = b
on_answer throws_other a b c = c

pub record Net : Type 0 where
  pub answer : ℕ → Answer
  -- What `QueryVersion` finds, as call number n.
  pub version : ℕ → ℕ
  -- BACKUP_STORE_SERVER_VERSION
  pub expected_version : ℕ
  -- What `GetLastError` finds, type and subtype, after n calls.
  pub last_error : ℕ → ℕ × ℕ
  -- The constant of `BackupProtocolError` that a subtype is, if it is one.
  pub error_name : ℕ → Option ErrorName

-- The properties of the configuration that are read; no text is an empty one.
pub record Settings : Type 0 where
  pub store_hostname : Text
  pub keys_file : Text
  pub certificate_file : Text
  pub private_key_file : Text
  pub trusted_cas_file : Text
  pub account_number : Option ℕ

-- `mErrorMessage`.
pub data Message : Type 0 where
  no_message no_store_hostname no_keys_file no_certificate_file no_private_key_file
        no_trusted_cas_file something_wrong :
      Message
  wrong_server_version unknown_protocol_error unknown_error : ℕ → ℕ → Message

-- The members; whether `mpSocket` and `mpConnection` are other than NULL; how many objects of the
-- two classes are allocated; how many message boxes were shown, and how many calls made.
pub record Session : Type 0 where
  pub is_connected : Bool
  pub connection_index : ℕ
  pub is_writable : Bool
  pub socket : Bool
  pub protocol : Bool
  pub error_message : Message
  pub live_sockets : ℕ
  pub live_protocols : ℕ
  pub boxes : ℕ
  pub calls : ℕ

-- The constructor.
unfoldable pub new_session : Session
new_session = record {
  is_connected = false;
  connection_index = 0;
  is_writable = false;
  socket = false;
  protocol = false;
  error_message = no_message;
  live_sockets = 0;
  live_protocols = 0;
  boxes = 0;
  calls = 0;
}

abbrev pub called : Session → Session
called s = record s { calls = s.calls + 1 }

-- The two parts of `Disconnect`: exceptions are ignored.
unfoldable pub drop_protocol : Session → Session
drop_protocol s =
    if s.protocol
    then record s { protocol = false; live_protocols = s.live_protocols - 1; calls = s.calls + 1 }
    else s

unfoldable pub drop_socket : Session → Session
drop_socket s =
    if s.socket
    then record s { socket = false; live_sockets = s.live_sockets - 1; calls = s.calls + 1 }
    else s

unfoldable pub disconnect : Session → Session
disconnect s = record (drop_socket (drop_protocol s)) { is_connected = false }

unfoldable pub error_text : ErrorName → Text
error_text wrong_version = lit "Wrong version"
error_text not_in_right_protocol_phase = lit "Wrong protocol phase"
error_text bad_login = lit "Bad login"
error_text cannot_lock_store_for_writing = lit "Cannot lock store for writing"
error_text session_read_only = lit "Session is read-only"
error_text file_does_not_verify = lit "File verification failed"
error_text does_not_exist = lit "Object does not exist"
error_text directory_already_exists = lit "Directory already exists"
error_text cannot_delete_root = lit "Cannot delete root directory"
error_text target_name_exists = lit "Target name exists"
error_text storage_limit_exceeded = lit "Storage limit exceeded"
error_text diff_from_file_does_not_exist = lit "Diff From File does not exist"
error_text does_not_exist_in_directory = lit "Does not exist in directory"
error_text patch_consistency_error = lit "Patch consistency error"

-- A text of its own, or `mErrorMessage`, which `ErrorString` sets then.
pub data ErrorString : Type 0 where
  a_text : Text → ErrorString
  sets : Message → ErrorString

unfoldable pub error_string : Net → ℕ × ℕ → ErrorString
error_string net (type, subtype) =
    let named : ErrorString = elim (net.error_name subtype) [
      | none ↦ sets (unknown_protocol_error type subtype)
      | some e ↦ a_text (error_text e)
    ] in
    if type == 1000 then named else sets (unknown_error type subtype)

abbrev pub message_of : ErrorString → Message → Message
message_of (a_text t) m = m
message_of (sets m') m = m'

-- `mErrorMessage` behind the first part of `HandleException`.
unfoldable pub message_after : Net → Session → Message
message_after net s =
    let (type, subtype) = if s.protocol then net.last_error s.calls else (0, 0) in
    if type == 1000
    then message_of (error_string net (type, subtype)) s.error_message
    else s.error_message

-- `HandleException`; the exception was TLSReadFailed, or another.
unfoldable pub handle_exception : Net → Bool → Session → Session
handle_exception net tls s =
    let shown = record s { error_message = message_after net s; boxes = s.boxes + 1 } in
    if tls then disconnect shown else shown
