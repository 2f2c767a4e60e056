-- ===== src/Server/Connecting.antt =====
-- Connecting to the store server: `InitTlsContext`, `Connect2` and `Connect` of
-- src/ServerConnection.cc.
use boxi.Prelude.{◌+◌, Bool, true, false, not, ◌&&◌, none, some, [], ◌∷◌, if◌then◌else◌, ◌==◌}
use boxi.Prelude.Text.{Text}
use boxi.Server.Session.{
  on_answer, Net, Settings, Message, no_store_hostname, no_keys_file, no_certificate_file,
  no_private_key_file, no_trusted_cas_file, something_wrong, wrong_server_version, Session, called,
  disconnect, handle_exception,
}

-- `Connect2` returned true or false, or threw, TLSReadFailed or another.
pub data Attempt : Type 0 where
  connected not_connected : Attempt
  failed : Bool → Attempt

abbrev says : Message → Session → Session × Attempt
says m s = (record s { error_message = m }, not_connected)

abbrev pub is_empty : Text → Bool
is_empty [] = true
is_empty (x ∷ xs) = false

-- The tests of `InitTlsContext`, in order, then `Initialise`; its result is the third argument's
-- where it returns true.
unfoldable pub init_tls_context :
    Net → Settings → (Session → Session × Attempt) → Session → Session × Attempt
init_tls_context net c go s =
    let next = go (called s) in
    let wrong = says something_wrong (called s) in
    let initialised = on_answer (net.answer s.calls) next wrong wrong in
    if is_empty c.certificate_file
    then says no_certificate_file s
    else if is_empty c.private_key_file
    then says no_private_key_file s
    else if is_empty c.trusted_cas_file
    then says no_trusted_cas_file s
    else initialised

-- A call, and what follows it where it returns.
unfoldable pub calling : Net → (Session → Session × Attempt) → Session → Session × Attempt
calling net go s =
    let next = go (called s) in
    on_answer (net.answer s.calls) next (called s, failed true) (called s, failed false)

-- From `QueryLogin`.
unfoldable pub log_in : Net → Settings → Session → Session × Attempt
log_in net c s = elim c.account_number [
  | none ↦ (s, not_connected)
  | some n ↦ calling net (λ s'. (s', connected)) s
]

-- From the test of the version, which is that of the call before.
unfoldable pub check_version : Net → Settings → Session → Session × Attempt
check_version net c s =
    let found = net.version s.calls in
    if found == net.expected_version
    then log_in net c s
    else says (wrong_server_version net.expected_version found) s

-- From `new BackupProtocolClient`.
unfoldable pub make_protocol : Net → Settings → Session → Session × Attempt
make_protocol net c s =
    calling net (calling net (check_version net c))
      (record s { protocol = true; live_protocols = s.live_protocols + 1 })

-- From `new SocketStreamTLS`.
unfoldable pub open_socket : Net → Settings → Session → Session × Attempt
open_socket net c s =
    calling net (make_protocol net c)
      (record s { socket = true; live_sockets = s.live_sockets + 1 })

unfoldable pub connect2 : Net → Settings → Session → Session × Attempt
connect2 net c s =
    if is_empty c.store_hostname
    then says no_store_hostname s
    else if is_empty c.keys_file
    then says no_keys_file s
    else init_tls_context net c (calling net (open_socket net c)) s

-- What `Connect` makes of the attempt.
unfoldable pub after_attempt : Net → Bool → Session × Attempt → Session × Bool
after_attempt net writable (s, connected) = (
  record s {
    is_connected = true;
    is_writable = writable;
    connection_index = s.connection_index + 1;
  },
  true,
)
after_attempt net writable (s, not_connected) =
    (record s { is_connected = false; is_writable = false }, false)
after_attempt net writable (s, failed tls) = (handle_exception net tls s, false)

abbrev pub bool_eq : Bool → Bool → Bool
bool_eq true b = b
bool_eq false b = not b

unfoldable pub connect : Net → Settings → Bool → Session → Session × Bool
connect net c writable s =
    let attempt =
      after_attempt net writable (connect2 net c (if s.is_connected then disconnect s else s)) in
    if s.is_connected && bool_eq s.is_writable writable then (s, true) else attempt
