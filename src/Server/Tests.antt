-- ===== src/Server/Tests.antt =====
-- The connection to the store server at concrete inputs.
use boxi.Prelude.{
  ◌+◌, ◌%◌, ◌≡◌, refl, inl, true, false, not, ◌&&◌, ◌==◌, none, some, List, [], ◌∷◌, if◌then◌else◌,
  lit,
}
use boxi.Server.Session.{
  bad_login, returns, throws_tls_read_failed, throws_other, Net, Settings, no_message, Session,
  new_session,
}
use boxi.Server.Connecting.{bool_eq}
use boxi.Server.Operations.{
  get_file, list_directory, delete_directory, Event, connects, disconnects, performs, asks_error,
  step, wants_to_write, succeeded, crashed, perform, run,
}
use boxi.Server.Safe.{is_crash, guarded, Sound, run_safe}
use boxi.Server.Recovers.{Configured, perform_recovers}
use boxi.Server.Leaks.{attempts, connect_leaks}

-- Every ninth call fails to read, and every fifth otherwise.
abbrev bad_net : Net
bad_net = record {
  answer = λ n.
      if n % 9 == 8 then throws_tls_read_failed else if n % 5 == 4 then throws_other else returns;
  version = λ n. 1;
  expected_version = 1;
  last_error = λ n. (1000, n % 20);
  error_name = λ n. if n == 3 then some bad_login else none;
}

abbrev good_net : Net
good_net = record {
  answer = λ n. returns;
  version = λ n. 1;
  expected_version = 1;
  last_error = λ n. (0, 0);
  error_name = λ n. none;
}

abbrev settings : Settings
settings = record {
  store_hostname = lit "store";
  keys_file = lit "keys";
  certificate_file = lit "cert";
  private_key_file = lit "key";
  trusted_cas_file = lit "cas";
  account_number = some 7;
}

abbrev without_account : Settings
without_account = record settings { account_number = none }

settings-Configured : Configured settings
settings-Configured = record {
  store_hostname = refl;
  keys_file = refl;
  certificate_file = refl;
  private_key_file = refl;
  trusted_cas_file = refl;
}

without_account-Configured : Configured without_account
without_account-Configured = record {
  store_hostname = refl;
  keys_file = refl;
  certificate_file = refl;
  private_key_file = refl;
  trusted_cas_file = refl;
}

abbrev events : List Event
events =
    performs list_directory
    ∷ performs get_file
    ∷ connects true
    ∷ performs delete_directory
    ∷ disconnects
    ∷ performs get_file
    ∷ []

run_safe_example :
    (is_crash (run bad_net settings events new_session).1
      ≡ not (guarded bad_net settings events new_session))
    × Sound (run bad_net settings events new_session).0
run_safe_example = run_safe bad_net settings events

-- A new object that is asked for its error first.
asked_at_once : (run bad_net settings (asks_error ∷ []) new_session).1 ≡ crashed
unfolding run step new_session
asked_at_once = refl

-- After an attempt that failed.
abbrev left_over : Session
left_over = record {
  is_connected = false;
  connection_index = 3;
  is_writable = false;
  socket = true;
  protocol = false;
  error_message = no_message;
  live_sockets = 2;
  live_protocols = 1;
  boxes = 1;
  calls = 20;
}

perform_recovers_example :
    ((perform good_net settings get_file left_over).1 ≡ succeeded)
    × ((perform good_net settings get_file left_over).0.is_connected ≡ true)
    × ((perform good_net settings get_file left_over).0.is_writable ≡ wants_to_write get_file)
    × ((perform good_net settings get_file left_over).0.connection_index ≡ (
        if left_over.is_connected && bool_eq left_over.is_writable (wants_to_write get_file)
        then left_over.connection_index
        else left_over.connection_index + 1))
perform_recovers_example =
    perform_recovers good_net settings get_file left_over (λ n l. (refl, refl)) settings-Configured
      7 refl (inl refl)

connect_leaks_example :
    ((run good_net without_account (attempts 3 false) new_session).0.is_connected ≡ false)
    × ((run good_net without_account (attempts 3 false) new_session).0.live_sockets ≡ 3)
    × ((run good_net without_account (attempts 3 false) new_session).0.live_protocols ≡ 3)
connect_leaks_example =
    connect_leaks good_net without_account 3 false (λ n l. (refl, refl)) without_account-Configured
      refl
