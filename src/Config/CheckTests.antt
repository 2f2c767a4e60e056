-- ===== src/Config/CheckTests.antt =====
-- The tests of the configuration at concrete inputs.
use boxi.Prelude.{Bool, true, false, none, some, [], ◌∷◌, if◌then◌else◌, lit, text_eq}
use boxi.Prelude.Int.{pos}
use boxi.Prelude.Text.{Text}
use boxi.Property.{Property}
use boxi.Config.Props.{Props}
use boxi.Config.Checks.{Disk}
use boxi.Config.Certificates.{Ssl, no_cipher, block}
use boxi.Server.Session.{Net, returns}

abbrev set_to : {A : Type 0} → Text → A → Property A
set_to name v = record {
  key_name = name;
  listening = true;
  value = v;
  original_value = v;
  default_value = v;
  configured = true;
  was_configured = true;
  default_configured = false;
}

abbrev unset : {A : Type 0} → Text → A → Property A
unset name v = record (set_to name v) { configured = false }

abbrev pub some_props : Props
some_props = record {
  store_hostname = set_to (lit "StoreHostname") (lit "store");
  certificate_file = set_to (lit "CertificateFile") (lit "/c");
  private_key_file = set_to (lit "PrivateKeyFile") (lit "/k");
  keys_file = set_to (lit "KeysFile") (lit "/e");
  data_directory = set_to (lit "DataDirectory") (lit "/d");
  notify_script = unset (lit "NotifyScript") [];
  trusted_cas_file = set_to (lit "TrustedCAsFile") (lit "/a");
  sync_allow_script = unset (lit "SyncAllowScript") [];
  command_socket = unset (lit "CommandSocket") [];
  pid_file = set_to (lit "PidFile") (lit "/p");
  store_object_info_file = unset (lit "StoreObjectInfoFile") [];
  account_number = set_to (lit "AccountNumber") (pos 27);
  update_store_interval = set_to (lit "UpdateStoreInterval") (pos 3600);
  minimum_file_age = set_to (lit "MinimumFileAge") (pos 21600);
  max_upload_wait = set_to (lit "MaxUploadWait") (pos 86400);
  file_tracking_size_threshold = set_to (lit "FileTrackingSizeThreshold") (pos 65535);
  diffing_upload_size_threshold = set_to (lit "DiffingUploadSizeThreshold") (pos 8192);
  maximum_diffing_time = unset (lit "MaximumDiffingTime") (pos 20);
  max_file_time_in_future = set_to (lit "MaxFileTimeInFuture") (pos 0);
  keep_alive_time = unset (lit "KeepAliveTime") (pos 0);
  extended_logging = set_to (lit "ExtendedLogging") false;
  automatic_backup = set_to (lit "AutomaticBackup") true;
  cert_request_file = unset (lit "CertRequestFile") [];
}

abbrev is_named : Text → Bool
is_named [] = false
is_named (x ∷ xs) = true

abbrev a_disk : Disk
a_disk = record {
  file_exists = λ t. if text_eq t (lit "/d") then false else is_named t;
  dir_exists = λ t. text_eq t (lit "/d");
  can_write = λ t. true;
  can_read = λ t. true;
  length_of = λ t. 1024;
  parent_of = λ t. lit "/";
  resolves = is_named;
}

abbrev an_ssl : Ssl
an_ssl = record {
  succeeds = λ site. true;
  opens = λ t. true;
  pem_reads = λ t. block false no_cipher ∷ block true no_cipher ∷ [];
  reads_certificate = λ t. true;
  common_name = λ t. lit "BACKUP-1b";
  certificate_key = λ t. lit "AAAA";
  private_key = λ t. some (lit "AAAA");
  loads_issuer = λ t. true;
  verifies = λ cert issuer. true;
}

abbrev a_net : Net
a_net = record {
  answer = λ n. returns;
  version = λ n. 1;
  expected_version = 1;
  last_error = λ n. (0, 0);
  error_name = λ n. none;
}
