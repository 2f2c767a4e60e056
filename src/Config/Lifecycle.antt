-- ===== src/Config/Lifecycle.antt =====
-- `Load`, `SetClean`, `IsClean` and `Reset` of src/ClientConfig.cc. What Box Backup's Configuration
-- holds is given by its readers, one for each type.
use boxi.Prelude.{false, Bool, ◌&&◌, Option, none, some, List, text_eq}
use boxi.Prelude.Int.{ℤ, int_eq}
use boxi.Prelude.Text.{Text}
use boxi.Property.{Property, KeyReader, set_clean, clear, set_from, is_clean}
use boxi.Property.Bools.{bool_eq}
use boxi.Location.Excluded.{Location}
use boxi.Config.Props.{Props}

-- STR_PROPS, INT_PROPS and BOOL_PROPS, with one method for all of a type; CertRequestFile is none of them.
unfoldable pub all_props :
    (Property Text → Property Text)
    → (Property ℤ → Property ℤ)
    → (Property Bool → Property Bool)
    → Props
    → Props
all_props f g h c = record c {
  store_hostname = f c.store_hostname;
  certificate_file = f c.certificate_file;
  private_key_file = f c.private_key_file;
  keys_file = f c.keys_file;
  data_directory = f c.data_directory;
  notify_script = f c.notify_script;
  trusted_cas_file = f c.trusted_cas_file;
  sync_allow_script = f c.sync_allow_script;
  command_socket = f c.command_socket;
  pid_file = f c.pid_file;
  store_object_info_file = f c.store_object_info_file;
  account_number = g c.account_number;
  update_store_interval = g c.update_store_interval;
  minimum_file_age = g c.minimum_file_age;
  max_upload_wait = g c.max_upload_wait;
  file_tracking_size_threshold = g c.file_tracking_size_threshold;
  diffing_upload_size_threshold = g c.diffing_upload_size_threshold;
  maximum_diffing_time = g c.maximum_diffing_time;
  max_file_time_in_future = g c.max_file_time_in_future;
  keep_alive_time = g c.keep_alive_time;
  extended_logging = h c.extended_logging;
  automatic_backup = h c.automatic_backup;
}

-- `SetClean`.
unfoldable pub set_clean_props : Props → Props
set_clean_props c = all_props set_clean set_clean set_clean c

-- The first part of `IsClean`.
unfoldable pub is_clean_props : Props → Bool
is_clean_props c =
    is_clean text_eq c.store_hostname
    && is_clean text_eq c.certificate_file
    && is_clean text_eq c.private_key_file
    && is_clean text_eq c.keys_file
    && is_clean text_eq c.data_directory
    && is_clean text_eq c.notify_script
    && is_clean text_eq c.trusted_cas_file
    && is_clean text_eq c.sync_allow_script
    && is_clean text_eq c.command_socket
    && is_clean text_eq c.pid_file
    && is_clean text_eq c.store_object_info_file
    && is_clean int_eq c.account_number
    && is_clean int_eq c.update_store_interval
    && is_clean int_eq c.minimum_file_age
    && is_clean int_eq c.max_upload_wait
    && is_clean int_eq c.file_tracking_size_threshold
    && is_clean int_eq c.diffing_upload_size_threshold
    && is_clean int_eq c.maximum_diffing_time
    && is_clean int_eq c.max_file_time_in_future
    && is_clean int_eq c.keep_alive_time
    && is_clean bool_eq c.extended_logging
    && is_clean bool_eq c.automatic_backup

-- What `SetFrom` and `GetConfigurationLocations` find in a Configuration.
pub record BoxConfig : Type 0 where
  pub texts : KeyReader Text
  -- The sub-configuration `Server`, where it exists.
  pub server : Option (KeyReader Text)
  pub ints : KeyReader ℤ
  pub bools : KeyReader Bool
  pub locations : List Location

-- A `SetFrom`, and what follows where it did not throw.
abbrev pub then_set :
    {A : Type 0} → Option (Property A) → (Property A → Option Props) → Option Props
then_set none go = none
then_set (some p) go = go p

unfoldable pub load_pid_file : BoxConfig → Props → Option (Property Text)
load_pid_file conf c = elim conf.server [
  | none ↦ some (clear c.pid_file).0
  | some server ↦ set_from server c.pid_file
]

-- `Clear` there calls the listener, the configuration, which tells its own; `SetFrom` calls none.
unfoldable pub pid_file_told : BoxConfig → Props → Bool
pid_file_told conf c = elim conf.server [ none ↦ (clear c.pid_file).1 | some server ↦ false ]

-- The three lists of `SetFrom`; none where a reader throws.
unfoldable pub load_strings : BoxConfig → Props → Option Props
load_strings conf c = then_set (set_from conf.texts c.store_hostname) (λ p1.
    then_set (set_from conf.texts c.certificate_file) (λ p2.
      then_set (set_from conf.texts c.private_key_file) (λ p3.
        then_set (set_from conf.texts c.keys_file) (λ p4.
          then_set (set_from conf.texts c.data_directory) (λ p5.
            then_set (set_from conf.texts c.notify_script) (λ p6.
              then_set (set_from conf.texts c.trusted_cas_file) (λ p7.
                then_set (set_from conf.texts c.sync_allow_script) (λ p8.
                  then_set (set_from conf.texts c.command_socket) (λ p9.
                    then_set (load_pid_file conf c) (λ p10.
                      then_set (set_from conf.texts c.store_object_info_file) (λ p11.
                        some (record c {
                          store_hostname = p1;
                          certificate_file = p2;
                          private_key_file = p3;
                          keys_file = p4;
                          data_directory = p5;
                          notify_script = p6;
                          trusted_cas_file = p7;
                          sync_allow_script = p8;
                          command_socket = p9;
                          pid_file = p10;
                          store_object_info_file = p11;
                        }))))))))))))

unfoldable pub load_ints : BoxConfig → Props → Option Props
load_ints conf c = then_set (set_from conf.ints c.account_number) (λ p1.
    then_set (set_from conf.ints c.update_store_interval) (λ p2.
      then_set (set_from conf.ints c.minimum_file_age) (λ p3.
        then_set (set_from conf.ints c.max_upload_wait) (λ p4.
          then_set (set_from conf.ints c.file_tracking_size_threshold) (λ p5.
            then_set (set_from conf.ints c.diffing_upload_size_threshold) (λ p6.
              then_set (set_from conf.ints c.maximum_diffing_time) (λ p7.
                then_set (set_from conf.ints c.max_file_time_in_future) (λ p8.
                  then_set (set_from conf.ints c.keep_alive_time) (λ p9. some (record c {
                    account_number = p1;
                    update_store_interval = p2;
                    minimum_file_age = p3;
                    max_upload_wait = p4;
                    file_tracking_size_threshold = p5;
                    diffing_upload_size_threshold = p6;
                    maximum_diffing_time = p7;
                    max_file_time_in_future = p8;
                    keep_alive_time = p9;
                  }))))))))))

unfoldable pub load_bools : BoxConfig → Props → Option Props
load_bools conf c = then_set (set_from conf.bools c.extended_logging) (λ p1.
    then_set (set_from conf.bools c.automatic_backup)
      (λ p2. some (record c { extended_logging = p1; automatic_backup = p2 })))
