-- ===== src/Config/Props.antt =====
-- The properties of the configuration, by their names in include/Property.h and
-- include/ClientConfig.h.
use boxi.Prelude.{Bool}
use boxi.Prelude.Int.{ℤ}
use boxi.Prelude.Text.{Text}
use boxi.Property.{Property}

pub record Props : Type 0 where
  pub store_hostname : Property Text
  pub certificate_file : Property Text
  pub private_key_file : Property Text
  pub keys_file : Property Text
  pub data_directory : Property Text
  pub notify_script : Property Text
  pub trusted_cas_file : Property Text
  pub sync_allow_script : Property Text
  pub command_socket : Property Text
  pub pid_file : Property Text
  pub store_object_info_file : Property Text
  pub account_number : Property ℤ
  pub update_store_interval : Property ℤ
  pub minimum_file_age : Property ℤ
  pub max_upload_wait : Property ℤ
  pub file_tracking_size_threshold : Property ℤ
  pub diffing_upload_size_threshold : Property ℤ
  pub maximum_diffing_time : Property ℤ
  pub max_file_time_in_future : Property ℤ
  pub keep_alive_time : Property ℤ
  pub extended_logging : Property Bool
  pub automatic_backup : Property Bool
  -- "unsaved property"
  pub cert_request_file : Property Text
