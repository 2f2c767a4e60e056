-- ===== src/Config/Checking.antt =====
-- `ClientConfig::Check` of src/ClientConfig.cc.
use boxi.Prelude.{true, false, lit}
use boxi.Config.Props.{Props}
use boxi.Config.Checks.{
  Checked, passes, Disk, prop_set, where_set, prop_path, prop_writable, check_account_number,
  check_store_hostname, check_crypto_keys_file,
}
use boxi.Config.Certificates.{
  Ssl, check_private_key_file, check_certificate_file, check_trusted_cas_file,
}

-- From the call of `CheckAccountNumber`.
unfoldable pub check_contents : Disk → Ssl → Props → Checked
check_contents d o c = check_account_number c (
    check_store_hostname d c (
      check_private_key_file o c (
        check_certificate_file o c
          (check_trusted_cas_file o c (check_crypto_keys_file d c passes)))))

-- From the test of the interval of updates.
unfoldable pub check_numbers : Props → Checked → Checked
check_numbers c next = prop_set c.update_store_interval (lit "Update Store Interval") (
    prop_set c.minimum_file_age (lit "Minimum File Age") (
      prop_set c.max_upload_wait (lit "Maximum Upload Wait") (
        prop_set c.file_tracking_size_threshold (lit "File Tracking Size Threshold") (
          prop_set c.diffing_upload_size_threshold (lit "Diffing Upload Size Threshold") (
            prop_set c.max_upload_wait (lit "Maximum Upload Wait")
              (prop_set c.max_upload_wait (lit "Maximum Upload Wait") next))))))

-- From the test of the script that allows a backup.
unfoldable pub check_optional : Disk → Props → Checked → Checked
check_optional d c next =
    where_set c.sync_allow_script (prop_path d c.sync_allow_script false (lit "Sync Allow Script"))
      (where_set c.store_object_info_file
        (prop_path d c.store_object_info_file false (lit "Store Object Info File"))
        (where_set c.command_socket (prop_writable d c.command_socket (lit "Command Socket"))
          (prop_writable d c.pid_file (lit "Process ID File") next)))

unfoldable pub check_files : Disk → Props → Checked → Checked
check_files d c next = prop_path d c.keys_file false (lit "Keys File") (
    prop_path d c.certificate_file false (lit "Certificate File") (
      prop_path d c.private_key_file false (lit "Private Key File") (
        prop_path d c.trusted_cas_file false (lit "Trusted CAs File") (
          prop_path d c.data_directory true (lit "Data Directory") (
            where_set c.notify_script (prop_path d c.notify_script false (lit "Notify Script"))
              next)))))

unfoldable pub check : Disk → Ssl → Props → Checked
check d o c = prop_set c.store_hostname (lit "Store Host") (
    prop_set c.account_number (lit "Account Number")
      (check_files d c (check_numbers c (check_optional d c (check_contents d o c)))))
