-- ===== src/Config/Checked.antt =====
-- A configuration that passes `Check` is one that the connection to the server works with.
use boxi.Prelude.{◌≡◌, false, none, some, [], if◌then◌else◌}
use boxi.Prelude.Text.{Text}
use boxi.Config.Props.{Props}
use boxi.Config.Checks.{Disk, path_of}
use boxi.Config.Certificates.{as_unsigned}
use boxi.Server.Session.{Session, Settings}

-- What `ServerConnection` reads of the configuration.
unfoldable pub settings_of : Props → Settings
settings_of c = record {
  store_hostname = path_of c.store_hostname;
  keys_file = path_of c.keys_file;
  certificate_file = path_of c.certificate_file;
  private_key_file = path_of c.private_key_file;
  trusted_cas_file = path_of c.trusted_cas_file;
  account_number =
      if c.account_number.configured then some (as_unsigned c.account_number.value) else none;
}

-- No empty name is that of a file or of a host.
pub record NoEmptyName (d : Disk) : Type 0 where
  pub file_exists : d.file_exists [] ≡ false
  pub resolves : d.resolves [] ≡ false
