-- ===== src/Config/Checks.antt =====
-- The tests of single properties, of src/ClientConfig.cc. A test is given what follows it; the
-- result is that of the whole, and the message is that of the test that fails.
use boxi.Prelude.{ℕ, [], Bool, not, none, some, if◌then◌else◌, ◌==◌}
use boxi.Prelude.Text.{Text}
use boxi.Property.{Property, get_pointer, get_into}
use boxi.Config.Props.{Props}

-- The messages, with what is printed in them.
pub data Problem : Type 0 where
  not_set : Text → Problem
  not_a_directory not_a_file does_not_exist cannot_be_written : Text → Text → Problem
  parent_does_not_exist parent_cannot_be_written : Text → Text → Problem
  account_number_not_valid hostname_not_configured hostname_not_valid : Problem
  key_not_configured key_bio_failed key_not_read key_not_deciphered key_has_passphrase : Problem
  cert_not_configured account_not_configured cert_key_not_configured cert_bio_failed : Problem
  cert_name_not_set cert_not_read name_nid_not_found public_key_not_extracted : Problem
  cert_does_not_match_account : Text → Text → Problem
  load_key_bio_failed key_file_not_read private_key_not_read key_data_not_allocated : Problem
  public_key_not_written cert_does_not_match_key key_data_not_read : Problem
  cas_not_configured store_failed lookup_failed issuer_not_loaded context_failed : Problem
  context_not_initialised certificate_problem : Problem
  keys_not_configured keys_is_directory keys_not_found keys_not_readable keys_not_valid : Problem

-- True, false with the message, or a null or freed pointer was followed.
pub data Checked : Type 0 where
  passes crashes : Checked
  fails : Problem → Checked

-- What the file system and the resolver answer.
pub record Disk : Type 0 where
  pub file_exists : Text → Bool
  pub dir_exists : Text → Bool
  pub can_write : Text → Bool
  pub can_read : Text → Bool
  pub length_of : Text → ℕ
  -- The path less its name, through `wxFileName`.
  pub parent_of : Text → Text
  -- `wxIPV4address::Hostname`
  pub resolves : Text → Bool

-- `PropSet`, for each of the three types.
unfoldable pub prop_set : {A : Type 0} → Property A → Text → Checked → Checked
prop_set p desc next = elim (get_pointer p) [ none ↦ fails (not_set desc) | some v ↦ next ]

-- `PropSet` as a condition, and what is tested where it holds.
unfoldable pub where_set : Property Text → (Checked → Checked) → Checked → Checked
where_set p test next = elim (get_pointer p) [ none ↦ next | some v ↦ test next ]

abbrev pub path_of : Property Text → Text
path_of p = (get_into p []).0

unfoldable pub prop_path : Disk → Property Text → Bool → Text → Checked → Checked
prop_path d p dir desc next =
    let path = path_of p in
    if dir
    then (if d.file_exists path
        then fails (not_a_directory desc path)
        else if not (d.dir_exists path)
        then fails (does_not_exist desc path)
        else next)
    else if d.dir_exists path
    then fails (not_a_file desc path)
    else if not (d.file_exists path)
    then fails (does_not_exist desc path)
    else next

unfoldable pub prop_writable : Disk → Property Text → Text → Checked → Checked
prop_writable d p desc next =
    let path = path_of p in
    let parent = d.parent_of path in
    if d.file_exists path
    then (if d.can_write path then next else fails (cannot_be_written desc path))
    else if not (d.dir_exists parent)
    then fails (parent_does_not_exist desc parent)
    else if d.can_write parent
    then next
    else fails (parent_cannot_be_written desc parent)

unfoldable pub check_account_number : Props → Checked → Checked
check_account_number c next =
    if not c.account_number.configured then fails account_number_not_valid else next

unfoldable pub check_store_hostname : Disk → Props → Checked → Checked
check_store_hostname d c next =
    if not c.store_hostname.configured
    then fails hostname_not_configured
    else if not (d.resolves (path_of c.store_hostname))
    then fails hostname_not_valid
    else next

unfoldable pub check_crypto_keys_file : Disk → Props → Checked → Checked
check_crypto_keys_file d c next =
    let path = path_of c.keys_file in
    if not c.keys_file.configured
    then fails keys_not_configured
    else if d.dir_exists path
    then fails keys_is_directory
    else if not (d.file_exists path)
    then fails keys_not_found
    else if not (d.can_read path)
    then fails keys_not_readable
    else if not (d.length_of path == 1024)
    then fails keys_not_valid
    else next
