-- ===== src/Config/Certificates.antt =====
-- The tests of the certificates and of the private key, of src/ClientConfig.cc. What OpenSSL
-- answers is `Ssl`.
use boxi.Prelude.{
  ℕ, ◌+◌, ◌-◌, ◌/◌, ◌%◌, ◌^◌, zero, suc, Bool, not, Option, none, some, List, [], ◌∷◌, ◌++◌,
  if◌then◌else◌, ◌==◌, ltb, lit, length, text_eq,
}
use boxi.Prelude.Int.{ℤ, pos, negsuc}
use boxi.Prelude.Text.{Text}
use boxi.Config.Props.{Props}
use boxi.Config.Checks.{
  Checked, crashes, fails, path_of, key_not_configured, key_bio_failed, key_not_read,
  key_not_deciphered, key_has_passphrase, cert_not_configured, account_not_configured,
  cert_key_not_configured, cert_bio_failed, cert_name_not_set, cert_not_read, name_nid_not_found,
  public_key_not_extracted, cert_does_not_match_account, load_key_bio_failed, key_file_not_read,
  private_key_not_read, key_data_not_allocated, public_key_not_written, cert_does_not_match_key,
  key_data_not_read, cas_not_configured, store_failed, lookup_failed, issuer_not_loaded,
  context_failed, context_not_initialised, certificate_problem,
}

-- The calls that may fail whatever the file is.
pub data Site : Type 0 where
  key_bio cert_bio nid cert_public_key load_key_bio actual_bio expect_bio : Site
  write_actual write_expect read_actual read_expect : Site
  new_store add_lookup verify_bio new_context init_context : Site

-- `PEM_get_EVP_CIPHER_INFO` of a block's header: it fails, or finds a cipher or none.
pub data Cipher : Type 0 where
  no_info a_cipher no_cipher : Cipher

-- What `PEM_read_bio` gives: a block, and whether its name is PEM_STRING_RSA, or PEM_R_NO_START_LINE,
-- as at the end of the file, or another error.
pub data PemRead : Type 0 where
  block : Bool → Cipher → PemRead
  no_start_line other_error : PemRead

pub record Ssl : Type 0 where
  pub succeeds : Site → Bool
  -- `BIO_read_filename` of the private key, of the certificate, and in `LoadKey`.
  pub opens : Text → Bool
  pub pem_reads : Text → List PemRead
  pub reads_certificate : Text → Bool
  -- `X509_NAME_get_text_by_NID`, with what it leaves in the buffer.
  pub common_name : Text → Text
  -- The public keys, as `PEM_write_bio_PUBKEY` writes them.
  pub certificate_key : Text → Text
  pub private_key : Text → Option Text
  pub loads_issuer : Text → Bool
  -- `X509_verify_cert` of a certificate, where the issuer's is in the second file.
  pub verifies : Text → Text → Bool

unfoldable pub check_existing_key_with_data : Cipher → Checked → Checked
check_existing_key_with_data no_info next = fails key_not_deciphered
check_existing_key_with_data a_cipher next = fails key_has_passphrase
check_existing_key_with_data no_cipher next = next

-- The loop: behind an error other than PEM_R_NO_START_LINE, `strcmp` gets NULL or a freed name.
unfoldable pub read_blocks : List PemRead → Checked → Checked
read_blocks [] next = fails key_not_read
read_blocks (no_start_line ∷ rs) next = fails key_not_read
read_blocks (other_error ∷ rs) next = crashes
read_blocks (block is_rsa cipher ∷ rs) next =
    let on = read_blocks rs next in if is_rsa then check_existing_key_with_data cipher next else on

unfoldable pub check_private_key_file : Ssl → Props → Checked → Checked
check_private_key_file o c next =
    let name = path_of c.private_key_file in
    if not c.private_key_file.configured
    then fails key_not_configured
    else if not (o.succeeds key_bio)
    then fails key_bio_failed
    else if not (o.opens name)
    then fails key_not_read
    else read_blocks (o.pem_reads name) next

abbrev pub hex_digit : ℕ → ℕ
hex_digit n = if ltb n 10 then n + b'0' else n + 87

-- "%x" of an int, which has eight digits at most.
unfoldable pub show_hex : ℕ → ℕ → Text → Text
show_hex zero n acc = acc
show_hex (suc f) n acc =
    let acc' = hex_digit (n % 16) ∷ acc in
    let rest = show_hex f (n / 16) acc' in if ltb n 16 then acc' else rest

abbrev pub as_unsigned : ℤ → ℕ
as_unsigned (pos n) = n % 2 ^ 32
as_unsigned (negsuc n) = 2 ^ 32 - 1 - n % 2 ^ 32

unfoldable pub common_name_expected : ℤ → Text
common_name_expected account = lit "BACKUP-" ++ show_hex 8 (as_unsigned account) []

-- `EnsureSamePublicKeys`; the sizes and the bytes are compared at once.
unfoldable pub ensure_same_public_keys : Ssl → Text → Text → Checked → Checked
ensure_same_public_keys o actual expect next =
    let compared =
      if not (o.succeeds read_actual)
      then fails key_data_not_read
      else if not (o.succeeds read_expect)
      then fails key_data_not_read
      else if not (text_eq actual expect)
      then fails cert_does_not_match_key
      else next in
    if not (o.succeeds actual_bio)
    then fails key_data_not_allocated
    else if not (o.succeeds expect_bio)
    then fails key_data_not_allocated
    else if not (o.succeeds write_actual)
    then fails public_key_not_written
    else if not (o.succeeds write_expect)
    then fails public_key_not_written
    else if not (length actual == length expect)
    then fails cert_does_not_match_key
    else compared

unfoldable pub load_key : Ssl → Text → (Text → Checked) → Checked
load_key o name go =
    if not (o.succeeds load_key_bio)
    then fails load_key_bio_failed
    else if not (o.opens name)
    then fails key_file_not_read
    else elim (o.private_key name) [ none ↦ fails private_key_not_read | some key ↦ go key ]

unfoldable pub check_cert_subject : Ssl → Text → ℤ → Text → Checked → Checked
check_cert_subject o key_name account cert next =
    let expected = common_name_expected account in
    let actual = o.common_name cert in
    if not (o.succeeds nid)
    then fails name_nid_not_found
    else if not (text_eq expected actual)
    then fails (cert_does_not_match_account expected actual)
    else if not (o.succeeds cert_public_key)
    then fails public_key_not_extracted
    else load_key o key_name (λ key. ensure_same_public_keys o (o.certificate_key cert) key next)

unfoldable pub check_certificate_file : Ssl → Props → Checked → Checked
check_certificate_file o c next =
    let cert = path_of c.certificate_file in
    if not c.certificate_file.configured
    then fails cert_not_configured
    else if not c.account_number.configured
    then fails account_not_configured
    else if not c.private_key_file.configured
    then fails cert_key_not_configured
    else if not (o.succeeds cert_bio)
    then fails cert_bio_failed
    else if not (o.opens cert)
    then fails cert_name_not_set
    else if not (o.reads_certificate cert)
    then fails cert_not_read
    else check_cert_subject o (path_of c.private_key_file) c.account_number.value cert next

-- `VerifyCertificate` with `LoadCertificate`.
unfoldable pub verify_certificate : Ssl → Text → Text → Checked → Checked
verify_certificate o cert issuer next =
    if not (o.succeeds new_store)
    then fails store_failed
    else if not (o.succeeds add_lookup)
    then fails lookup_failed
    else if not (o.loads_issuer issuer)
    then fails issuer_not_loaded
    else if not (o.succeeds verify_bio)
    then fails cert_bio_failed
    else if not (o.opens cert)
    then fails cert_name_not_set
    else if not (o.reads_certificate cert)
    then fails cert_not_read
    else if not (o.succeeds new_context)
    then fails context_failed
    else if not (o.succeeds init_context)
    then fails context_not_initialised
    else if not (o.verifies cert issuer)
    then fails certificate_problem
    else next

unfoldable pub check_trusted_cas_file : Ssl → Props → Checked → Checked
check_trusted_cas_file o c next =
    let cas = path_of c.trusted_cas_file in
    if not c.trusted_cas_file.configured
    then fails cas_not_configured
    else verify_certificate o cas cas next
