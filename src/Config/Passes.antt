-- ===== src/Config/Passes.antt =====
-- What each test of src/ClientConfig.cc tells where it is passed.
use boxi.Prelude.{
  ◌≡◌, refl, Bool, true, false, not, Option, none, some, List, [], ◌∷◌, if◌then◌else◌, ◌==◌, length,
  text_eq, arith,
}
use boxi.Prelude.Text.{Text}
use boxi.Property.{Property, get_pointer}
use boxi.Config.Props.{Props}
use boxi.Config.Checks.{
  Problem, not_set, private_key_not_read, Checked, passes, fails, Disk, prop_set, where_set,
  path_of, prop_path, prop_writable, check_account_number, check_store_hostname,
  check_crypto_keys_file,
}
use boxi.Config.Certificates.{
  Ssl, key_bio, cert_bio, nid, cert_public_key, load_key_bio, actual_bio, expect_bio, write_actual,
  write_expect, read_actual, read_expect, new_store, add_lookup, verify_bio, new_context,
  init_context, Cipher, no_info, a_cipher, no_cipher, PemRead, block, no_start_line, other_error,
  check_existing_key_with_data, read_blocks, check_private_key_file, common_name_expected,
  ensure_same_public_keys, load_key, check_cert_subject, check_certificate_file, verify_certificate,
  check_trusted_cas_file,
}
use boxi.Config.Checking.{check_contents}

-- The two forms of a test that was passed.
if_fails :
    (b : Bool) (p : Problem) {x : Checked}
    → (if b then fails p else x) ≡ passes
    → (b ≡ false) × (x ≡ passes)
if_fails true p h = cc
if_fails false p h = (refl, h)

unless_fails :
    (b : Bool) (p : Problem) {x : Checked}
    → (if not b then fails p else x) ≡ passes
    → (b ≡ true) × (x ≡ passes)
unless_fails true p h = (refl, h)
unless_fails false p h = cc

pub prop_set-passes :
    {A : Type 0} (p : Property A) (desc : Text) (next : Checked)
    → prop_set p desc next ≡ passes
    → (p.configured ≡ true) × (next ≡ passes)
unfolding prop_set get_pointer
prop_set-passes p desc next = by_flag p.configured
  where
    by_flag :
        (b : Bool)
        → elim (if b then some p.value else none) [ none ↦ fails (not_set desc) | some v ↦ next ]
          ≡ passes
        → (b ≡ true) × (next ≡ passes)
    by_flag true h = (refl, h)
    by_flag false h = cc

pub where_set-passes :
    (p : Property Text) (test : Checked → Checked) (next : Checked)
    → (test next ≡ passes → next ≡ passes)
    → where_set p test next ≡ passes
    → next ≡ passes
unfolding where_set
where_set-passes p test next k = by_pointer (get_pointer p)
  where
    by_pointer :
        (o : Option Text) → elim o [ none ↦ next | some v ↦ test next ] ≡ passes → next ≡ passes
    by_pointer none h = h
    by_pointer (some v) h = k h

module _ (d : Disk) where
  pub prop_path-passes :
      (p : Property Text) (desc : Text) (next : Checked)
      → prop_path d p false desc next ≡ passes
      → (d.file_exists (path_of p) ≡ true) × (next ≡ passes)
  unfolding prop_path
  prop_path-passes p desc next h =
      let (not_dir, rest) = if_fails (d.dir_exists (path_of p)) _ h in
      unless_fails (d.file_exists (path_of p)) _ rest

  pub directory-passes :
      (p : Property Text) (desc : Text) (next : Checked)
      → prop_path d p true desc next ≡ passes
      → (d.dir_exists (path_of p) ≡ true) × (next ≡ passes)
  unfolding prop_path
  directory-passes p desc next h =
      let (not_file, rest) = if_fails (d.file_exists (path_of p)) _ h in
      unless_fails (d.dir_exists (path_of p)) _ rest

  pub prop_writable-passes :
      (p : Property Text) (desc : Text) (next : Checked)
      → prop_writable d p desc next ≡ passes
      → next ≡ passes
  unfolding prop_writable
  prop_writable-passes p desc next h = ground arith

-- The certificate is that of the account, and of the private key, and the keys are as long as they
-- have to be.
pub record Matching (d : Disk) (o : Ssl) (c : Props) : Type 0 where
  pub name :
      text_eq
        (common_name_expected c.account_number.value)
        (o.common_name (path_of c.certificate_file))
      ≡ true
  pub key : Text
  pub private_key : o.private_key (path_of c.private_key_file) ≡ some key
  pub same_key : text_eq (o.certificate_key (path_of c.certificate_file)) key ≡ true
  pub authority : o.verifies (path_of c.trusted_cas_file) (path_of c.trusted_cas_file) ≡ true
  pub keys_length : (d.length_of (path_of c.keys_file) == 1024) ≡ true

module _ (o : Ssl) where
  ensure_same_public_keys-passes :
      (actual expect : Text) (next : Checked)
      → ensure_same_public_keys o actual expect next ≡ passes
      → (text_eq actual expect ≡ true) × (next ≡ passes)
  unfolding ensure_same_public_keys
  ensure_same_public_keys-passes actual expect next h =
      let h1 = (unless_fails (o.succeeds actual_bio) _ h).1 in
      let h2 = (unless_fails (o.succeeds expect_bio) _ h1).1 in
      let h3 = (unless_fails (o.succeeds write_actual) _ h2).1 in
      let h4 = (unless_fails (o.succeeds write_expect) _ h3).1 in
      let h5 = (unless_fails (length actual == length expect) _ h4).1 in
      let h6 = (unless_fails (o.succeeds read_actual) _ h5).1 in
      let h7 = (unless_fails (o.succeeds read_expect) _ h6).1 in
      unless_fails (text_eq actual expect) _ h7

  load_key-passes :
      (name : Text) (go : Text → Checked)
      → load_key o name go ≡ passes
      → (key : Text) × (o.private_key name ≡ some key) × (go key ≡ passes)
  unfolding load_key
  load_key-passes name go h =
      let h1 = (unless_fails (o.succeeds load_key_bio) _ h).1 in
      let h2 = (unless_fails (o.opens name) _ h1).1 in by_key (o.private_key name) h2
    where
      by_key :
          (k : Option Text)
          → elim k [ none ↦ fails private_key_not_read | some key ↦ go key ] ≡ passes
          → (key : Text) × (k ≡ some key) × (go key ≡ passes)
      by_key none h = cc
      by_key (some key) h = (key, refl, h)

  check_private_key_file-passes :
      (c : Props) (next : Checked) → check_private_key_file o c next ≡ passes → next ≡ passes
  unfolding check_private_key_file read_blocks check_existing_key_with_data
  check_private_key_file-passes c next h =
      let h1 = (unless_fails c.private_key_file.configured _ h).1 in
      let h2 = (unless_fails (o.succeeds key_bio) _ h1).1 in
      let h3 = (unless_fails (o.opens (path_of c.private_key_file)) _ h2).1 in
      blocks (o.pem_reads (path_of c.private_key_file)) h3
    where
      data_passes :
          (info : Cipher) → check_existing_key_with_data info next ≡ passes → next ≡ passes
      data_passes no_info h = cc
      data_passes a_cipher h = cc
      data_passes no_cipher h = h

      blocks : (rs : List PemRead) → read_blocks rs next ≡ passes → next ≡ passes
      blocks [] h = cc
      blocks (no_start_line ∷ rs) h = cc
      blocks (other_error ∷ rs) h = cc
      blocks (block true info ∷ rs) h = data_passes info h
      blocks (block false info ∷ rs) h = blocks rs h

  verify_certificate-passes :
      (cert issuer : Text) (next : Checked)
      → verify_certificate o cert issuer next ≡ passes
      → (o.verifies cert issuer ≡ true) × (next ≡ passes)
  unfolding verify_certificate
  verify_certificate-passes cert issuer next h =
      let h1 = (unless_fails (o.succeeds new_store) _ h).1 in
      let h2 = (unless_fails (o.succeeds add_lookup) _ h1).1 in
      let h3 = (unless_fails (o.loads_issuer issuer) _ h2).1 in
      let h4 = (unless_fails (o.succeeds verify_bio) _ h3).1 in
      let h5 = (unless_fails (o.opens cert) _ h4).1 in
      let h6 = (unless_fails (o.reads_certificate cert) _ h5).1 in
      let h7 = (unless_fails (o.succeeds new_context) _ h6).1 in
      let h8 = (unless_fails (o.succeeds init_context) _ h7).1 in
      unless_fails (o.verifies cert issuer) _ h8

  check_certificate_file-passes :
      (c : Props) (next : Checked)
      → check_certificate_file o c next ≡ passes
      → (text_eq
            (common_name_expected c.account_number.value)
            (o.common_name (path_of c.certificate_file))
          ≡ true)
        × (key : Text) × (o.private_key (path_of c.private_key_file) ≡ some key)
        × (text_eq (o.certificate_key (path_of c.certificate_file)) key ≡ true)
        × (next ≡ passes)
  unfolding check_certificate_file check_cert_subject
  check_certificate_file-passes c next h =
      let cert = path_of c.certificate_file in
      let h1 = (unless_fails c.certificate_file.configured _ h).1 in
      let h2 = (unless_fails c.account_number.configured _ h1).1 in
      let h3 = (unless_fails c.private_key_file.configured _ h2).1 in
      let h4 = (unless_fails (o.succeeds cert_bio) _ h3).1 in
      let h5 = (unless_fails (o.opens cert) _ h4).1 in
      let h6 = (unless_fails (o.reads_certificate cert) _ h5).1 in
      let h7 = (unless_fails (o.succeeds nid) _ h6).1 in
      let (name, h8) =
        unless_fails (text_eq (common_name_expected c.account_number.value) (o.common_name cert)) _
          h7 in
      let h9 = (unless_fails (o.succeeds cert_public_key) _ h8).1 in
      let (key, found, h10) =
        load_key-passes (path_of c.private_key_file)
          (λ k. ensure_same_public_keys o (o.certificate_key cert) k next) h9 in
      let (same, rest) = ensure_same_public_keys-passes (o.certificate_key cert) key next h10 in
      (name, key, found, same, rest)

  pub check_contents-Matching :
      (d : Disk) (c : Props)
      → check_contents d o c ≡ passes
      → (d.resolves (path_of c.store_hostname) ≡ true) × Matching d o c
  unfolding check_contents check_account_number check_store_hostname check_trusted_cas_file
      check_crypto_keys_file
  check_contents-Matching d c h =
      let keys = path_of c.keys_file in
      let cas = path_of c.trusted_cas_file in
      let h1 = (unless_fails c.account_number.configured _ h).1 in
      let h2 = (unless_fails c.store_hostname.configured _ h1).1 in
      let (host, h3) = unless_fails (d.resolves (path_of c.store_hostname)) _ h2 in
      let h4 = check_private_key_file-passes c _ h3 in
      let (name, key, found, same, h5) = check_certificate_file-passes c _ h4 in
      let h6 = (unless_fails c.trusted_cas_file.configured _ h5).1 in
      let (authority, h7) = verify_certificate-passes cas cas _ h6 in
      let h8 = (unless_fails c.keys_file.configured _ h7).1 in
      let h9 = (if_fails (d.dir_exists keys) _ h8).1 in
      let h10 = (unless_fails (d.file_exists keys) _ h9).1 in
      let h11 = (unless_fails (d.can_read keys) _ h10).1 in
      let keys_length = (unless_fails (d.length_of keys == 1024) _ h11).0 in
      (
        host,
        record {
          name = name;
          key = key;
          private_key = found;
          same_key = same;
          authority = authority;
          keys_length = keys_length;
        },
      )
