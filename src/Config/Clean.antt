-- ===== src/Config/Clean.antt =====
-- When a configuration is clean.
use mathlib.Core.Path.{subst}
use boxi.Prelude.{
  ◌≡◌, ◌↔◌, refl, Bool, true, false, Option, none, some, List, [], ◌∷◌, ◌++◌, map, text_eq,
  if◌then◌else◌, Bool-cases, inl, inr, text_eq_iff, arith,
}
use boxi.Prelude.Int.{ℤ, int_eq, int_eq_iff}
use boxi.Prelude.Text.{Text}
use boxi.Property.{Property, set_clean, reset, is_clean}
use boxi.Property.Bools.{bool_eq}
use boxi.Property.Edits.{made_clean}
use boxi.Location.Excluded.{Location, is_same_location}
use boxi.Location.ExcludeList.{is_same_list}
use boxi.Location.Sameness.{same_entries_iff}
use boxi.Config.Locations.{notify_listeners, add_location}
use boxi.Config.Props.{Props}
use boxi.Config.Lifecycle.{all_props, set_clean_props, is_clean_props, BoxConfig, pid_file_told}
use boxi.Config.Client.{
  Client, with_listener, load_props, after_pid_file, after_load, load_client, reset_client,
  same_locations, original_locations, is_clean_client,
}

bool_eq_iff : (a b : Bool) → (bool_eq a b ≡ true) ↔ (a ≡ b)
bool_eq_iff true b = ground arith
bool_eq_iff false true = ground arith
bool_eq_iff false false = ground arith

-- A method that leaves each property clean leaves all of them clean.
module _ (f : Property Text → Property Text) (g : Property ℤ → Property ℤ)
    (h : Property Bool → Property Bool) where
  all_props-clean :
      ((p : Property Text) → is_clean text_eq (f p) ≡ true)
      → ((p : Property ℤ) → is_clean int_eq (g p) ≡ true)
      → ((p : Property Bool) → is_clean bool_eq (h p) ≡ true)
      → (c : Props) → is_clean_props (all_props f g h c) ≡ true
  unfolding all_props is_clean_props
  all_props-clean kf kg kh c =
      rw
        (
          kf c.store_hostname,
          kf c.certificate_file,
          kf c.private_key_file,
          kf c.keys_file,
          kf c.data_directory,
          kf c.notify_script,
          kf c.trusted_cas_file,
          kf c.sync_allow_script,
          kf c.command_socket,
          kf c.pid_file,
          kf c.store_object_info_file,
          kg c.account_number,
          kg c.update_store_interval,
          kg c.minimum_file_age,
          kg c.max_upload_wait,
          kg c.file_tracking_size_threshold,
          kg c.diffing_upload_size_threshold,
          kg c.maximum_diffing_time,
          kg c.max_file_time_in_future,
          kg c.keep_alive_time,
          kh c.extended_logging,
          kh c.automatic_backup,
        )
        refl

set_clean_props-clean : (c : Props) → is_clean_props (set_clean_props c) ≡ true
unfolding set_clean_props
set_clean_props-clean c =
    all_props-clean set_clean set_clean set_clean (λ p. (made_clean text_eq text_eq_iff p).0)
      (λ p. (made_clean int_eq int_eq_iff p).0) (λ p. (made_clean bool_eq bool_eq_iff p).0) c

reset_props-clean : (c : Props) → is_clean_props (all_props reset reset reset c) ≡ true
reset_props-clean c =
    all_props-clean reset reset reset (λ p. (made_clean text_eq text_eq_iff p).3)
      (λ p. (made_clean int_eq int_eq_iff p).3) (λ p. (made_clean bool_eq bool_eq_iff p).3) c

is_same_location-with_listener : (loc : Location) → is_same_location (with_listener loc) loc ≡ true
unfolding is_same_location is_same_list
is_same_location-with_listener loc = ground (
  arith,
  text_eq_iff loc.name loc.name,
  text_eq_iff loc.path loc.path,
  same_entries_iff loc.excluded.entries loc.excluded.entries,
)

same_locations-with_listener :
    (locs : List Location) → same_locations locs (map with_listener locs) ≡ true
unfolding same_locations
same_locations-with_listener [] = refl
same_locations-with_listener (loc ∷ locs) =
    rw (is_same_location-with_listener loc) (same_locations-with_listener locs)

-- Lists of another length are not the same.
same_locations-append :
    (olds news : List Location) (loc : Location)
    → same_locations olds news ≡ true
    → same_locations olds (news ++ (loc ∷ [])) ≡ false
unfolding same_locations
same_locations-append [] [] loc h = refl
same_locations-append [] (new ∷ news) loc h = cc
same_locations-append (old ∷ olds) [] loc h = cc
same_locations-append (old ∷ olds) (new ∷ news) loc h =
    ground (arith, same_locations-append olds news loc)

-- What a configuration that was loaded is like.
pub record Loaded (conf : BoxConfig) (c c' : Client) : Type 0 where
  pub clean : is_clean_client c' ≡ true
  pub locations : c'.config.locations ≡ map with_listener conf.locations
  pub notified : c'.config.notified ≡ (
      if pid_file_told conf c.props
      then (c.config.notified ++ c.config.listeners) ++ c.config.listeners
      else c.config.notified ++ c.config.listeners)

after_load-Loaded :
    (conf : BoxConfig) (c : Client) (p : Props) → Loaded conf c (after_load conf c p)
unfolding after_load is_clean_client notify_listeners after_pid_file
after_load-Loaded conf c p = record {
  clean = rw (set_clean_props-clean p) (same_locations-with_listener conf.locations);
  locations = refl;
  notified = elim (Bool-cases (pid_file_told conf c.props)) [
    | inl q ↦ rw q refl
    | inr q ↦ rw q refl
  ];
}

some-injective : {a b : Client} → some a ≡ some b → a ≡ b
some-injective h = cc

load_client-Loaded :
    (conf : BoxConfig) (c c' : Client) → load_client conf c ≡ some c' → Loaded conf c c'
unfolding load_client
load_client-Loaded conf c c' e = by_props (load_props conf c.props) e
  where
    by_props :
        (o : Option Props)
        → elim o [ none ↦ none | some p ↦ some (after_load conf c p) ] ≡ some c'
        → Loaded conf c c'
    by_props none e = cc
    by_props (some p) e = subst (Loaded conf c) (some-injective e) (after_load-Loaded conf c p)

-- `AddLocation` of a clean configuration.
abbrev pub with_location : Location → Client → Client
with_location loc c = record c { config = add_location loc c.config }

added-unclean :
    (loc : Location) (c : Client)
    → is_clean_client c ≡ true
    → is_clean_client (with_location loc c) ≡ false
unfolding is_clean_client add_location notify_listeners
added-unclean loc c h =
    ground (arith, same_locations-append (original_locations c.original) c.config.locations loc)

-- CertRequestFile is not asked.
is_clean_props-unsaved :
    (c : Props) (p : Property Text)
    → is_clean_props (record c { cert_request_file = p }) ≡ is_clean_props c
unfolding is_clean_props
is_clean_props-unsaved c p = refl

reset-clean : (c : Client) → is_clean_client (reset_client c) ≡ true
unfolding is_clean_client reset_client same_locations
reset-clean c =
    rw (is_clean_props-unsaved (all_props reset reset reset c.props) _, reset_props-clean c.props)
      refl

-- A configuration that was loaded is clean, with the locations that were read, and every listener
-- was told of it once, and once before that where the configuration read has no Server block and
-- the property of the PID file, with its listener, was configured; after a location is added it is not clean, and after `Reset` it is clean
-- again.
pub load_client_lem :
    (conf : BoxConfig) (c c' : Client) (loc : Location)
    → load_client conf c ≡ some c'
    → Loaded conf c c'
      × (is_clean_client (with_location loc c') ≡ false)
      × (is_clean_client (reset_client (with_location loc c')) ≡ true)
load_client_lem conf c c' loc h =
    let loaded = load_client-Loaded conf c c' h in
    (loaded, added-unclean loc c' loaded.clean, reset-clean (with_location loc c'))
