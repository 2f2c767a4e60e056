-- ===== src/RestoreFiles/Tests.antt =====
-- The restore of selected files at concrete inputs.
use boxi.Prelude.{
  ℕ, ◌≡◌, ◌≢◌, refl, ◌⊎◌, Bool, true, false, some, List, [], ◌∷◌, if◌then◌else◌, any, lit, text_eq,
}
use boxi.RestoreFiles.Cache.{
  Version, Info, Node, listed, no_nodes, a_node, Epoch, get_version_to_restore, version_before,
  get_most_recent, most_recent_of,
}
use boxi.RestoreFiles.Spec.{Entry, is_same_spec_entry, text_gt, add_spec_entry, remove_spec_entry}
use boxi.RestoreFiles.Count.{
  Job, count_files_recursive, count_at, count_version, check_entries, notify_more_files_counted,
}
use boxi.RestoreFiles.Fetch.{
  Disc, FetchedFile, Restoring, restore_files_recursive, fetch_one, make_directory_at,
  match_entries, restore_at, restore_new, restore_version, write_attributes,
}
use boxi.RestoreFiles.FetchedAs.{AllOf}
use boxi.RestoreFiles.Selected.{excludes, plan}
use boxi.RestoreFiles.LocalPath.{
  make_local_path, apply_attributes, enter_directory, make_directories,
}
use boxi.RestoreFiles.Panel.{
  Settings, block_size_of, Shown, shown, start_restore, refusal, start_with, run_restore, show_end,
  restore_entries, count_entries, reset_counting, restore_entry, parent_id, reset_restoring,
  wind_up,
}
use boxi.RestoreFiles.Finished.{finished, Restored, Started, start_restore_lem}
use boxi.RestoreFiles.Undisturbed.{Undisturbed, available, restore_files_recursive_completes}
use boxi.RestoreFiles.Choice.{Chosen, get_version_to_restore_lem}
use boxi.RestoreFiles.Entries.{InOrder, spec_entries_lem}

abbrev a_version : ℕ → Bool → ℕ → ℕ → Version
a_version id directory blocks date = record {
  box_file_id = id;
  is_directory = directory;
  is_deleted = false;
  size_in_blocks = blocks;
  date_time = date;
  has_attributes = true;
}

abbrev pub root_info : Info
root_info = record {
  address = 1;
  file_name = lit "";
  full_path = lit "/";
  is_root = true;
  versions = a_version 1 true 1 10 ∷ [];
}

abbrev pub home_info : Info
home_info = record {
  address = 2;
  file_name = lit "home";
  full_path = lit "/home";
  is_root = false;
  versions = a_version 2 true 1 10 ∷ [];
}

abbrev pub letter_info : Info
letter_info = record {
  address = 3;
  file_name = lit "letter";
  full_path = lit "/home/letter";
  is_root = false;
  versions = a_version 30 false 4 10 ∷ a_version 31 false 5 20 ∷ a_version 32 false 6 30 ∷ [];
}

abbrev cache_info : Info
cache_info = record {
  address = 4;
  file_name = lit "cache";
  full_path = lit "/home/cache";
  is_root = false;
  versions = a_version 40 false 9 10 ∷ [];
}

abbrev pub letter : Node
letter = listed letter_info no_nodes

abbrev pub cache : Node
cache = listed cache_info no_nodes

abbrev home : Node
home = listed home_info (a_node cache (a_node letter no_nodes))

abbrev pub home_entry : Entry
home_entry = record { node = home; above = root_info ∷ []; is_include = true }

abbrev pub cache_entry : Entry
cache_entry = record { node = cache; above = home_info ∷ root_info ∷ []; is_include = false }

abbrev pub letter_entry : Entry
letter_entry = record { node = letter; above = home_info ∷ root_info ∷ []; is_include = true }

abbrev some_entries : List Entry
some_entries = home_entry ∷ cache_entry ∷ letter_entry ∷ []

abbrev by_date : Epoch
by_date = record { enabled = true; date = 25 }

abbrev empty_disc : Disc
empty_disc = record {
  is_there = λ n name. false;
  succeeds = λ n. true;
  writes_attributes = λ n. true;
}

abbrev settings : Settings
settings = record {
  inits_tls = true;
  store_hostname = lit "store";
  keys_file = lit "keys";
  account_number = some 7;
  sets_up_keys = true;
  makes_destination = true;
}

abbrev fetched_letter : FetchedFile
fetched_letter = record { parent_id = 2; file_id = 31; local_name = lit "/r/home/letter" }

abbrev a_run : Shown
a_run = record {
  summaries = finished;
  counted = record { entries = home_entry ∷ cache_entry ∷ []; files = 1; bytes = 10; polls = 3 };
  restored = record {
    fetched = fetched_letter ∷ [];
    files_done = 1;
    bytes_done = 10;
    errors = 1;
    calls = 6;
    polls = 6;
  };
  restore_running = false;
  restore_stop_requested = false;
}

a_run_is_shown :
    start_restore
      (λ k. false)
      (λ a. true)
      by_date
      empty_disc
      settings
      (block_size_of 2)
      (lit "/r")
      some_entries
    ≡ shown (some a_run)
unfolding start_restore refusal start_with run_restore show_end restore_entries count_entries
    reset_counting count_files_recursive count_at get_version_to_restore version_before
    count_version check_entries notify_more_files_counted remove_spec_entry restore_entry
    make_local_path text_eq get_most_recent most_recent_of fetch_one make_directory_at match_entries
    restore_at restore_files_recursive restore_new restore_version write_attributes apply_attributes
    enter_directory make_directories parent_id reset_restoring wind_up
a_run_is_shown = refl

start_restore_lem_example :
    ((a_run.summaries ≡ finished) × Restored by_date (lit "/r") a_run)
    ⊎ ((a_run.summaries ≢ finished) × Started by_date (lit "/r") a_run)
start_restore_lem_example =
    start_restore_lem (λ k. false) (λ a. true) by_date empty_disc settings (block_size_of 2)
      (lit "/r") some_entries a_run (λ k. refl) (λ a. refl) a_run_is_shown

abbrev job : Job
job = record { lists = λ a. true; stops = λ k. false; epoch = by_date; block_size = 2 }

abbrev at_start : Restoring
at_start = record { fetched = []; files_done = 0; bytes_done = 0; errors = 0; calls = 0; polls = 0 }

empty_disc-Undisturbed : Undisturbed empty_disc
empty_disc-Undisturbed = record {
  free = λ n name. refl;
  succeeds = λ n. refl;
  writes_attributes = λ n. refl;
}

home-available : available by_date some_entries home ≡ true
unfolding match_entries get_version_to_restore version_before
home-available = refl

restore_files_recursive_completes_example :
    AllOf job
      (plan (excludes some_entries) by_date home 1 (lit "/r/home"))
      at_start
      (restore_files_recursive job empty_disc some_entries home 1 (lit "/r/home") at_start).0
restore_files_recursive_completes_example =
    restore_files_recursive_completes job empty_disc some_entries home 1 (lit "/r/home") at_start
      empty_disc-Undisturbed (λ k. refl) home-available

get_version_to_restore_lem_example :
    Chosen by_date letter_info.versions (get_version_to_restore by_date letter_info)
get_version_to_restore_lem_example = get_version_to_restore_lem by_date letter_info

pub some_entries-InOrder : InOrder (home_entry ∷ cache_entry ∷ [])
unfolding text_gt
some_entries-InOrder = (((refl, tt), (refl, tt)), ((tt, tt), tt))

spec_entries_lem_example :
    InOrder (add_spec_entry letter_entry (home_entry ∷ cache_entry ∷ []))
    × InOrder (remove_spec_entry letter_entry (home_entry ∷ cache_entry ∷ []))
    × (remove_spec_entry letter_entry (add_spec_entry letter_entry (home_entry ∷ cache_entry ∷ []))
        ≡ (if any (λ x. is_same_spec_entry x letter_entry) (home_entry ∷ cache_entry ∷ [])
            then remove_spec_entry letter_entry (home_entry ∷ cache_entry ∷ [])
            else home_entry ∷ cache_entry ∷ []))
    × (any
          (λ x. is_same_spec_entry x letter_entry)
          (remove_spec_entry letter_entry (home_entry ∷ cache_entry ∷ []))
        ≡ false)
spec_entries_lem_example =
    spec_entries_lem letter_entry (home_entry ∷ cache_entry ∷ []) some_entries-InOrder
