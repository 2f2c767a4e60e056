-- ===== src/RestoreFiles/Panel.antt =====
-- A restore from its start to its end: `StartRestore` of src/RestoreProgressPanel.cc. What the
-- configuration, the server and the file system answer is given.
use boxi.Prelude.{
  ℕ, Bool, true, false, not, Option, none, some, List, [], ◌∷◌, ◌++◌, if◌then◌else◌, any,
}
use boxi.Prelude.Text.{Text}
use boxi.RestoreFiles.Cache.{Info, Epoch, get_most_recent}
use boxi.RestoreFiles.Spec.{Entry, address, is_same_spec_entry}
use boxi.RestoreFiles.Count.{Counting, Job, count_files_recursive}
use boxi.RestoreFiles.Fetch.{
  Disc, Restoring, Status, went_on, gave_up, escaped, reported, restore_files_recursive,
}
use boxi.RestoreFiles.LocalPath.{a_path, no_path, path_threw, path_crashed, make_local_path}

-- The configured values that were found, where they are: `InitTlsContext`, the store's host, the
-- file of keys, the account; and whether the destination directory could be made.
pub record Settings : Type 0 where
  pub inits_tls : Bool
  pub store_hostname : Text
  pub keys_file : Text
  pub account_number : Option ℕ
  -- Does `BackupClientCryptoKeys_Setup` return, rather than throw?
  pub sets_up_keys : Bool
  pub makes_destination : Bool

-- The message of an early return, or the exception of the keys' setting up, which leaves the
-- function.
pub data Refusal : Type 0 where
  cannot_init_encryption no_store_hostname no_keys_file no_account_number : Refusal
  keys_escaped cannot_create_destination : Refusal

-- The guards before the counters are reset.
unfoldable pub refusal : Settings → Option Refusal
refusal s = if not s.inits_tls then some cannot_init_encryption else elim s.store_hostname [
  | [] ↦ some no_store_hostname
  | _ ∷ _ ↦ elim s.keys_file [
    | [] ↦ some no_keys_file
    | _ ∷ _ ↦ elim s.account_number [
      | none ↦ some no_account_number
      | some n ↦
          if not s.sets_up_keys
          then some keys_escaped
          else if not s.makes_destination
          then some cannot_create_destination
          else none
    ]
  ]
]

-- The loop that counts: entries of the copy, less those that are no longer in the specification.
unfoldable pub count_entries : Job → List Entry → Counting → Counting
count_entries j [] c = c
count_entries j (e ∷ es) c =
    let skipped = count_entries j es c in
    let passed = count_entries j es (count_files_recursive j (address e) e.node c) in
    if not (any (λ x. is_same_spec_entry x e) c.entries)
    then skipped
    else if e.is_include
    then passed
    else skipped

-- How the loop that restores is left: at its end or by `break`, with `succeeded`, by an exception,
-- or by following NULL.
pub data LoopEnd : Type 0 where
  over : Bool → LoopEnd
  threw crashed : LoopEnd

-- `parentId` for the root, -1.
abbrev pub invalid_parent : ℕ
invalid_parent = 18446744073709551615

-- `parentId`; none where there is no most recent version to ask.
unfoldable pub parent_id : List Info → Option ℕ
parent_id [] = some invalid_parent
parent_id (i ∷ is) = elim (get_most_recent i) [ none ↦ none | some v ↦ some v.box_file_id ]

abbrev pub loop_end : Status → LoopEnd
loop_end went_on = over true
loop_end gave_up = over false
loop_end escaped = threw

abbrev pub and_next : Restoring × LoopEnd → (Restoring → Restoring × LoopEnd) → Restoring × LoopEnd
and_next (r, over true) go = go r
and_next (r, over false) go = (r, over false)
and_next (r, threw) go = (r, threw)
and_next (r, crashed) go = (r, crashed)

module _ (j : Job) (d : Disc) where
  -- What the loop does for an entry that includes; `es` is the specification.
  unfoldable pub restore_entry : List Entry → Text → Entry → Restoring → Restoring × LoopEnd
  restore_entry es base e r =
      let (r', path) = make_local_path d base e r in
      elim path [
        | no_path ↦ (r', over false)
        | path_threw ↦ (r', threw)
        | path_crashed ↦ (r', crashed)
        | a_path local ↦ elim (parent_id e.above) [
          | none ↦ (r', crashed)
          | some parent ↦
              let (r'', s) = restore_files_recursive j d es e.node parent local r' in
              (r'', loop_end s)
        ]
      ]

  -- The loop, with `succeeded`.
  unfoldable pub restore_entries :
      List Entry → Text → List Entry → Bool → Restoring → Restoring × LoopEnd
  restore_entries es base [] succeeded r = (r, over succeeded)
  restore_entries es base (e ∷ rest) succeeded r =
      and_next (if e.is_include then restore_entry es base e r else (r, over succeeded))
        (restore_entries es base rest true)

-- What `Connect` and `GetAccountUsage` answer: the block size where there is one.
pub data Account : Type 0 where
  block_size_of : ℕ → Account
  no_account connection_failed account_failed : Account

pub data Summary : Type 0 where
  starting_restore checking_account counting_files restoring_files restore_interrupted
        restore_failed restore_finished :
      Summary

-- The summaries shown one after the other, the counters, and the two flags.
pub record Shown : Type 0 where
  pub summaries : List Summary
  pub counted : Counting
  pub restored : Restoring
  pub restore_running : Bool
  pub restore_stop_requested : Bool

-- Behind the `try`: this happens however it ended.
unfoldable pub wind_up : List Summary → Counting → Restoring → Shown
wind_up ss c r = record {
  summaries = ss ++ (restore_finished ∷ []);
  counted = c;
  restored = r;
  restore_running = false;
  restore_stop_requested = false;
}

-- The summary for the end of the loop, in the `try` or in a `catch`; nothing behind a crash.
abbrev pub loop_summary : Bool → LoopEnd → Option Summary
loop_summary true (over b) = some restore_interrupted
loop_summary false (over false) = some restore_failed
loop_summary false (over true) = some restore_finished
loop_summary stopped threw = some restore_failed
loop_summary stopped crashed = none

-- The counters as `ResetCounters` leaves them, with the looks at the flag and the calls before.
unfoldable pub reset_counting : List Entry → Counting
reset_counting es = record { entries = es; files = 0; bytes = 0; polls = 0 }

unfoldable pub reset_restoring : ℕ → ℕ → Restoring
reset_restoring errors polls = record {
  fetched = [];
  files_done = 0;
  bytes_done = 0;
  errors = errors;
  calls = 0;
  polls = polls;
}

-- What stands behind the loop, where a stop was requested or not.
unfoldable pub show_end : Bool → Counting → Restoring × LoopEnd → Option Shown
show_end stopped c (r, ended) =
    let before = starting_restore ∷ checking_account ∷ counting_files ∷ restoring_files ∷ [] in
    elim (loop_summary stopped ended) [
      | none ↦ none
      | some s ↦ some (wind_up (before ++ (s ∷ [])) c (reported r))
    ]

-- The `try`, from where the account is known. The messages in the list of errors so far are
-- counted, and so is the one at the end.
unfoldable pub run_restore : Job → Disc → Text → List Entry → ℕ → Option Shown
run_restore j d base es messages =
    let c = count_entries j es (reset_counting es) in
    let left =
      restore_entries j d c.entries base c.entries false (reset_restoring messages c.polls) in
    show_end (j.stops left.0.polls) c left

-- It refused to start, or ran, unless it crashed.
pub data Ran : Type 0 where
  refused : Refusal → Ran
  shown : Option Shown → Ran

-- Behind the guards: the two catches, or the `try` to its end.
unfoldable pub start_with : (ℕ → Job) → Disc → Text → List Entry → Account → Ran
start_with job d base es connection_failed = shown (
    some
      (wind_up (starting_restore ∷ restore_failed ∷ []) (reset_counting es) (reset_restoring 1 0)))
start_with job d base es account_failed = shown (
    some (
      wind_up (starting_restore ∷ checking_account ∷ restore_failed ∷ []) (reset_counting es)
        (reset_restoring 1 0)))
start_with job d base es no_account = shown (run_restore (job 0) d base es 1)
start_with job d base es (block_size_of n) = shown (run_restore (job n) d base es 0)

unfoldable pub start_restore :
    (ℕ → Bool) → (ℕ → Bool) → Epoch → Disc → Settings → Account → Text → List Entry → Ran
start_restore stops lists t d s account base es = elim (refusal s) [
  | some why ↦ refused why
  | none ↦
      start_with (λ n. record { lists = lists; stops = stops; epoch = t; block_size = n }) d base es
        account
]
