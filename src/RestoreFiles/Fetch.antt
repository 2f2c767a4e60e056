-- ===== src/RestoreFiles/Fetch.antt =====
-- Restoring the files: `RestoreFilesRecursive` of src/RestoreProgressPanel.cc. What the file system
-- and the server answer is `Disc`, by the number of calls made before.
use boxi.Prelude.{
  ℕ, ◌+◌, ◌*◌, Bool, true, false, not, Option, none, some, List, [], ◌∷◌, ◌++◌, if◌then◌else◌, ◌==◌,
}
use boxi.Prelude.Text.{Text}
use boxi.RestoreFiles.Cache.{
  Version, Info, Node, Nodes, listed, unlisted, no_nodes, a_node, info, get_version_to_restore,
}
use boxi.RestoreFiles.Spec.{Entry, address}
use boxi.RestoreFiles.Count.{Job}

pub record Disc : Type 0 where
  -- Is there a file or a directory of that name, as call number n?
  pub is_there : ℕ → Text → Bool
  -- Does `wxMkdir`, or `GetFile`, succeed as call number n?
  pub succeeds : ℕ → Bool
  -- Does `WriteAttributes` return, rather than throw, as call number n?
  pub writes_attributes : ℕ → Bool

-- A file that was fetched: the object and its directory on the server, and its local name.
pub record FetchedFile : Type 0 where
  pub parent_id : ℕ
  pub file_id : ℕ
  pub local_name : Text

-- The files fetched so far, the latest last, `mNumFilesDone` and `mNumBytesDone`, the number of
-- messages in the list of errors, of calls, and of looks at `mRestoreStopRequested`.
pub record Restoring : Type 0 where
  pub fetched : List FetchedFile
  pub files_done : ℕ
  pub bytes_done : ℕ
  pub errors : ℕ
  pub calls : ℕ
  pub polls : ℕ

-- It returned true or false, or an exception left it.
pub data Status : Type 0 where
  went_on gave_up escaped : Status

abbrev pub called : Restoring → Restoring
called r = record r { calls = r.calls + 1 }

abbrev pub reported : Restoring → Restoring
reported r = record r { errors = r.errors + 1 }

-- The name below a directory.
abbrev pub child_name : Text → Info → Text
child_name local i = local ++ (b'/' ∷ i.file_name)

-- The loop over the entries: excluded, or included with no version, or neither.
pub data Matched : Type 0 where
  is_excluded is_missing is_wanted : Matched

unfoldable pub match_entries : ℕ → Bool → List Entry → Matched
match_entries current has_version [] = is_wanted
match_entries current has_version (e ∷ es) =
    let rest = match_entries current has_version es in
    if not (address e == current)
    then rest
    else if not e.is_include
    then is_excluded
    else if not has_version
    then is_missing
    else rest

abbrev pub is_some : Option Version → Bool
is_some none = false
is_some (some v) = true

abbrev pub on_match : Matched → (Restoring → Restoring × Status) → Restoring → Restoring × Status
on_match is_excluded go r = (r, went_on)
on_match is_missing go r = (reported r, gave_up)
on_match is_wanted go r = go r

abbrev pub and_then : Restoring × Status → (Restoring → Restoring × Status) → Restoring × Status
and_then (r, went_on) go = go r
and_then (r, gave_up) go = (r, gave_up)
and_then (r, escaped) go = (r, escaped)

module _ (j : Job) (d : Disc) where
  -- `WriteAttributes`, where the version has attributes, and what follows it.
  unfoldable pub write_attributes :
      Version → (Restoring → Restoring × Status) → Restoring → Restoring × Status
  write_attributes v go r =
      let next = go (called r) in
      if not v.has_attributes
      then go r
      else if d.writes_attributes r.calls
      then next
      else (called r, escaped)

  abbrev pub done_with : Version → Restoring → Restoring × Status
  done_with v r = (
    record r {
      files_done = r.files_done + 1;
      bytes_done = r.bytes_done + v.size_in_blocks * j.block_size;
    },
    went_on,
  )

  -- `GetFile` and what follows it, for a file.
  unfoldable pub fetch_one : ℕ → Text → Version → Restoring → Restoring × Status
  fetch_one parent local v r =
      let got = record (called r) {
        fetched =
            r.fetched
            ++ (record { parent_id = parent; file_id = v.box_file_id; local_name = local } ∷ []);
      } in
      if not (d.succeeds r.calls) then (called r, gave_up) else write_attributes v (done_with v) got

  -- `wxMkdir` and the attributes, which the root directory is spared.
  unfoldable pub make_directory_at :
      Info → Version → (Restoring → Restoring × Status) → Restoring → Restoring × Status
  make_directory_at i v go r =
      if i.is_root
      then go r
      else if not (d.succeeds r.calls)
      then (reported (called r), gave_up)
      else write_attributes v go (called r)

  -- For a version, the object not being there; the children are restored by `below`.
  unfoldable pub restore_version :
      Info
      → ℕ
      → Text
      → Version
      → (ℕ → Restoring → Restoring × Status)
      → Restoring
      → Restoring × Status
  restore_version i parent local v below r =
      if v.is_deleted
      then (r, went_on)
      else if v.is_directory
      then make_directory_at i v (below v.box_file_id) r
      else fetch_one parent local v r

  -- "The restore root directory always exists".
  unfoldable pub restore_new :
      Info
      → ℕ
      → Text
      → Version
      → (ℕ → Restoring → Restoring × Status)
      → Restoring
      → Restoring × Status
  restore_new i parent local v below r =
      let fresh = restore_version i parent local v below (called r) in
      if i.is_root
      then restore_version i parent local v below r
      else if d.is_there r.calls local
      then (reported (called r), gave_up)
      else fresh

  abbrev pub with_version :
      Option Version
      → Info
      → ℕ
      → Text
      → (ℕ → Restoring → Restoring × Status)
      → Restoring
      → Restoring × Status
  with_version none i parent local below r = (r, went_on)
  with_version (some v) i parent local below r = restore_new i parent local v below r

  -- The function, with its recursion as a parameter.
  unfoldable pub restore_at :
      List Entry
      → Info
      → ℕ
      → Text
      → (ℕ → Restoring → Restoring × Status)
      → Restoring
      → Restoring × Status
  restore_at es i parent local below r =
      let r' = record r { polls = r.polls + 1 } in
      let v = get_version_to_restore j.epoch i in
      if j.stops r.polls
      then (r', gave_up)
      else on_match (match_entries i.address (is_some v) es) (with_version v i parent local below)
          r'

  unfoldable mutual
    pub restore_files_recursive : List Entry → Node → ℕ → Text → Restoring → Restoring × Status
    restore_files_recursive es (listed i ns) parent local r =
        restore_at es i parent local (restore_children es ns local) r
    restore_files_recursive es (unlisted i) parent local r =
        restore_at es i parent local (λ id r'. (r', gave_up)) r

    pub restore_children : List Entry → Nodes → Text → ℕ → Restoring → Restoring × Status
    restore_children es no_nodes local id r = (r, went_on)
    restore_children es (a_node n ns) local id r =
        and_then (restore_files_recursive es n id (child_name local (info n)) r)
          (restore_children es ns local id)
