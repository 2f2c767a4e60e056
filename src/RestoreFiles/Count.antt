-- ===== src/RestoreFiles/Count.antt =====
-- Counting the files to restore: `CountFilesRecursive` of src/RestoreProgressPanel.cc, and the
-- counters of src/ProgressPanel.cc.
use boxi.Prelude.{
  ℕ, ◌+◌, ◌*◌, Bool, true, false, ◌&&◌, not, none, some, List, [], ◌∷◌, if◌then◌else◌, ◌==◌,
}
use boxi.RestoreFiles.Cache.{
  Version, Info, Node, Nodes, listed, unlisted, no_nodes, a_node, Epoch, get_version_to_restore,
}
use boxi.RestoreFiles.Spec.{Entry, address, remove_spec_entry}

-- `mNumFilesCounted` and `mNumBytesCounted`, the entries of the specification, and how often
-- `mRestoreStopRequested` was looked at.
pub record Counting : Type 0 where
  pub entries : List Entry
  pub files : ℕ
  pub bytes : ℕ
  pub polls : ℕ

abbrev pub polled : Counting → Counting
polled c = record c { polls = c.polls + 1 }

-- `NotifyMoreFilesCounted`.
unfoldable pub notify_more_files_counted : ℕ → ℕ → Counting → Counting
notify_more_files_counted files bytes c = record c {
  files = c.files + files;
  bytes = c.bytes + bytes;
}

-- The loop over the entries, a copy: redundant ones are removed from the specification; the second
-- result is that the node is excluded.
unfoldable pub check_entries : ℕ → ℕ → List Entry → Counting → Counting × Bool
check_entries root current [] c = (c, false)
check_entries root current (e ∷ es) c =
    let rest = check_entries root current es c in
    let removed =
      check_entries root current es (record c { entries = remove_spec_entry e c.entries }) in
    if not (address e == current)
    then rest
    else if e.is_include && not (current == root)
    then removed
    else if not e.is_include
    then (c, true)
    else rest

-- What does not change: `mRestoreStopRequested`, as it is found the n-th time, the version that is
-- asked for, and the block size. `lists` is whether the listing of a directory succeeds while counting: one
-- that failed is asked for again when the directory is restored, and `Node` has what it gives then.
pub record Job : Type 0 where
  pub lists : ℕ → Bool
  pub stops : ℕ → Bool
  pub epoch : Epoch
  pub block_size : ℕ

module _ (j : Job) where
  -- Behind the loop over the entries, for a version; the children are counted by `below`.
  unfoldable pub count_version : Version → (Counting → Counting) → Counting × Bool → Counting
  count_version v below (c, excluded) =
      if excluded
      then c
      else if v.is_deleted
      then c
      else if v.is_directory
      then below c
      else notify_more_files_counted 1 (v.size_in_blocks * j.block_size) c

  -- The function, with its recursion as a parameter.
  unfoldable pub count_at : ℕ → Info → (Counting → Counting) → Counting → Counting
  count_at root i below c =
      if j.stops c.polls then polled c else elim (get_version_to_restore j.epoch i) [
        | none ↦ polled c
        | some v ↦ count_version v below (check_entries root i.address c.entries (polled c))
      ]

  unfoldable mutual
    pub count_files_recursive : ℕ → Node → Counting → Counting
    count_files_recursive root (listed i ns) c =
        let children = count_children root ns in
        count_at root i (λ c'. if j.lists i.address then children c' else c') c
    count_files_recursive root (unlisted i) c = count_at root i (λ c'. c') c

    pub count_children : ℕ → Nodes → Counting → Counting
    count_children root no_nodes c = c
    count_children root (a_node n ns) c = count_children root ns (count_files_recursive root n c)
