-- ===== src/RestoreFiles/LocalPath.antt =====
-- The local name of an entry, with the directories above it: `MakeLocalPath` of
-- src/RestoreProgressPanel.cc. The destination directory has a name that is valid.
use boxi.Prelude.{
  ◌+◌, not, Option, none, some, List, [], ◌∷◌, ◌++◌, if◌then◌else◌, ◌==◌, find, text_eq,
}
use boxi.Prelude.Text.{Text}
use boxi.RestoreFiles.Cache.{Info, info, get_most_recent}
use boxi.RestoreFiles.Spec.{Entry}
use boxi.RestoreFiles.Fetch.{Disc, Restoring, called}

-- A name, an invalid `wxFileName`, an exception, or NULL where a node was looked for.
pub data PathResult : Type 0 where
  a_path : Text → PathResult
  no_path path_threw path_crashed : PathResult

-- The nodes from the target up, the loop with `pCurrentNode` looks at.
abbrev pub upwards : Entry → List Info
upwards e = info e.node ∷ e.above

abbrev pub below_name : Text → Text → Text
below_name directory [] = directory
below_name directory (c ∷ cs) = directory ++ (b'/' ∷ c ∷ cs)

module _ (d : Disc) where
  -- The attributes of the directory that the node stands for.
  unfoldable pub apply_attributes :
      Option Info → (Restoring → Restoring × PathResult) → Restoring → Restoring × PathResult
  apply_attributes none go r = (r, path_crashed)
  apply_attributes (some i) go r =
      let next = go (called r) in
      elim (get_most_recent i) [
        | none ↦ (r, no_path)
        | some v ↦
            if not v.has_attributes
            then go r
            else if d.writes_attributes r.calls
            then next
            else (called r, path_threw)
      ]

  -- `DirExists`, `wxMkdir` and the attributes, for a component of the path.
  unfoldable pub enter_directory :
      Entry
      → Text
      → Text
      → (Restoring → Restoring × PathResult)
      → Restoring
      → Restoring × PathResult
  enter_directory e out current go r =
      let node = find (λ i. text_eq i.full_path current) (upwards e) in
      let made = called (called r) in
      if d.is_there r.calls out
      then apply_attributes node go (called r)
      else if not (d.succeeds (r.calls + 1))
      then (made, no_path)
      else apply_attributes node go made

  -- The loop over `remainingPath`: `out` is `outName`, `current` is `currentPath`, and `component`
  -- what stands before the next slash, as far as it is read.
  unfoldable pub make_directories :
      Entry → Text → Text → Text → Text → Restoring → Restoring × PathResult
  make_directories e out current component [] r = (r, a_path (below_name out component))
  make_directories e out current component (c ∷ cs) r =
      let on = make_directories e out current (component ++ (c ∷ [])) cs r in
      let out' = below_name out component in
      let current' = current ++ (b'/' ∷ component) in
      let into = enter_directory e out' current' (make_directories e out' current' [] cs) r in
      if not (c == b'/') then on else elim component [ [] ↦ (r, no_path) | _ ∷ _ ↦ into ]

  unfoldable pub make_local_path : Text → Entry → Restoring → Restoring × PathResult
  make_local_path base e r = elim (info e.node).full_path [
    | [] ↦ (r, no_path)
    | c ∷ cs ↦ if c == b'/' then make_directories e base [] [] cs r else (r, no_path)
  ]
