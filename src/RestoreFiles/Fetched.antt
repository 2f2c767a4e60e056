-- ===== src/RestoreFiles/Fetched.antt =====
-- What a restore from a node fetches, against what the specification selects.
use boxi.Prelude.{
  ℕ, ◌+◌, ◌≡◌, ◌≢◌, refl, true, false, not, Option, none, some, List, [], ◌∷◌, ◌++◌, if◌then◌else◌,
  if_both, if_either, arith,
}
use boxi.Prelude.Text.{Text}
use boxi.RestoreFiles.Cache.{
  Version, Info, Node, Nodes, listed, unlisted, no_nodes, a_node, info, get_version_to_restore,
}
use boxi.RestoreFiles.Spec.{Entry}
use boxi.RestoreFiles.Count.{Job}
use boxi.RestoreFiles.Fetch.{
  Disc, FetchedFile, Restoring, Status, went_on, gave_up, escaped, called, reported, child_name,
  Matched, is_excluded, is_missing, is_wanted, match_entries, write_attributes, done_with,
  fetch_one, make_directory_at, restore_version, restore_new, is_some, with_version, on_match,
  restore_at, restore_files_recursive, restore_children,
}
use boxi.RestoreFiles.Selected.{
  Planned, excludes, plan_version, plan_at, plan, plan_all, match-is_excluded, match-is_wanted,
}
use boxi.RestoreFiles.FetchedAs.{
  Same, Same-refl, Same-called, PartOf, FetchedAs, FetchedAs-nothing, FetchedAs-halted,
  FetchedAs-from, and_then-FetchedAs,
}

gave_up≢went_on : gave_up ≢ went_on
gave_up≢went_on h = cc

module _ (j : Job) (d : Disc) where
  -- The result of writing attributes is one of three.
  write_attributes_either :
      (P : Restoring × Status → Type 0) (v : Version) (go : Restoring → Restoring × Status)
      (r : Restoring)
      → P (go r)
      → P (go (called r))
      → P (called r, escaped)
      → P (write_attributes j d v go r)
  unfolding write_attributes
  write_attributes_either P v go r plain written thrown =
      if_either P (not v.has_attributes) plain
        (if_either P (d.writes_attributes r.calls) written thrown)

  fetch_one-FetchedAs :
      (parent : ℕ) (local : Text) (v : Version) (r : Restoring)
      → FetchedAs j
          (record {
            file = record { parent_id = parent; file_id = v.box_file_id; local_name = local };
            blocks = v.size_in_blocks;
          }
            ∷ [])
          r
          (fetch_one j d parent local v r)
  unfolding fetch_one
  fetch_one-FetchedAs parent local v r =
      let file : FetchedFile = record {
        parent_id = parent;
        file_id = v.box_file_id;
        local_name = local;
      } in
      let ps : List Planned = record { file = file; blocks = v.size_in_blocks } ∷ [] in
      let got = record (called r) { fetched = r.fetched ++ (file ∷ []) } in
      let part : PartOf ps r got = record {
        new = file ∷ [];
        left = [];
        planned = refl;
        fetched = refl;
      } in
      let all : FetchedAs j ps r (done_with j d v got) = record {
        when_done = λ e. record { fetched = refl; files = omega arith; bytes = omega arith };
        always = record { new = file ∷ []; left = []; planned = refl; fetched = refl };
      } in
      let P = FetchedAs j ps r in
      if_either P (not (d.succeeds r.calls))
        (FetchedAs-halted j ps r (called r) gave_up (Same-called r) gave_up≢went_on)
        (write_attributes_either P v (done_with j d v) got all
          (record {
            when_done = λ e. record { fetched = refl; files = omega arith; bytes = omega arith };
            always = record { new = file ∷ []; left = []; planned = refl; fetched = refl };
          })
          (record {
            when_done = λ e. cc;
            always = record { new = file ∷ []; left = []; planned = refl; fetched = refl };
          }))

  -- What restoring a directory's children has to give.
  abbrev Below : (ℕ → List Planned) → (ℕ → Restoring → Restoring × Status) → Type 0
  Below ps below = (id : ℕ) (r : Restoring) → FetchedAs j (ps id) r (below id r)

  make_directory_at-FetchedAs :
      (i : Info) (v : Version) (ps : List Planned) (go : Restoring → Restoring × Status)
      (r : Restoring)
      → ((r' : Restoring) → FetchedAs j ps r' (go r'))
      → FetchedAs j ps r (make_directory_at j d i v go r)
  unfolding make_directory_at
  make_directory_at-FetchedAs i v ps go r h =
      let P = FetchedAs j ps r in
      let r' = called r in
      let r'' = called r' in
      let one : Same r r' = Same-called r in
      let two : Same r r'' = record { fetched = refl; files = refl; bytes = refl } in
      let three : Same r (reported r') = record { fetched = refl; files = refl; bytes = refl } in
      if_either P i.is_root (h r) (
        if_either P (not (d.succeeds r.calls))
          (FetchedAs-halted j ps r (reported r') gave_up three (λ e. cc))
          (write_attributes_either P v go r' (FetchedAs-from j ps r r' (go r') one (h r'))
            (FetchedAs-from j ps r r'' (go r'') two (h r''))
            (FetchedAs-halted j ps r r'' escaped two (λ e. cc))))

  restore_new-FetchedAs :
      (i : Info) (parent : ℕ) (local : Text) (v : Version) (ps : ℕ → List Planned)
      (below : ℕ → Restoring → Restoring × Status) (r : Restoring)
      → Below ps below
      → FetchedAs j (plan_version v parent local ps) r (restore_new j d i parent local v below r)
  unfolding restore_new restore_version
  restore_new-FetchedAs i parent local v ps below r h =
      let once : (r' : Restoring)
          → FetchedAs j (plan_version v parent local ps) r'
              (restore_version j d i parent local v below r') =
        λ r'.
          let R = λ (qs : List Planned) (o : Restoring × Status). FetchedAs j qs r' o in
          if_both R v.is_deleted (FetchedAs-nothing j r' r' (Same-refl r')) (
            if_both R v.is_directory
              (make_directory_at-FetchedAs i v (ps v.box_file_id) (below v.box_file_id) r'
                (h v.box_file_id))
              (fetch_one-FetchedAs parent local v r')) in
      let planned = plan_version v parent local ps in
      let halted : Same r (reported (called r)) = record {
        fetched = refl;
        files = refl;
        bytes = refl;
      } in
      if_either (FetchedAs j planned r) i.is_root (once r) (
        if_either (FetchedAs j planned r) (d.is_there r.calls local)
          (FetchedAs-halted j planned r (reported (called r)) gave_up halted (λ e. cc))
          (FetchedAs-from j planned r (called r) _ (Same-called r) (once (called r))))

  restore_at-FetchedAs :
      (es : List Entry) (i : Info) (parent : ℕ) (local : Text) (ps : ℕ → List Planned)
      (below : ℕ → Restoring → Restoring × Status) (r : Restoring)
      → Below ps below
      → FetchedAs j
          (plan_at (excludes es) j.epoch i parent local ps)
          r
          (restore_at j d es i parent local below r)
  unfolding restore_at
  restore_at-FetchedAs es i parent local ps below r h =
      let v = get_version_to_restore j.epoch i in
      if_either (FetchedAs j (plan_at (excludes es) j.epoch i parent local ps) r) (j.stops r.polls)
        (FetchedAs-halted j _ r looked gave_up same (λ e. cc))
        (by_match v (match_entries i.address (is_some v) es) refl)
    where
      looked : Restoring
      looked = record r { polls = r.polls + 1 }

      same : Same r looked
      same = record { fetched = refl; files = refl; bytes = refl }

      missed : Same r (reported looked)
      missed = record { fetched = refl; files = refl; bytes = refl }

      by_match :
          (o : Option Version) (m : Matched)
          → match_entries i.address (is_some o) es ≡ m
          → FetchedAs j
              (if excludes es i.address
                then []
                else elim o [ none ↦ [] | some v ↦ plan_version v parent local ps ])
              r
              (on_match m (with_version j d o i parent local below) looked)
      by_match o is_excluded e =
          rw (match-is_excluded i.address (is_some o) es e) (FetchedAs-nothing j r looked same)
      by_match o is_missing e = FetchedAs-halted j _ r (reported looked) gave_up missed (λ e'. cc)
      by_match none is_wanted e =
          rw (match-is_wanted i.address false es e) (FetchedAs-nothing j r looked same)
      by_match (some v) is_wanted e = rw (match-is_wanted i.address true es e) (
          FetchedAs-from j (plan_version v parent local ps) r looked _ same
            (restore_new-FetchedAs i parent local v ps below looked h))

  mutual
    unfolding restore_files_recursive restore_children

    -- A restore from a node fetches what the specification selects below it: all of it, in that
    -- order and counted, where it returns true, and otherwise the first part.
    pub restore_files_recursive-FetchedAs :
        (es : List Entry) (n : Node) (parent : ℕ) (local : Text) (r : Restoring)
        → FetchedAs j
            (plan (excludes es) j.epoch n parent local)
            r
            (restore_files_recursive j d es n parent local r)
    restore_files_recursive-FetchedAs es (listed i ns) parent local r =
        restore_at-FetchedAs es i parent local (plan_all (excludes es) j.epoch ns local)
          (restore_children j d es ns local) r
          (λ id r'. restore_children-FetchedAs es ns local id r')
    restore_files_recursive-FetchedAs es (unlisted i) parent local r =
        restore_at-FetchedAs es i parent local (λ id. []) (λ id r'. (r', gave_up)) r
          (λ id r'. FetchedAs-halted j [] r' r' gave_up (Same-refl r') (λ e. cc))

    pub restore_children-FetchedAs :
        (es : List Entry) (ns : Nodes) (local : Text) (id : ℕ) (r : Restoring)
        → FetchedAs j
            (plan_all (excludes es) j.epoch ns local id)
            r
            (restore_children j d es ns local id r)
    restore_children-FetchedAs es no_nodes local id r = FetchedAs-nothing j r r (Same-refl r)
    restore_children-FetchedAs es (a_node n ns) local id r =
        let name = child_name local (info n) in
        and_then-FetchedAs j (plan (excludes es) j.epoch n id name)
          (plan_all (excludes es) j.epoch ns local id) r
          (restore_files_recursive j d es n id name r) (restore_children j d es ns local id)
          (restore_files_recursive-FetchedAs es n id name r)
          (λ r'. restore_children-FetchedAs es ns local id r')
