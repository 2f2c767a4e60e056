-- ===== src/RestoreFiles/Undisturbed.antt =====
-- A restore from a node, where nothing is in its way.
use boxi.Prelude.{
  ℕ, ◌≡◌, refl, Bool, true, false, not, ◌&&◌, Option, none, some, List, if_either, arith,
}
use boxi.Prelude.Text.{Text}
use boxi.RestoreFiles.Cache.{
  Version, Info, Node, Nodes, listed, unlisted, no_nodes, a_node, info, Epoch,
  get_version_to_restore,
}
use boxi.RestoreFiles.Spec.{Entry}
use boxi.RestoreFiles.Count.{Job}
use boxi.RestoreFiles.Fetch.{
  Disc, Restoring, Status, went_on, gave_up, escaped, called, child_name, Matched, is_excluded,
  is_missing, is_wanted, match_entries, write_attributes, done_with, fetch_one, make_directory_at,
  restore_version, restore_new, is_some, with_version, on_match, restore_at, and_then,
  restore_files_recursive, restore_children,
}
use boxi.RestoreFiles.FetchedAs.{AllOf}
use boxi.RestoreFiles.Fetched.{restore_files_recursive-FetchedAs}
use boxi.RestoreFiles.Selected.{excludes, plan}

-- No name is taken, and every call succeeds.
pub record Undisturbed (d : Disc) : Type 0 where
  pub free : (n : ℕ) (name : Text) → d.is_there n name ≡ false
  pub succeeds : (n : ℕ) → d.succeeds n ≡ true
  pub writes_attributes : (n : ℕ) → d.writes_attributes n ≡ true

abbrev found : Matched → Bool
found is_excluded = true
found is_missing = false
found is_wanted = true

-- Every node can be listed, and has a version where an entry includes it.
abbrev mutual
  pub available : Epoch → List Entry → Node → Bool
  available t es (listed i ns) =
      found (match_entries i.address (is_some (get_version_to_restore t i)) es)
      && all_available t es ns
  available t es (unlisted i) = false

  pub all_available : Epoch → List Entry → Nodes → Bool
  all_available t es no_nodes = true
  all_available t es (a_node n ns) = available t es n && all_available t es ns

abbrev Goes : Restoring × Status → Type 0
Goes o = o.1 ≡ went_on

module _ (j : Job) (d : Disc) (u : Undisturbed d) where
  write_attributes-Goes :
      (v : Version) (go : Restoring → Restoring × Status) (r : Restoring)
      → ((r' : Restoring) → Goes (go r'))
      → Goes (write_attributes j d v go r)
  unfolding write_attributes
  write_attributes-Goes v go r h =
      if_either Goes (not v.has_attributes) (h r) (rw (u.writes_attributes r.calls) (h (called r)))

  restore_version-Goes :
      (i : Info) (parent : ℕ) (local : Text) (v : Version)
      (below : ℕ → Restoring → Restoring × Status) (r : Restoring)
      → ((id : ℕ) (r' : Restoring) → Goes (below id r'))
      → Goes (restore_version j d i parent local v below r)
  unfolding restore_version make_directory_at fetch_one
  restore_version-Goes i parent local v below r h = if_either Goes v.is_deleted refl (
      if_either Goes v.is_directory
        (if_either Goes i.is_root (h v.box_file_id r) (
          rw (u.succeeds r.calls)
            (write_attributes-Goes v (below v.box_file_id) (called r) (h v.box_file_id))))
        (rw (u.succeeds r.calls) (write_attributes-Goes v (done_with j d v) _ (λ r'. refl))))

  restore_new-Goes :
      (i : Info) (parent : ℕ) (local : Text) (v : Version)
      (below : ℕ → Restoring → Restoring × Status) (r : Restoring)
      → ((id : ℕ) (r' : Restoring) → Goes (below id r'))
      → Goes (restore_new j d i parent local v below r)
  unfolding restore_new
  restore_new-Goes i parent local v below r h =
      if_either Goes i.is_root (restore_version-Goes i parent local v below r h)
        (rw (u.free r.calls local) (restore_version-Goes i parent local v below (called r) h))

  on_match-Goes :
      (m : Matched) (o : Option Version) (i : Info) (parent : ℕ) (local : Text)
      (below : ℕ → Restoring → Restoring × Status) (r : Restoring)
      → found m ≡ true
      → ((id : ℕ) (r' : Restoring) → Goes (below id r'))
      → Goes (on_match m (with_version j d o i parent local below) r)
  on_match-Goes is_excluded o i parent local below r f h = refl
  on_match-Goes is_missing o i parent local below r f h = cc
  on_match-Goes is_wanted none i parent local below r f h = refl
  on_match-Goes is_wanted (some v) i parent local below r f h =
      restore_new-Goes i parent local v below r h

  and_then-Goes :
      (o : Restoring × Status) (go : Restoring → Restoring × Status)
      → Goes o
      → ((r' : Restoring) → Goes (go r'))
      → Goes (and_then o go)
  and_then-Goes (r, went_on) go f h = h r
  and_then-Goes (r, gave_up) go f h = cc
  and_then-Goes (r, escaped) go f h = cc

  module _ (calm : (k : ℕ) → j.stops k ≡ false) (es : List Entry) where
    mutual
      unfolding restore_files_recursive restore_children restore_at

      restore_files_recursive-Goes :
          (n : Node) (parent : ℕ) (local : Text) (r : Restoring)
          → available j.epoch es n ≡ true
          → Goes (restore_files_recursive j d es n parent local r)
      restore_files_recursive-Goes (listed i ns) parent local r f = rw (calm r.polls) (
          on_match-Goes (match_entries i.address (is_some (get_version_to_restore j.epoch i)) es)
            (get_version_to_restore j.epoch i) i parent local (restore_children j d es ns local) _
            (ground arith) (λ id r'. restore_children-Goes ns local id r' (ground arith)))
      restore_files_recursive-Goes (unlisted i) parent local r f = cc

      restore_children-Goes :
          (ns : Nodes) (local : Text) (id : ℕ) (r : Restoring)
          → all_available j.epoch es ns ≡ true
          → Goes (restore_children j d es ns local id r)
      restore_children-Goes no_nodes local id r f = refl
      restore_children-Goes (a_node n ns) local id r f =
          and_then-Goes (restore_files_recursive j d es n id (child_name local (info n)) r)
            (restore_children j d es ns local id)
            (restore_files_recursive-Goes n id (child_name local (info n)) r (ground arith))
            (λ r'. restore_children-Goes ns local id r' (ground arith))

-- Where no stop is requested, no name is taken, every call succeeds, and every node can be listed
-- and has a version where an entry includes it, a restore from a node fetches and counts all that
-- the specification selects below it.
pub restore_files_recursive_completes :
    (j : Job) (d : Disc) (es : List Entry) (n : Node) (parent : ℕ) (local : Text) (r : Restoring)
    → Undisturbed d
    → ((k : ℕ) → j.stops k ≡ false)
    → available j.epoch es n ≡ true
    → AllOf j
        (plan (excludes es) j.epoch n parent local)
        r
        (restore_files_recursive j d es n parent local r).0
restore_files_recursive_completes j d es n parent local r u calm f =
    (restore_files_recursive-FetchedAs j d es n parent local r).when_done
      (restore_files_recursive-Goes j d u calm es n parent local r f)
