-- ===== src/RestoreFiles/Cache.antt =====
-- The nodes that the program keeps of the server's directories: `ServerFileVersion` and
-- `ServerCacheNode` of include/RestoreFilesPanel.h and src/RestoreFilesPanel.cc, and the choice of a
-- version in src/RestoreProgressPanel.cc.
use boxi.Prelude.{ℕ, Bool, Option, none, some, List, [], ◌∷◌, if◌then◌else◌, ltb}
use boxi.Prelude.Text.{Text}

-- A `ServerFileVersion`; the time in seconds.
pub record Version : Type 0 where
  pub box_file_id : ℕ
  pub is_directory : Bool
  pub is_deleted : Bool
  pub size_in_blocks : ℕ
  pub date_time : ℕ
  pub has_attributes : Bool

-- What a `ServerCacheNode` holds, less its children. The address stands for the pointer.
pub record Info : Type 0 where
  pub address : ℕ
  pub file_name : Text
  pub full_path : Text
  pub is_root : Bool
  pub versions : List Version

-- A node with what `GetChildren` gives when it is restored, NULL for an unlisted one. A list that
-- was given is cached as long as the connection stands, so it does not change while it is walked.
mutual
  pub data Node : Type 0 where
    listed : Info → Nodes → Node
    unlisted : Info → Node

  pub data Nodes : Type 0 where
    no_nodes : Nodes
    a_node : Node → Nodes → Nodes

abbrev pub info : Node → Info
info (listed i ns) = i
info (unlisted i) = i

-- The loop of `GetMostRecent`, with `mpMostRecent`.
unfoldable pub most_recent_of : Option Version → List Version → Option Version
most_recent_of best [] = best
most_recent_of none (v ∷ vs) = most_recent_of (some v) vs
most_recent_of (some b) (v ∷ vs) =
    most_recent_of (some (if ltb b.box_file_id v.box_file_id then v else b)) vs

unfoldable pub get_most_recent : Info → Option Version
get_most_recent i = most_recent_of none i.versions

-- `mRestoreToDateEnabled` and `mRestoreToDate` of a `RestoreSpec`.
pub record Epoch : Type 0 where
  pub enabled : Bool
  pub date : ℕ

-- The loop of `GetVersionToRestore`, with `pVersion`.
unfoldable pub version_before : ℕ → Option Version → List Version → Option Version
version_before epoch best [] = best
version_before epoch none (v ∷ vs) =
    version_before epoch (if ltb epoch v.date_time then none else some v) vs
version_before epoch (some b) (v ∷ vs) =
    version_before epoch
      (some (if ltb epoch v.date_time then b else if ltb v.date_time b.date_time then b else v)) vs

unfoldable pub get_version_to_restore : Epoch → Info → Option Version
get_version_to_restore t i =
    if t.enabled then version_before t.date none i.versions else get_most_recent i
