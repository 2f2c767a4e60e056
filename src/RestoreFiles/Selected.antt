-- ===== src/RestoreFiles/Selected.antt =====
-- Which files a specification selects below a node, whatever order they are visited in.
use boxi.Prelude.{
  ℕ, ◌+◌, ◌*◌, ◌≡◌, refl, Bool, true, false, ◌&&◌, not, none, some, List, [], ◌∷◌, ◌++◌,
  if◌then◌else◌, ◌==◌, any, arith,
}
use boxi.Prelude.Text.{Text}
use boxi.RestoreFiles.Cache.{
  Version, Info, Node, Nodes, listed, unlisted, no_nodes, a_node, info, Epoch,
  get_version_to_restore,
}
use boxi.RestoreFiles.Spec.{Entry, address, remove_spec_entry}
use boxi.RestoreFiles.Fetch.{
  FetchedFile, child_name, is_excluded, is_missing, is_wanted, match_entries,
}

-- A file to fetch, with its size in blocks.
pub record Planned : Type 0 where
  pub file : FetchedFile
  pub blocks : ℕ

abbrev pub files_of : List Planned → List FetchedFile
files_of [] = []
files_of (p ∷ ps) = p.file ∷ files_of ps

-- The bytes of planned files, for a block size.
abbrev pub bytes_of : ℕ → List Planned → ℕ
bytes_of block_size [] = 0
bytes_of block_size (p ∷ ps) = p.blocks * block_size + bytes_of block_size ps

pub bytes_of-append :
    (block_size : ℕ) (ps qs : List Planned)
    → bytes_of block_size (ps ++ qs) ≡ bytes_of block_size ps + bytes_of block_size qs
bytes_of-append block_size [] qs = omega arith
bytes_of-append block_size (p ∷ ps) qs = omega (arith, bytes_of-append block_size ps qs)

-- Does the specification exclude the node of this address?
abbrev pub excludes : List Entry → ℕ → Bool
excludes es a = any (λ e. address e == a && not e.is_include) es

abbrev pub plan_version : Version → ℕ → Text → (ℕ → List Planned) → List Planned
plan_version v parent local below =
    if v.is_deleted
    then []
    else if v.is_directory
    then below v.box_file_id
    else (record {
      file = record { parent_id = parent; file_id = v.box_file_id; local_name = local };
      blocks = v.size_in_blocks;
    }
        ∷ [])

abbrev pub plan_at : (ℕ → Bool) → Epoch → Info → ℕ → Text → (ℕ → List Planned) → List Planned
plan_at ex t i parent local below = if ex i.address then [] else elim (get_version_to_restore t i) [
  | none ↦ []
  | some v ↦ plan_version v parent local below
]

-- The live files below a node, of which no directory on the way is excluded, deleted or absent.
abbrev mutual
  pub plan : (ℕ → Bool) → Epoch → Node → ℕ → Text → List Planned
  plan ex t (listed i ns) parent local = plan_at ex t i parent local (plan_all ex t ns local)
  plan ex t (unlisted i) parent local = plan_at ex t i parent local (λ id. [])

  pub plan_all : (ℕ → Bool) → Epoch → Nodes → Text → ℕ → List Planned
  plan_all ex t no_nodes local id = []
  plan_all ex t (a_node n ns) local id =
      plan ex t n id (child_name local (info n)) ++ plan_all ex t ns local id

module _ (a : ℕ) (has_version : Bool) where
  pub match-is_excluded :
      (es : List Entry) → match_entries a has_version es ≡ is_excluded → excludes es a ≡ true
  unfolding match_entries
  match-is_excluded [] h = cc
  match-is_excluded (e ∷ es) h = ground (arith, match-is_excluded es)

  pub match-is_wanted :
      (es : List Entry) → match_entries a has_version es ≡ is_wanted → excludes es a ≡ false
  unfolding match_entries
  match-is_wanted [] h = refl
  match-is_wanted (e ∷ es) h = ground (arith, match-is_wanted es)

  pub match-is_missing :
      (es : List Entry) → match_entries a has_version es ≡ is_missing → has_version ≡ false
  unfolding match_entries
  match-is_missing [] h = cc
  match-is_missing (e ∷ es) h = ground (arith, match-is_missing es)

pub remove-excludes :
    (e : Entry) (es : List Entry) (a : ℕ)
    → e.is_include ≡ true
    → excludes (remove_spec_entry e es) a ≡ excludes es a
unfolding remove_spec_entry
remove-excludes e [] a h = refl
remove-excludes e (x ∷ xs) a h = ground (arith, remove-excludes e xs a)
