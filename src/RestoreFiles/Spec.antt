-- ===== src/RestoreFiles/Spec.antt =====
-- `RestoreSpecEntry` and `RestoreSpec` of include/RestoreFilesPanel.h and src/RestoreFilesPanel.cc.
use boxi.Prelude.{ℕ, Bool, true, false, ◌&&◌, List, [], ◌∷◌, if◌then◌else◌, ltb, ◌==◌, any}
use boxi.Prelude.Text.{Text}
use boxi.RestoreFiles.Cache.{Info, Node, info}

-- An entry's node, with the nodes above it, the nearest first.
pub record Entry : Type 0 where
  pub node : Node
  pub above : List Info
  pub is_include : Bool

abbrev pub address : Entry → ℕ
address e = (info e.node).address

abbrev pub entry_path : Entry → Text
entry_path e = (info e.node).full_path

abbrev pub bool_eq : Bool → Bool → Bool
bool_eq true b = b
bool_eq false true = false
bool_eq false false = true

-- `RestoreSpecEntry::IsSameAs`.
abbrev pub is_same_spec_entry : Entry → Entry → Bool
is_same_spec_entry a b = address a == address b && bool_eq a.is_include b.is_include

-- `a.Cmp(b) > 0`.
unfoldable pub text_gt : Text → Text → Bool
text_gt [] b = false
text_gt (x ∷ xs) [] = true
text_gt (x ∷ xs) (y ∷ ys) =
    let rest = text_gt xs ys in if ltb y x then true else if x == y then rest else false

-- The second loop of `Add`, "add in correct position".
unfoldable pub insert_entry_sorted : Entry → List Entry → List Entry
insert_entry_sorted e [] = e ∷ []
insert_entry_sorted e (x ∷ xs) =
    let rest = insert_entry_sorted e xs in
    if text_gt (entry_path x) (entry_path e) then e ∷ x ∷ xs else x ∷ rest

-- `RestoreSpec::Add`.
unfoldable pub add_spec_entry : Entry → List Entry → List Entry
add_spec_entry e es = if any (λ x. is_same_spec_entry x e) es then es else insert_entry_sorted e es

-- `RestoreSpec::Remove`.
unfoldable pub remove_spec_entry : Entry → List Entry → List Entry
remove_spec_entry e [] = []
remove_spec_entry e (x ∷ xs) =
    let rest = remove_spec_entry e xs in if is_same_spec_entry x e then xs else x ∷ rest
