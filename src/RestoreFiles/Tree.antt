-- ===== src/RestoreFiles/Tree.antt =====
-- The states of the nodes in the tree and the click on one: `RestoreTreeNode::UpdateState` and
-- `RestoreFilesPanel::OnTreeNodeActivate` of src/RestoreFilesPanel.cc.
use boxi.Prelude.{
  ℕ, suc, Bool, true, false, ◌&&◌, not, Option, none, some, List, [], ◌∷◌, if◌then◌else◌, ◌==◌,
  get_elem?,
}
use boxi.RestoreFiles.Cache.{Info, Node}
use boxi.RestoreFiles.Spec.{Entry, address, bool_eq, add_spec_entry, remove_spec_entry}

abbrev pub mapped {ℓ κ} : {A : Type ℓ} {B : Type κ} → (A → B) → Option A → Option B
mapped f none = none
mapped f (some a) = some (f a)

-- What `UpdateState` keeps: `mpMatchingEntry`, which points into the vector of the entries, as a
-- position there, NULL as none; and `mIncluded`.
pub record TreeState : Type 0 where
  pub matching : Option ℕ
  pub is_included : Bool

-- The condition of the loop over the entries.
abbrev pub opposes : ℕ → Bool → Entry → Bool
opposes a b e = (address e == a) && not (bool_eq e.is_include b)

abbrev pub one_later : Option TreeState → Option TreeState
one_later none = none
one_later (some s) = some (record { matching = mapped suc s.matching; is_included = s.is_included })

-- The loop, none where it reaches the end.
unfoldable pub match_entry : ℕ → Bool → List Entry → Option TreeState
match_entry a b [] = none
match_entry a b (e ∷ es) =
    let rest = one_later (match_entry a b es) in
    if opposes a b e then some (record { matching = some 0; is_included = e.is_include }) else rest

abbrev pub or_inherit : TreeState → Option TreeState → TreeState
or_inherit p none = p
or_inherit p (some s) = s

-- `UpdateState` with the parents', for a node and those above it, the nearest first.
unfoldable pub update_state : List Entry → List Info → TreeState
update_state es [] = record { matching = none; is_included = false }
update_state es (i ∷ above) =
    let p = update_state es above in or_inherit p (match_entry i.address p.is_included es)

abbrev pub parent_state : List Entry → List Info → Option TreeState
parent_state es [] = none
parent_state es (i ∷ above) = some (update_state es (i ∷ above))

abbrev pub same_pointer : Option ℕ → Option ℕ → Bool
same_pointer none none = true
same_pointer none (some n) = false
same_pointer (some m) none = false
same_pointer (some m) (some n) = m == n

-- What the pointer shows in the vector as it is, none for NULL and past its end.
abbrev pub entry_at : List Entry → Option ℕ → Option Entry
entry_at es none = none
entry_at es (some k) = get_elem? es k

abbrev pub includes : Option Entry → Bool
includes none = false
includes (some e) = e.is_include

-- "does the entry apply specifically to this item?"
unfoldable pub is_own : List Entry → Option TreeState → TreeState → Bool
is_own es none s = includes (entry_at es s.matching)
is_own es (some p) s = not (same_pointer p.matching s.matching)

-- The sense of the new entry, none where the pointer cannot be followed.
abbrev pub new_sense : List Entry → Option ℕ → Option Bool
new_sense es none = some true
new_sense es (some k) = mapped (λ e. not e.is_include) (get_elem? es k)

abbrev pub new_entry : Node → List Info → Bool → Entry
new_entry n above b = record { node = n; above = above; is_include = b }

-- `OnTreeNodeActivate`: the entries behind it, none where the pointer cannot be followed.
unfoldable pub activate :
    Node → List Info → Option TreeState → TreeState → List Entry → Option (List Entry)
activate n above parent s es =
    if is_own es parent s
    then mapped (λ e. remove_spec_entry e es) (entry_at es s.matching)
    else mapped (λ b. add_spec_entry (new_entry n above b) es) (new_sense es s.matching)
