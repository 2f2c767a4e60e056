-- ===== src/RestoreFiles/Toggled.antt =====
-- What a click on a node of the tree does to the states.
use mathlib.Core.Path.{subst}
use boxi.Prelude.{
  ℕ, ◌≡◌, ◌≢◌, refl, sym, ap, ◌∙◌, inl, inr, Bool, true, false, ◌||◌, not, Option, none, some, List,
  [], ◌∷◌, ◌==◌, any, if_known, if_either, arith,
}
use boxi.RestoreFiles.Cache.{Info, Node, info}
use boxi.RestoreFiles.Spec.{
  Entry, address, is_same_spec_entry, text_gt, entry_path, insert_entry_sorted, add_spec_entry,
  remove_spec_entry,
}
use boxi.RestoreFiles.Entries.{
  InOrder, add_spec_entry-InOrder, remove_spec_entry-InOrder, any-remove,
}
use boxi.RestoreFiles.Tree.{
  TreeState, opposes, match_entry, or_inherit, update_state, parent_state, entry_at, is_own,
  new_sense, new_entry, activate, mapped,
}
use boxi.RestoreFiles.TreeStates.{
  FoundBy, Shows, match_entry-FoundBy, update_state-Shows, update_state-is_included, is_own-FoundBy,
}

false≢true : false ≢ true
false≢true h = cc

any-insert :
    (p : Entry → Bool) (e : Entry) (es : List Entry)
    → any p (insert_entry_sorted e es) ≡ (p e || any p es)
unfolding insert_entry_sorted
any-insert p e [] = refl
any-insert p e (x ∷ xs) =
    if_either (λ ys. any p ys ≡ (p e || (p x || any p xs))) (text_gt (entry_path x) (entry_path e))
      refl (ground (arith, any-insert p e xs))

-- What concerns other nodes is left as it is.
abbrev Elsewhere : ℕ → List Entry → List Entry → Type 0
Elsewhere n es es' =
    (a : ℕ) (b : Bool) → (n == a) ≡ false → any (opposes a b) es' ≡ any (opposes a b) es

remove-Elsewhere : (e : Entry) (es : List Entry) → Elsewhere (address e) es (remove_spec_entry e es)
unfolding remove_spec_entry
remove-Elsewhere e [] a b h = refl
remove-Elsewhere e (x ∷ xs) a b h =
    if_known (λ ys. any (opposes a b) ys ≡ (opposes a b x || any (opposes a b) xs))
      (is_same_spec_entry x e) (λ q. ground arith)
      (λ q. ap (opposes a b x ||◌) (remove-Elsewhere e xs a b h))

add-Elsewhere : (e : Entry) (es : List Entry) → Elsewhere (address e) es (add_spec_entry e es)
unfolding add_spec_entry
add-Elsewhere e es a b h =
    if_either (λ ys. any (opposes a b) ys ≡ any (opposes a b) es)
      (any (λ x. is_same_spec_entry x e) es) {y = insert_entry_sorted e es} refl
      (ground (arith, any-insert (opposes a b) e es))

-- An entry that opposes is the same as one of the node's that has the other sense.
same-opposes :
    (x e : Entry) (b : Bool)
    → e.is_include ≡ not b
    → is_same_spec_entry x e ≡ opposes (address e) b x
same-opposes x e true h = ground arith
same-opposes x e false h = ground arith

any-same-opposes :
    (e : Entry) (es : List Entry) (b : Bool)
    → e.is_include ≡ not b
    → any (λ x. is_same_spec_entry x e) es ≡ any (opposes (address e) b) es
any-same-opposes e [] b h = refl
any-same-opposes e (x ∷ xs) b h =
    rw (same-opposes x e b h) (ap (opposes (address e) b x ||◌) (any-same-opposes e xs b h))

remove-own :
    (e : Entry) (es : List Entry) (b : Bool)
    → e.is_include ≡ not b
    → InOrder es
    → any (opposes (address e) b) (remove_spec_entry e es) ≡ false
remove-own e es b h k = sym (any-same-opposes e (remove_spec_entry e es) b h) ∙ any-remove e es k

opposes-own : (e : Entry) (b : Bool) → e.is_include ≡ not b → opposes (address e) b e ≡ true
opposes-own e true h = ground arith
opposes-own e false h = ground arith

add-own :
    (e : Entry) (es : List Entry) (b : Bool)
    → e.is_include ≡ not b
    → any (opposes (address e) b) (add_spec_entry e es) ≡ true
unfolding add_spec_entry
add-own e es b h =
    if_known (λ ys. any (opposes (address e) b) ys ≡ true) (any (λ x. is_same_spec_entry x e) es)
      (λ q. sym (any-same-opposes e es b h) ∙ q)
      (λ q. ground (arith, any-insert (opposes (address e) b) e es, opposes-own e b h))

-- Nor are the states of other nodes that are not below it changed.
update_state-Elsewhere :
    (n : ℕ) (es es' : List Entry) (path : List Info)
    → Elsewhere n es es'
    → any (λ i. n == i.address) path ≡ false
    → (update_state es' path).is_included ≡ (update_state es path).is_included
unfolding update_state
update_state-Elsewhere n es es' [] h k = refl
update_state-Elsewhere n es es' (i ∷ path) h k =
    let rest = update_state-Elsewhere n es es' path h (ground arith) in
    update_state-is_included es' i path
    ∙ (rw rest (
        rw (h i.address (update_state es path).is_included (ground arith))
          (sym (update_state-is_included es i path))))

-- What the click on a node is to leave: it is selected where it was not, and the other way round,
-- and a node that is neither the node nor below it is as it was.
abbrev pub Toggles : Node → List Info → List Info → List Entry → Option (List Entry) → Type 0
Toggles n above path es none = ⊥
Toggles n above path es (some es') =
    InOrder es'
    × ((update_state es' (info n ∷ above)).is_included
        ≡ not (update_state es (info n ∷ above)).is_included)
    × ((update_state es' path).is_included ≡ (update_state es path).is_included)

-- The node is at none of these places.
abbrev pub Outside : Node → List Info → Type 0
Outside n path = any (λ i. (info n).address == i.address) path ≡ false

module _ (n : Node) (above path : List Info) (es : List Entry) where
  abbrev own : List Entry → Bool
  own es' = any (opposes (info n).address (update_state es above).is_included) es'

  toggled :
      (es' : List Entry)
      → Outside n above
      → Outside n path
      → InOrder es'
      → Elsewhere (info n).address es es'
      → own es' ≡ not (own es)
      → Toggles n above path es (some es')
  toggled es' h k o u f = (
    o,
    update_state-is_included es' (info n) above
        ∙ (rw (update_state-Elsewhere (info n).address es es' above u h)
            (rw (update_state-is_included es (info n) above) (rw f (ground arith)))),
    update_state-Elsewhere (info n).address es es' path u k,
  )

  removes :
      (e : Entry)
      → Outside n above
      → Outside n path
      → InOrder es
      → address e ≡ (info n).address
      → e.is_include ≡ not (update_state es above).is_included
      → own es ≡ true
      → Toggles n above path es (some (remove_spec_entry e es))
  removes e h k o a b q =
      toggled (remove_spec_entry e es) h k (remove_spec_entry-InOrder e es o)
        (subst (λ m. Elsewhere m es (remove_spec_entry e es)) a (remove-Elsewhere e es))
        (rw q (
          subst
            (λ m.
              any (opposes m (update_state es above).is_included) (remove_spec_entry e es) ≡ false)
            a (remove-own e es (update_state es above).is_included b o)))

  adds :
      (b : Bool)
      → Outside n above
      → Outside n path
      → InOrder es
      → b ≡ not (update_state es above).is_included
      → own es ≡ false
      → Toggles n above path es (some (add_spec_entry (new_entry n above b) es))
  adds b h k o c q =
      toggled (add_spec_entry (new_entry n above b) es) h k
        (add_spec_entry-InOrder (new_entry n above b) es o) (add-Elsewhere (new_entry n above b) es)
        (rw q (add-own (new_entry n above b) es (update_state es above).is_included c))

module _ (n : Node) (above path : List Info) (es : List Entry) where
  removes-FoundBy :
      (o : Option TreeState)
      → Outside n above
      → Outside n path
      → InOrder es
      → FoundBy (info n).address (update_state es above).is_included es o
      → own n above path es es ≡ true
      → Toggles n above path es (
          mapped
            (λ e. remove_spec_entry e es)
            (entry_at es (or_inherit (update_state es above) o).matching))
  removes-FoundBy none h k r f q = absurd (false≢true (sym f ∙ q))
  removes-FoundBy (some s) h k r (f, (j, e, m, g, a, b, c)) q =
      rw m (rw g (removes n above path es e h k r a (b ∙ c) q))

  adds-Shows :
      (s : TreeState)
      → Outside n above
      → Outside n path
      → InOrder es
      → Shows es (info n ∷ above) s
      → s.is_included ≡ (update_state es above).is_included
      → own n above path es es ≡ false
      → Toggles n above path es
          (mapped (λ b. add_spec_entry (new_entry n above b) es) (new_sense es s.matching))
  adds-Shows s h k r (inl (m, b)) c q =
      rw m (adds n above path es true h k r (ap not (sym b ∙ c)) q)
  adds-Shows s h k r (inr (j, e, m, g, a, b)) c q =
      rw m (rw g (adds n above path es (not e.is_include) h k r (ap not (b ∙ c)) q))

  removes_own :
      Outside n above
      → Outside n path
      → InOrder es
      → own n above path es es ≡ true
      → Toggles n above path es (
          mapped
            (λ e. remove_spec_entry e es)
            (entry_at es (update_state es (info n ∷ above)).matching))
  unfolding update_state
  removes_own h k r q =
      removes-FoundBy (match_entry (info n).address (update_state es above).is_included es) h k r
        (match_entry-FoundBy (info n).address (update_state es above).is_included es) q

  adds_own :
      Outside n above
      → Outside n path
      → InOrder es
      → own n above path es es ≡ false
      → Toggles n above path es (
          mapped
            (λ b. add_spec_entry (new_entry n above b) es)
            (new_sense es (update_state es (info n ∷ above)).matching))
  adds_own h k r q =
      adds-Shows (update_state es (info n ∷ above)) h k r (update_state-Shows es (info n ∷ above))
        (update_state-is_included es (info n) above ∙ rw q refl) q

  -- Where the entries are in order and no two are the same, where the states of the node and of its
  -- parent are those that the entries give, and where neither the places above the node nor those of
  -- another node and above it are the node's: a click on the node gives entries in the same order,
  -- the node is selected where it was not and the other way round, and the other node's selection is
  -- as it was.
  pub activate_lem :
      InOrder es
      → Outside n above
      → Outside n path
      → Toggles n above path es
          (activate n above (parent_state es above) (update_state es (info n ∷ above)) es)
  unfolding activate
  activate_lem r h k =
      if_known (Toggles n above path es)
        (is_own es (parent_state es above) (update_state es (info n ∷ above)))
        (λ q. removes_own h k r (sym (is_own-FoundBy (info n) above es h) ∙ q))
        (λ q. adds_own h k r (sym (is_own-FoundBy (info n) above es h) ∙ q))
