-- ===== src/RestoreFiles/TreeStates.antt =====
-- What the states of the nodes in the tree show of the entries.
use mathlib.Core.Path.{subst}
use boxi.Prelude.{
  ℕ, zero, suc, ◌≡◌, refl, sym, ap, ◌∙◌, ◌⊎◌, inl, inr, Bool, true, false, not, Option, none, some,
  List, [], ◌∷◌, if◌then◌else◌, ◌==◌, any, get_elem?, if_known, Bool-cases, arith,
}
use boxi.RestoreFiles.Cache.{Info}
use boxi.RestoreFiles.Spec.{Entry, address}
use boxi.RestoreFiles.Tree.{
  TreeState, opposes, one_later, match_entry, or_inherit, update_state, parent_state, same_pointer,
  entry_at, includes, is_own, mapped,
}

-- What the loop finds: no entry opposes, or the pointer shows one that does.
abbrev pub FoundBy : ℕ → Bool → List Entry → Option TreeState → Type 0
FoundBy a b es none = any (opposes a b) es ≡ false
FoundBy a b es (some s) =
    (any (opposes a b) es ≡ true)
    × ((k : ℕ) × (e : Entry) × (s.matching ≡ some k)
        × (get_elem? es k ≡ some e)
        × (address e ≡ a)
        × (e.is_include ≡ s.is_included)
        × (s.is_included ≡ not b))

opposes-sense : (a : ℕ) (b : Bool) (e : Entry) → opposes a b e ≡ true → e.is_include ≡ not b
opposes-sense a true e h = ground arith
opposes-sense a false e h = ground arith

one_later-FoundBy :
    (a : ℕ) (b : Bool) (e : Entry) (es : List Entry) (o : Option TreeState)
    → opposes a b e ≡ false
    → FoundBy a b es o
    → FoundBy a b (e ∷ es) (one_later o)
one_later-FoundBy a b e es none q h = rw q h
one_later-FoundBy a b e es (some s) q (h, (k, x, m, g, r, n, t)) =
    (rw q h, (suc k, x, ap (mapped suc) m, g, r, n, t))

pub match_entry-FoundBy : (a : ℕ) (b : Bool) (es : List Entry) → FoundBy a b es (match_entry a b es)
unfolding match_entry
match_entry-FoundBy a b [] = refl
match_entry-FoundBy a b (e ∷ es) =
    if_known (FoundBy a b (e ∷ es)) (opposes a b e)
      (λ q. (rw q refl, (zero, e, refl, refl, ground arith, refl, opposes-sense a b e q)))
      (λ q. one_later-FoundBy a b e es (match_entry a b es) q (match_entry-FoundBy a b es))

-- A node's state shows an entry of the node's or of one above it, which has its sense.
abbrev pub Shows : List Entry → List Info → TreeState → Type 0
Shows es path s =
    ((s.matching ≡ none) × (s.is_included ≡ false))
    ⊎ ((k : ℕ) × (e : Entry) × (s.matching ≡ some k)
        × (get_elem? es k ≡ some e)
        × (any (λ i. address e == i.address) path ≡ true)
        × (e.is_include ≡ s.is_included))

above-Shows :
    (es : List Entry) (i : Info) (path : List Info) (p : TreeState) (o : Option TreeState)
    → FoundBy i.address p.is_included es o
    → Shows es path p
    → Shows es (i ∷ path) (or_inherit p o)
above-Shows es i path p none h (inl k) = inl k
above-Shows es i path p none h (inr (k, e, m, g, a, r)) = inr (k, e, m, g, ground arith, r)
above-Shows es i path p (some s) (h, (k, e, m, g, a, r, n)) t = inr (k, e, m, g, ground arith, r)

pub update_state-Shows : (es : List Entry) (path : List Info) → Shows es path (update_state es path)
unfolding update_state
update_state-Shows es [] = inl (refl, refl)
update_state-Shows es (i ∷ path) =
    above-Shows es i path (update_state es path)
      (match_entry i.address (update_state es path).is_included es)
      (match_entry-FoundBy i.address (update_state es path).is_included es)
      (update_state-Shows es path)

-- The sense of a node: the parent's, or the other where an entry of the node's opposes it.
is_included-FoundBy :
    (a : ℕ) (es : List Entry) (p : TreeState) (o : Option TreeState)
    → FoundBy a p.is_included es o
    → (or_inherit p o).is_included
      ≡ (if any (opposes a p.is_included) es then not p.is_included else p.is_included)
is_included-FoundBy a es p none h = rw h refl
is_included-FoundBy a es p (some s) (h, (k, e, m, g, q, r, n)) = rw h n

pub update_state-is_included :
    (es : List Entry) (i : Info) (path : List Info)
    → (update_state es (i ∷ path)).is_included ≡ (
        if any (opposes i.address (update_state es path).is_included) es
        then not (update_state es path).is_included
        else (update_state es path).is_included)
unfolding update_state
update_state-is_included es i path =
    is_included-FoundBy i.address es (update_state es path)
      (match_entry i.address (update_state es path).is_included es)
      (match_entry-FoundBy i.address (update_state es path).is_included es)

same_pointer_refl : (m : Option ℕ) → same_pointer m m ≡ true
same_pointer_refl none = refl
same_pointer_refl (some k) = ground arith

elsewhere-position :
    (es : List Entry) (path : List Info) (a j k : ℕ) (d e : Entry)
    → get_elem? es j ≡ some d
    → get_elem? es k ≡ some e
    → any (λ i. address d == i.address) path ≡ true
    → any (λ i. a == i.address) path ≡ false
    → address e ≡ a
    → (j == k) ≡ false
elsewhere-position es path a j k d e g h t f q = elim (Bool-cases (j == k)) [
  | inl x ↦
      let places : j ≡ k = ground arith in
      let entries : d ≡ e = cc in
      let at : any (λ i. a == i.address) path ≡ true =
        subst (λ m. any (λ i. m == i.address) path ≡ true) (ap address entries ∙ q) t in
      cc
  | inr x ↦ x
]

-- Without a parent the entry is the node's own where it includes; with one, where the parent shows
-- another. Either way it is the node's own where one of its entries opposes the parent.
root-is_own :
    (a : ℕ) (es : List Entry) (o : Option TreeState)
    → FoundBy a false es o
    → includes (entry_at es (or_inherit (update_state es []) o).matching) ≡ any (opposes a false) es
unfolding update_state
root-is_own a es none h = sym h
root-is_own a es (some s) (h, (k, e, m, g, q, r, n)) = rw m (rw g (r ∙ n ∙ sym h))

child-is_own :
    (a : ℕ) (es : List Entry) (path : List Info) (p : TreeState) (o : Option TreeState)
    → FoundBy a p.is_included es o
    → Shows es path p
    → any (λ i. a == i.address) path ≡ false
    → not (same_pointer p.matching (or_inherit p o).matching) ≡ any (opposes a p.is_included) es
child-is_own a es path p none h t f = rw h (ap not (same_pointer_refl p.matching))
child-is_own a es path p (some s) (h, (k, e, m, g, q, r, n)) (inl (u, v)) f = rw u (rw m (sym h))
child-is_own a es path p (some s) (h, (k, e, m, g, q, r, n)) (inr (j, d, u, v, w, z)) f =
    rw u (rw m (ap not (elsewhere-position es path a j k d e v g w f q) ∙ sym h))

pub is_own-FoundBy :
    (i : Info) (above : List Info) (es : List Entry)
    → any (λ x. i.address == x.address) above ≡ false
    → is_own es (parent_state es above) (update_state es (i ∷ above))
      ≡ any (opposes i.address (update_state es above).is_included) es
unfolding is_own update_state
is_own-FoundBy i [] es h =
    root-is_own i.address es (match_entry i.address false es)
      (match_entry-FoundBy i.address false es)
is_own-FoundBy i (x ∷ above) es h =
    child-is_own i.address es (x ∷ above) (update_state es (x ∷ above))
      (match_entry i.address (update_state es (x ∷ above)).is_included es)
      (match_entry-FoundBy i.address (update_state es (x ∷ above)).is_included es)
      (update_state-Shows es (x ∷ above)) h
