-- ===== src/Location/Replacing.antt =====
-- `ReplaceEntry`, which unlike `AddEntry` does not look whether the new entry is there already.
use boxi.Prelude.{
  ◌≡◌, refl, sym, ap, ◌∙◌, ◌⊎◌, true, false, none, some, List, [], ◌∷◌, if◌then◌else◌, arith,
  length, Bool-cases, inl, inr,
}
use boxi.Location.Types.{ExcludeEntry, is_same_entry}
use boxi.Location.ExcludeList.{
  ExcludeList, item_not_found, done, thrown, holds_same, replace_same, replace_entry, contains,
}
use boxi.Location.Sameness.{is_same_entry_iff, is_same_entry_refl}
use boxi.Location.Editing.{Distinct, same_comm, same_trans}
use boxi.Location.Removing.{contains-eq-holds_same}

-- The list with the first entry that is the same as `old` overwritten.
abbrev pub overwrite : ExcludeEntry → ExcludeEntry → List ExcludeEntry → List ExcludeEntry
overwrite old new [] = []
overwrite old new (e ∷ es) =
    let rest = overwrite old new es in if is_same_entry e old then new ∷ es else e ∷ rest

replace_same-overwrite :
    (old new : ExcludeEntry) (es : List ExcludeEntry)
    → replace_same old new es ≡ (if holds_same old es then some (overwrite old new es) else none)
unfolding replace_same holds_same
replace_same-overwrite old new [] = refl
replace_same-overwrite old new (e ∷ es) = ground (arith, replace_same-overwrite old new es)

overwrite_holds_new :
    (old new : ExcludeEntry) (es : List ExcludeEntry)
    → holds_same old es ≡ true
    → holds_same new (overwrite old new es) ≡ true
unfolding holds_same
overwrite_holds_new old new [] h = cc
overwrite_holds_new old new (e ∷ es) h =
    ground (arith, overwrite_holds_new old new es, is_same_entry_refl new)

-- Every other entry is held as before.
overwrite_holds_other :
    (old new x : ExcludeEntry) (es : List ExcludeEntry)
    → is_same_entry old x ≡ false
    → is_same_entry new x ≡ false
    → holds_same x (overwrite old new es) ≡ holds_same x es
unfolding holds_same
overwrite_holds_other old new x [] h k = refl
overwrite_holds_other old new x (e ∷ es) h k =
    ground (arith, overwrite_holds_other old new x es h k, same_trans e old x)

length-overwrite :
    (old new : ExcludeEntry) (es : List ExcludeEntry) → length (overwrite old new es) ≡ length es
length-overwrite old new [] = refl
length-overwrite old new (e ∷ es) = ground (arith, length-overwrite old new es)

-- A fresh entry keeps the list without duplicates.
overwrite-Distinct :
    (old new : ExcludeEntry) (es : List ExcludeEntry)
    → holds_same new es ≡ false
    → Distinct es
    → Distinct (overwrite old new es)
unfolding holds_same
overwrite-Distinct old new [] h d = tt
overwrite-Distinct old new (e ∷ es) h d = elim (Bool-cases (is_same_entry e old)) [
  | inl k ↦ rw k (ground arith, d.1)
  | inr k ↦ rw k (
    ground (arith, overwrite_holds_other old new e es, same_comm old e, same_comm new e),
    overwrite-Distinct old new es (ground arith) d.1,
  )
]

-- An entry that is held elsewhere is there twice afterwards.
overwrite_twice :
    (old new : ExcludeEntry) (es : List ExcludeEntry)
    → is_same_entry old new ≡ false
    → holds_same old es ≡ true
    → holds_same new es ≡ true
    → ¬ Distinct (overwrite old new es)
unfolding holds_same
overwrite_twice old new [] n h k d = cc
overwrite_twice old new (e ∷ es) n h k d = elim (Bool-cases (is_same_entry e old)) [
  | inl p ↦ let d' : Distinct (new ∷ es) = rw p at d in ground (arith, d'.0, same_trans e old new p)
  | inr p ↦
      let d' : Distinct (e ∷ overwrite old new es) = rw p at d in
      elim (Bool-cases (is_same_entry e new)) [
        | inl q ↦ ground (
          arith,
          d'.0,
          overwrite_holds_new old new es,
          ap (λ a. holds_same a (overwrite old new es)) ((is_same_entry_iff e new).0 q),
        )
        | inr q ↦ overwrite_twice old new es n (ground arith) (ground arith) d'.1
      ]
]

-- `ReplaceEntry` throws "item not found" exactly where the list does not contain the old entry.
-- Otherwise the list keeps its length, contains the new entry and of the others what it
-- contained, and has no duplicates if it had none and did not contain the new entry.
pub replace_entry_lem :
    (l : ExcludeList) (old new : ExcludeEntry)
    → ((contains l old ≡ false) × (replace_entry l old new ≡ thrown item_not_found))
      ⊎ ((l' : ExcludeList) × (replace_entry l old new ≡ done l' l.listening)
          × (length l'.entries ≡ length l.entries)
          × (contains l' new ≡ true)
          × ((x : ExcludeEntry)
              → is_same_entry old x ≡ false
              → is_same_entry new x ≡ false
              → contains l' x ≡ contains l x)
          × (contains l new ≡ false → Distinct l.entries → Distinct l'.entries))
unfolding replace_entry
replace_entry_lem l old new = elim (Bool-cases (holds_same old l.entries)) [
  | inr h ↦ inl (contains-eq-holds_same l old ∙ h, rw (replace_same-overwrite, h))
  | inl h ↦
      let l' = record l { entries = overwrite old new l.entries } in
      inr (
        l',
        rw (replace_same-overwrite, h),
        length-overwrite old new l.entries,
        contains-eq-holds_same l' new ∙ overwrite_holds_new old new l.entries h,
        λ x p q.
            contains-eq-holds_same l' x
            ∙ overwrite_holds_other old new x l.entries p q
            ∙ sym (contains-eq-holds_same l x),
        λ k. overwrite-Distinct old new l.entries (sym (contains-eq-holds_same l new) ∙ k),
      )
]

-- Replacing an entry by a different one that the list contains already leaves it there twice.
pub replace_entry_duplicates :
    (l : ExcludeList) (old new : ExcludeEntry)
    → is_same_entry old new ≡ false
    → contains l old ≡ true
    → contains l new ≡ true
    → (l' : ExcludeList) × (replace_entry l old new ≡ done l' l.listening) × ¬ Distinct l'.entries
unfolding replace_entry
replace_entry_duplicates l old new n h k =
    let h' : holds_same old l.entries ≡ true = sym (contains-eq-holds_same l old) ∙ h in
    (
      record l { entries = overwrite old new l.entries },
      rw (replace_same-overwrite, h'),
      overwrite_twice old new l.entries n h' (sym (contains-eq-holds_same l new) ∙ k),
    )
