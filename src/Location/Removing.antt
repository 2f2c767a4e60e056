-- ===== src/Location/Removing.antt =====
-- Taking entries out of an exclusion list, and replacing them: `RemoveEntry`, `ReplaceEntry` and
-- `Contains`.
use boxi.Prelude.{
  ◌≡◌, refl, sym, ap, ◌∙◌, Bool, true, false, ◌&&◌, not, none, some, List, [], ◌∷◌, if◌then◌else◌,
  arith, any, find-cases, Bool-cases, inl, inr,
}
use boxi.Location.Types.{ExcludeEntry, is_same_entry}
use boxi.Location.ExcludeList.{
  ExcludeList, index_out_of_bounds, done, thrown, holds_same, remove_same, remove_entry, contains,
}
use boxi.Location.Sameness.{is_same_entry_iff}
use boxi.Location.Editing.{Distinct, same_comm, same_trans}

any-eq-holds_same :
    (e : ExcludeEntry) (es : List ExcludeEntry) → any (λ c. is_same_entry c e) es ≡ holds_same e es
unfolding holds_same
any-eq-holds_same e [] = refl
any-eq-holds_same e (x ∷ es) = ground (arith, any-eq-holds_same e es)

-- `Contains` answers whether the entry is held.
pub contains-eq-holds_same :
    (l : ExcludeList) (e : ExcludeEntry) → contains l e ≡ holds_same e l.entries
unfolding contains
contains-eq-holds_same l e =
    ground (arith, any-eq-holds_same e l.entries, find-cases (λ c. is_same_entry c e) l.entries)

-- The loop of `RemoveEntry` on a list without duplicates.
record Removes (old : ExcludeEntry) (es es' : List ExcludeEntry) : Type 0 where
  holds : (x : ExcludeEntry) → holds_same x es' ≡ (holds_same x es && not (is_same_entry old x))
  distinct : Distinct es'

-- The old entry stands first: nothing behind it is the same.
removed_head :
    (old e : ExcludeEntry) (es : List ExcludeEntry) (x : ExcludeEntry)
    → is_same_entry e old ≡ true
    → holds_same e es ≡ false
    → holds_same x es
      ≡ ((if is_same_entry e x then true else holds_same x es) && not (is_same_entry old x))
removed_head old e es x h d = elim (Bool-cases (is_same_entry old x)) [
  | inl k ↦ ground (
    arith,
    same_trans e old x h,
    ap (λ a. holds_same a es) ((is_same_entry_iff e x).0 (same_trans e old x h ∙ k)),
  )
  | inr k ↦ ground (arith, same_trans e old x h)
]

-- Behind an entry that is not the old one.
removed_tail :
    (old e x : ExcludeEntry) (r : Bool)
    → is_same_entry e old ≡ false
    → (if is_same_entry e x then true else r && not (is_same_entry old x))
      ≡ ((if is_same_entry e x then true else r) && not (is_same_entry old x))
removed_tail old e x r h = elim (Bool-cases (is_same_entry e x)) [
  | inl k ↦ ground (arith, same_trans e x old k, same_comm x old)
  | inr k ↦ rw k
]

remove_same-Removes :
    (old : ExcludeEntry) (es : List ExcludeEntry)
    → Distinct es
    → holds_same old es ≡ true
    → (es' : List ExcludeEntry) × (remove_same old es ≡ some es') × Removes old es es'
unfolding holds_same remove_same
remove_same-Removes old [] d h = cc
remove_same-Removes old (e ∷ es) d h = elim (Bool-cases (is_same_entry e old)) [
  | inl k ↦ (es, rw k, record { holds = λ x. removed_head old e es x k d.0; distinct = d.1 })
  | inr k ↦
      let (es', q, r) = remove_same-Removes old es d.1 (ground arith) in
      (
        e ∷ es',
        rw (k, q),
        record {
          holds = λ x. rw (r.holds x) (removed_tail old e x (holds_same x es) k);
          distinct = (rw (r.holds e) (ground (arith, d.0)), r.distinct);
        },
      )
]

remove_same_absent :
    (old : ExcludeEntry) (es : List ExcludeEntry)
    → holds_same old es ≡ false
    → remove_same old es ≡ none
unfolding holds_same remove_same
remove_same_absent old [] h = refl
remove_same_absent old (e ∷ es) h = ground (arith, remove_same_absent old es)

-- On a list without duplicates `RemoveEntry` takes out the entry and nothing else, keeps the
-- list without duplicates and calls the listener if there is one.
pub remove_entry_lem :
    (l : ExcludeList) (old : ExcludeEntry)
    → Distinct l.entries
    → contains l old ≡ true
    → (l' : ExcludeList) × (remove_entry l old ≡ done l' l.listening)
      × ((x : ExcludeEntry) → contains l' x ≡ (contains l x && not (is_same_entry old x)))
      × Distinct l'.entries
unfolding remove_entry
remove_entry_lem l old d h =
    let (es', q, r) =
      remove_same-Removes old l.entries d (sym (contains-eq-holds_same l old) ∙ h) in
    (
      record l { entries = es' },
      rw q,
      λ x.
          contains-eq-holds_same (record l { entries = es' }) x
          ∙ r.holds x
          ∙ ap (λ b. b && not (is_same_entry old x)) (sym (contains-eq-holds_same l x)),
      r.distinct,
    )

-- `RemoveEntry` throws "index out of bounds" for an entry that the list does not contain.
pub remove_entry_absent :
    (l : ExcludeList) (old : ExcludeEntry)
    → contains l old ≡ false
    → remove_entry l old ≡ thrown index_out_of_bounds
unfolding remove_entry
remove_entry_absent l old h =
    rw (remove_same_absent old l.entries (sym (contains-eq-holds_same l old) ∙ h))
