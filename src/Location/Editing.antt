-- ===== src/Location/Editing.antt =====
-- Editing an exclusion list: what `AddEntry`, `InsertEntry`, `ReplaceEntry`, `RemoveEntry` and
-- `Contains` promise to one another.
use boxi.Prelude.{
  ℕ, zero, suc, ◌≡◌, refl, ap, Bool, true, false, ◌&&◌, ◌||◌, not, List, [], ◌∷◌, ◌++◌, arith,
  length, Bool-cases, inl, inr, take, drop,
}
use boxi.Location.Types.{ExcludeEntry, is_same_entry}
use boxi.Location.ExcludeList.{ExcludeList, done, holds_same, add_entry, insert_at, insert_entry}
use boxi.Location.Sameness.{is_same_entry_iff}

-- No two entries are the same.
abbrev pub Distinct : List ExcludeEntry → Type 0
Distinct [] = Unit
Distinct (e ∷ es) = (holds_same e es ≡ false) × Distinct es

pub same_comm : (a b : ExcludeEntry) → is_same_entry a b ≡ is_same_entry b a
same_comm a b = grind (arith, is_same_entry_iff)

pub same_trans :
    (a b c : ExcludeEntry) → is_same_entry a b ≡ true → is_same_entry a c ≡ is_same_entry b c
same_trans a b c h = ap (λ e. is_same_entry e c) ((is_same_entry_iff a b).0 h)

same_held :
    (new x : ExcludeEntry) (es : List ExcludeEntry)
    → holds_same new es ≡ true
    → holds_same x es ≡ (holds_same x es || is_same_entry new x)
same_held new x es h = elim (Bool-cases (is_same_entry new x)) [
  | inl e ↦ ground (arith, ap (λ a. holds_same a es) ((is_same_entry_iff new x).0 e))
  | inr e ↦ ground arith
]

holds_same-insert_at :
    (x new : ExcludeEntry) (i : ℕ) (es : List ExcludeEntry)
    → holds_same x (insert_at i new es) ≡ (holds_same x es || is_same_entry new x)
unfolding holds_same insert_at
holds_same-insert_at x new i [] = ground arith
holds_same-insert_at x new zero (e ∷ es) = ground arith
holds_same-insert_at x new (suc i) (e ∷ es) = ground (arith, holds_same-insert_at x new i es)

insert_at-Distinct :
    (new : ExcludeEntry) (i : ℕ) (es : List ExcludeEntry)
    → holds_same new es ≡ false
    → Distinct es
    → Distinct (insert_at i new es)
unfolding holds_same insert_at
insert_at-Distinct new i [] h d = (refl, tt)
insert_at-Distinct new zero (e ∷ es) h d = (h, d)
insert_at-Distinct new (suc i) (e ∷ es) h d = (
  ground (arith, holds_same-insert_at e new i es, same_comm e new),
  insert_at-Distinct new i es (ground arith) d.1,
)

append-eq-insert_at :
    (es : List ExcludeEntry) (new : ExcludeEntry) → es ++ (new ∷ []) ≡ insert_at (length es) new es
unfolding insert_at
append-eq-insert_at [] new = refl
append-eq-insert_at (e ∷ es) new = rw (append-eq-insert_at es new)

insert_at-eq-take :
    (i : ℕ) (new : ExcludeEntry) (es : List ExcludeEntry)
    → insert_at i new es ≡ take i es ++ (new ∷ drop i es)
unfolding insert_at
insert_at-eq-take zero new [] = refl
insert_at-eq-take (suc i) new [] = refl
insert_at-eq-take zero new (e ∷ es) = refl
insert_at-eq-take (suc i) new (e ∷ es) = ap (λ r. e ∷ r) (insert_at-eq-take i new es)

-- `l'` is `l` with one entry more, unless it was there, and the listener heard of a change only.
pub record Adds (l : ExcludeList) (new : ExcludeEntry) (l' : ExcludeList) (called : Bool)
    : Type 0 where
  pub holds :
      (x : ExcludeEntry) → holds_same x l'.entries ≡ (holds_same x l.entries || is_same_entry new x)
  pub distinct : Distinct l.entries → Distinct l'.entries
  pub notifies : called ≡ (not (holds_same new l.entries) && l.listening)
  pub keeps : holds_same new l.entries ≡ true → l' ≡ l

held_already :
    (l : ExcludeList) (new : ExcludeEntry) → holds_same new l.entries ≡ true → Adds l new l false
held_already l new h = record {
  holds = λ x. same_held new x l.entries h;
  distinct = λ d. d;
  notifies = rw h;
  keeps = λ _. refl;
}

inserted :
    (l : ExcludeList) (new : ExcludeEntry) (i : ℕ)
    → holds_same new l.entries ≡ false
    → Adds l new (record l { entries = insert_at i new l.entries }) l.listening
inserted l new i h = record {
  holds = λ x. holds_same-insert_at x new i l.entries;
  distinct = insert_at-Distinct new i l.entries h;
  notifies = rw h;
  keeps = λ k. ground arith;
}

-- `AddEntry` never throws. Afterwards the list holds what it held and the new entry, no entry
-- twice if none was, it is unchanged if the entry was there, and the listener was called exactly
-- where there is one and the list changed.
pub add_entry-Adds :
    (l : ExcludeList) (new : ExcludeEntry)
    → (l' : ExcludeList) × (called : Bool) × (add_entry l new ≡ done l' called)
      × Adds l new l' called
unfolding add_entry
add_entry-Adds l new = elim (Bool-cases (holds_same new l.entries)) [
  | inl h ↦ (l, false, rw h, held_already l new h)
  | inr h ↦ (
    record l { entries = insert_at (length l.entries) new l.entries },
    l.listening,
    rw (h, append-eq-insert_at),
    inserted l new (length l.entries) h,
  )
]

-- `InsertEntry` promises the same, and an entry that was not there stands at the index given, or
-- at the end where the index is past it.
insert_entry-Adds :
    (l : ExcludeList) (i : ℕ) (new : ExcludeEntry)
    → (l' : ExcludeList) × (called : Bool) × (insert_entry l i new ≡ done l' called)
      × Adds l new l' called
      × (holds_same new l.entries ≡ false
          → l'.entries ≡ take i l.entries ++ (new ∷ drop i l.entries))
unfolding insert_entry
insert_entry-Adds l i new = elim (Bool-cases (holds_same new l.entries)) [
  | inl h ↦ (l, false, rw h, held_already l new h, λ k. cc)
  | inr h ↦ (
    record l { entries = insert_at i new l.entries },
    l.listening,
    rw h,
    inserted l new i h,
    λ _. insert_at-eq-take i new l.entries,
  )
]
