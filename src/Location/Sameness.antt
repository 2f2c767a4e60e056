-- ===== src/Location/Sameness.antt =====
-- `IsSameAs` on entries and on lists decides equality, and `ToString` tells entries apart.
use boxi.Prelude.{◌≡◌, ◌↔◌, true, List, [], ◌∷◌, arith, text_eq_iff}
use boxi.Location.Types.{ExcludeEntry, is_same_entry}
use boxi.Location.ExcludeList.{same_entries}

pub is_same_entry_refl : (e : ExcludeEntry) → is_same_entry e e ≡ true
unfolding is_same_entry
is_same_entry_refl e = ground (arith, text_eq_iff e.value e.value)

is_same_entry_sound : (a b : ExcludeEntry) → is_same_entry a b ≡ true → a ≡ b
unfolding is_same_entry
is_same_entry_sound a b h = ground (arith, text_eq_iff b.value a.value)

pub is_same_entry_iff : (a b : ExcludeEntry) → (is_same_entry a b ≡ true) ↔ (a ≡ b)
is_same_entry_iff a b = (is_same_entry_sound a b, λ e. rw e (is_same_entry_refl b))

pub same_entries_iff : (xs ys : List ExcludeEntry) → (same_entries xs ys ≡ true) ↔ (xs ≡ ys)
unfolding same_entries
same_entries_iff [] [] = ground arith
same_entries_iff [] (y ∷ ys) = ground arith
same_entries_iff (x ∷ xs) [] = ground arith
same_entries_iff (x ∷ xs) (y ∷ ys) = ground (arith, is_same_entry_iff x y, same_entries_iff xs ys)
