-- ===== src/RestoreFiles/Entries.antt =====
-- The specification's entries stay in order of their paths, and none stands there twice.
use boxi.Prelude.{
  ◌≡◌, refl, ap, sym, ◌∙◌, Bool, true, false, List, [], ◌∷◌, if◌then◌else◌, any, All, if_either,
  if_known, Bool-cases, inl, inr, arith,
}
use boxi.Prelude.Text.{Text}
use boxi.RestoreFiles.Kept.{is_same_spec_entry_refl, or-false}
use boxi.RestoreFiles.Spec.{
  Entry, bool_eq, entry_path, is_same_spec_entry, text_gt, insert_entry_sorted, add_spec_entry,
  remove_spec_entry,
}

text_gt_asym : (a b : Text) → text_gt a b ≡ true → text_gt b a ≡ false
unfolding text_gt
text_gt_asym [] b h = cc
text_gt_asym (x ∷ xs) [] h = refl
text_gt_asym (x ∷ xs) (y ∷ ys) h = ground (arith, text_gt_asym xs ys)

text_gt_trans : (a b c : Text) → text_gt a b ≡ false → text_gt b c ≡ false → text_gt a c ≡ false
unfolding text_gt
text_gt_trans [] b c h k = refl
text_gt_trans (x ∷ xs) [] c h k = cc
text_gt_trans (x ∷ xs) (y ∷ ys) [] h k = cc
text_gt_trans (x ∷ xs) (y ∷ ys) (z ∷ zs) h k = ground (arith, text_gt_trans xs ys zs)

-- Not behind, and not the same.
abbrev pub Before : Entry → Entry → Type 0
Before a b = text_gt (entry_path a) (entry_path b) ≡ false

abbrev pub Apart : Entry → Entry → Type 0
Apart a b = is_same_spec_entry b a ≡ false

-- Each entry is before those behind it, and apart from them.
abbrev pub InOrder : List Entry → Type 0
InOrder [] = Unit
InOrder (e ∷ es) = (All (Before e) es × All (Apart e) es) × InOrder es

All-insert :
    (P : Entry → Type 0) (e : Entry) (es : List Entry)
    → P e
    → All P es
    → All P (insert_entry_sorted e es)
unfolding insert_entry_sorted
All-insert P e [] p h = (p, tt)
All-insert P e (x ∷ xs) p (q, h) =
    if_either (λ ys. All P ys) (text_gt (entry_path x) (entry_path e)) (p, (q, h))
      (q, All-insert P e xs p h)

All-remove :
    (P : Entry → Type 0) (e : Entry) (es : List Entry) → All P es → All P (remove_spec_entry e es)
unfolding remove_spec_entry
All-remove P e [] h = tt
All-remove P e (x ∷ xs) (p, h) =
    if_either (λ ys. All P ys) (is_same_spec_entry x e) h (p, All-remove P e xs h)

All-Before : (e x : Entry) (xs : List Entry) → Before e x → All (Before x) xs → All (Before e) xs
All-Before e x [] h k = tt
All-Before e x (y ∷ ys) h (p, k) =
    (text_gt_trans (entry_path e) (entry_path x) (entry_path y) h p, All-Before e x ys h k)

bool_eq_sym : (a b : Bool) → bool_eq a b ≡ bool_eq b a
bool_eq_sym true true = refl
bool_eq_sym true false = refl
bool_eq_sym false true = refl
bool_eq_sym false false = refl

is_same_spec_entry_sym : (a b : Entry) → is_same_spec_entry a b ≡ is_same_spec_entry b a
is_same_spec_entry_sym a b = ground (arith, bool_eq_sym a.is_include b.is_include)

any-All :
    (e : Entry) (es : List Entry) → any (λ x. is_same_spec_entry x e) es ≡ false → All (Apart e) es
any-All e [] h = tt
any-All e (x ∷ xs) h = (ground arith, any-All e xs (ground arith))

insert-InOrder :
    (e : Entry) (es : List Entry)
    → any (λ x. is_same_spec_entry x e) es ≡ false
    → InOrder es
    → InOrder (insert_entry_sorted e es)
unfolding insert_entry_sorted
insert-InOrder e [] h k = ((tt, tt), tt)
insert-InOrder e (x ∷ xs) h ((b, a), k) =
    if_known InOrder (text_gt (entry_path x) (entry_path e))
      (λ q.
        let first = text_gt_asym (entry_path x) (entry_path e) q in
        (((first, All-Before e x xs first b), any-All e (x ∷ xs) h), ((b, a), k)))
      (λ q. (
        (
          All-insert (Before x) e xs q b,
          All-insert (Apart x) e xs (is_same_spec_entry_sym e x ∙ or-false _ _ h) a,
        ),
        insert-InOrder e xs (ground arith) k,
      ))

remove-insert :
    (e : Entry) (es : List Entry)
    → any (λ x. is_same_spec_entry x e) es ≡ false
    → remove_spec_entry e (insert_entry_sorted e es) ≡ es
unfolding remove_spec_entry insert_entry_sorted
remove-insert e [] h = rw (is_same_spec_entry_refl e) refl
remove-insert e (x ∷ xs) h =
    if_either (λ ys. remove_spec_entry e ys ≡ x ∷ xs) (text_gt (entry_path x) (entry_path e))
      (rw (is_same_spec_entry_refl e) refl)
      (rw (or-false (is_same_spec_entry x e) _ h) (ap (x ∷◌) (remove-insert e xs (ground arith))))

bool_eq-eq : (a b : Bool) → bool_eq a b ≡ true → a ≡ b
bool_eq-eq true b h = sym h
bool_eq-eq false false h = refl
bool_eq-eq false true h = cc

same-Apart :
    (e x y : Entry) → is_same_spec_entry x e ≡ true → Apart x y → is_same_spec_entry y e ≡ false
same-Apart e x y h k = ground (arith, bool_eq-eq x.is_include e.is_include)

All-any :
    (e x : Entry) (xs : List Entry)
    → is_same_spec_entry x e ≡ true
    → All (Apart x) xs
    → any (λ y. is_same_spec_entry y e) xs ≡ false
All-any e x [] h k = refl
All-any e x (y ∷ ys) h (p, k) = ground (arith, same-Apart e x y h p, All-any e x ys h k)

pub any-remove :
    (e : Entry) (es : List Entry)
    → InOrder es
    → any (λ x. is_same_spec_entry x e) (remove_spec_entry e es) ≡ false
unfolding remove_spec_entry
any-remove e [] h = refl
any-remove e (x ∷ xs) ((b, a), h) =
    if_known (λ ys. any (λ y. is_same_spec_entry y e) ys ≡ false) (is_same_spec_entry x e)
      (λ q. All-any e x xs q a) (λ q. rw q (any-remove e xs h))

pub add_spec_entry-InOrder :
    (e : Entry) (es : List Entry) → InOrder es → InOrder (add_spec_entry e es)
unfolding add_spec_entry
add_spec_entry-InOrder e es h =
    if_known InOrder (any (λ x. is_same_spec_entry x e) es) (λ q. h) (λ q. insert-InOrder e es q h)

pub remove_spec_entry-InOrder :
    (e : Entry) (es : List Entry) → InOrder es → InOrder (remove_spec_entry e es)
unfolding remove_spec_entry
remove_spec_entry-InOrder e [] h = tt
remove_spec_entry-InOrder e (x ∷ xs) ((b, a), h) =
    if_either InOrder (is_same_spec_entry x e) h (
      (All-remove (Before x) e xs b, All-remove (Apart x) e xs a),
      remove_spec_entry-InOrder e xs h,
    )

remove-add :
    (e : Entry) (es : List Entry)
    → remove_spec_entry e (add_spec_entry e es)
      ≡ (if any (λ x. is_same_spec_entry x e) es then remove_spec_entry e es else es)
unfolding add_spec_entry
remove-add e es = elim (Bool-cases (any (λ x. is_same_spec_entry x e) es)) [
  | inl q ↦ rw q refl
  | inr q ↦ rw q (remove-insert e es q)
]

-- Where the entries are in order of their paths and no two are the same: they still are after an
-- entry is added, and after one is removed; an entry that was not there, added and then removed,
-- leaves what was there; and no entry like the removed one is left.
pub spec_entries_lem :
    (e : Entry) (es : List Entry)
    → InOrder es
    → InOrder (add_spec_entry e es)
      × InOrder (remove_spec_entry e es)
      × (remove_spec_entry e (add_spec_entry e es)
          ≡ (if any (λ x. is_same_spec_entry x e) es then remove_spec_entry e es else es))
      × (any (λ x. is_same_spec_entry x e) (remove_spec_entry e es) ≡ false)
spec_entries_lem e es h = (
  add_spec_entry-InOrder e es h,
  remove_spec_entry-InOrder e es h,
  remove-add e es,
  any-remove e es h,
)
