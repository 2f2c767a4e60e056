-- ===== src/RestoreFiles/Kept.antt =====
-- Lists that lose members while a loop goes over a copy, and the weight of what it has seen.
use mathlib.Core.List.{Sublistᴰ}
use mathlib.Core.List.Sublistᴰ
use boxi.Prelude.{
  ℕ, ◌+◌, ◌≤◌, ◌≡◌, ◌≢◌, refl, sym, ◌∙◌, Bool, true, false, ◌||◌, List, [], ◌∷◌, any, if_either,
  arith,
}
use boxi.RestoreFiles.Spec.{Entry, bool_eq, is_same_spec_entry, remove_spec_entry}

abbrev pub Fewer : List Entry → List Entry → Type 0
Fewer = Sublistᴰ

pub Fewer-refl : (es : List Entry) → Fewer es es
Fewer-refl [] = Sublistᴰ.slnil
Fewer-refl (e ∷ es) = Sublistᴰ.cons-cons refl (Fewer-refl es)

pub Fewer-trans : {es fs gs : List Entry} → Fewer es fs → Fewer fs gs → Fewer es gs
Fewer-trans = Sublistᴰ.trans

pub remove_spec_entry-Fewer : (e : Entry) (es : List Entry) → Fewer (remove_spec_entry e es) es
unfolding remove_spec_entry
remove_spec_entry-Fewer e [] = Sublistᴰ.slnil
remove_spec_entry-Fewer e (x ∷ xs) =
    if_either (λ ys. Fewer ys (x ∷ xs)) (is_same_spec_entry x e) (Sublistᴰ.cons (Fewer-refl xs))
      (Sublistᴰ.cons-cons refl (remove_spec_entry-Fewer e xs))

bool_eq_refl : (b : Bool) → bool_eq b b ≡ true
bool_eq_refl true = refl
bool_eq_refl false = refl

pub is_same_spec_entry_refl : (e : Entry) → is_same_spec_entry e e ≡ true
is_same_spec_entry_refl e = ground (arith, bool_eq_refl e.is_include)

true≢false : true ≢ false
true≢false h = cc

pub or-false : (a b : Bool) → (a || b) ≡ false → a ≡ false
or-false a b h = ground arith

abbrev pub sum_of : (Entry → ℕ) → List Entry → ℕ
sum_of w [] = 0
sum_of w (e ∷ es) = w e + sum_of w es

module _ (w : Entry → ℕ) where
  -- The list has first members that weigh as much as is given at most, and then members of those
  -- that are still to be seen.
  pub data Kept : List Entry → List Entry → ℕ → Type 0 where
    unseen : {es todo : List Entry} {n : ℕ} → Fewer es todo → Kept es todo n
    seen :
        {es todo : List Entry} {n m : ℕ} (e : Entry)
        → w e + n ≤ m
        → Kept es todo n
        → Kept (e ∷ es) todo m

  pub Kept-weaken : {es todo : List Entry} {n m : ℕ} → n ≤ m → Kept es todo n → Kept es todo m
  Kept-weaken h (unseen k) = unseen k
  Kept-weaken h (seen e l k) = seen e (omega (arith, h, l)) k

  pub Kept-Fewer : {es fs todo : List Entry} {n : ℕ} → Fewer es fs → Kept fs todo n → Kept es todo n
  Kept-Fewer h (unseen k) = unseen (Fewer-trans h k)
  Kept-Fewer (Sublistᴰ.cons h) (seen e l k) = Kept-weaken (omega (arith, l)) (Kept-Fewer h k)
  Kept-Fewer (Sublistᴰ.cons-cons p h) (seen e l k) = seen _ (rw p l) (Kept-Fewer h k)

  pub Kept-pass :
      {es todo : List Entry} {n : ℕ} (e : Entry) → Kept es (e ∷ todo) n → Kept es todo (n + w e)
  Kept-pass e (unseen (Sublistᴰ.cons h)) = unseen h
  Kept-pass e (unseen (Sublistᴰ.cons-cons p h)) = seen {n = 0} _ (rw p (omega arith)) (unseen h)
  Kept-pass e (seen x l k) = seen x (omega (arith, l)) (Kept-pass e k)

  pub Kept-skip :
      {es todo : List Entry} {n : ℕ} (e : Entry)
      → Kept es (e ∷ todo) n
      → any (λ x. is_same_spec_entry x e) es ≡ false
      → Kept es todo n
  Kept-skip e (unseen (Sublistᴰ.cons h)) q = unseen h
  Kept-skip e (unseen (Sublistᴰ.cons-cons {a = a} p h)) q =
      let here : is_same_spec_entry a e ≡ true = rw p (is_same_spec_entry_refl e) in
      absurd (true≢false (sym here ∙ or-false _ _ q))
  Kept-skip e (seen x l k) q = seen x l (Kept-skip e k (ground arith))

  pub Kept-end : {es : List Entry} {n : ℕ} → Kept es [] n → sum_of w es ≤ n
  Kept-end (unseen Sublistᴰ.slnil) = omega arith
  Kept-end (seen e l k) = omega (arith, l, Kept-end k)
