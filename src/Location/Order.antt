-- ===== src/Location/Order.antt =====
-- The verdict does not depend on the order of the exclusion list.
use mathlib.Core.Bool.{Bool-set}
use mathlib.Core.Logic.{∥∥₁_elim}
use mathlib.Core.List.{Perm, Permᴰ}
use boxi.Prelude.{◌≡◌, refl, ap, ap₂, ◌∙◌, Bool, ◌||◌, List, arith, any}
use boxi.Prelude.Text.{Text}
use boxi.Location.Types.{es_exclude, es_alwaysinclude}
use boxi.Location.Excluded.{Platform, Location, Outs, get_excluded_state}
use boxi.Location.Verdict.{hits, get_excluded_state_lem}

module _ {ℓ} {A : Type ℓ} (q : A → Bool) where
  any-Permᴰ : {xs ys : List A} → Permᴰ xs ys → any q xs ≡ any q ys
  any-Permᴰ Permᴰ.nil = refl
  any-Permᴰ (Permᴰ.cons e d) = ap₂ (λ a b. q a || b) e (any-Permᴰ d)
  any-Permᴰ (Permᴰ.swap {a} {b} {a'} {b'} {l} e f) = ground (arith, ap q e, ap q f)
  any-Permᴰ (Permᴰ.trans d d') = any-Permᴰ d ∙ any-Permᴰ d'

  any-Perm : (xs ys : List A) → Perm xs ys → any q xs ≡ any q ys
  any-Perm xs ys p = ∥∥₁_elim p (Bool-set _ _) any-Permᴰ

-- Two locations with one path and the same entries in any order give every name one state.
pub get_excluded_state-perm :
    (p : Platform) (a b : Location) (name : Text) (is_directory : Bool) (outs : Outs)
    → a.path ≡ b.path
    → Perm a.excluded.entries b.excluded.entries
    → (get_excluded_state p a name is_directory outs).0
      ≡ (get_excluded_state p b name is_directory outs).0
get_excluded_state-perm p a b name is_directory outs same_path perm =
    rw
      (
        get_excluded_state_lem p a name is_directory outs,
        get_excluded_state_lem p b name is_directory outs,
        same_path,
        any-Perm (hits p es_exclude name is_directory) _ _ perm,
        any-Perm (hits p es_alwaysinclude name is_directory) _ _ perm,
      )
      (ground arith)
