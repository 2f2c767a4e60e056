-- ===== src/Property/Edits.antt =====
-- What the methods of a property promise to one another, over any sequence of edits.
use boxi.Prelude.{
  ◌≡◌, refl, ap, ◌∙◌, ◌↔◌, Bool, true, false, ◌&&◌, not, Option, none, some, List, [], ◌∷◌, arith,
}
use boxi.Property.{
  Property, set_clean, get_pointer, clear, reset, revert, set, is_clean, is_default,
}

-- The calls by which a panel edits a property.
pub data Edit (A : Type 0) : Type 0 where
  assign : A → Edit A
  unset : Edit A

-- What two properties share where one comes from the other by edits.
pub record SameOrigin {A : Type 0} (p q : Property A) : Type 0 where
  pub original : q.original_value ≡ p.original_value
  pub was_set : q.was_configured ≡ p.was_configured
  pub default : q.default_value ≡ p.default_value
  pub default_set : q.default_configured ≡ p.default_configured

module _ {A : Type 0} (eq : A → A → Bool) where
  unfoldable pub edit : Edit A → Property A → Property A
  edit (assign v) p = (set eq p v).0
  edit unset p = (clear p).0

  unfoldable pub run_edits : List (Edit A) → Property A → Property A
  run_edits [] p = p
  run_edits (e ∷ es) p = run_edits es (edit e p)

  -- The two pointers are both null, or show the same value.
  abbrev pub pointer_eq : Option A → Option A → Bool
  pointer_eq none none = true
  pointer_eq (some a) (some b) = eq a b
  pointer_eq _ _ = false

  edit-SameOrigin : (p q : Property A) (e : Edit A) → SameOrigin p q → SameOrigin p (edit e q)
  unfolding edit set clear
  edit-SameOrigin p q (assign v) h = ground arith
  edit-SameOrigin p q unset h = ground arith

  run_edits-SameOrigin :
      (p q : Property A) (es : List (Edit A)) → SameOrigin p q → SameOrigin p (run_edits es q)
  unfolding run_edits
  run_edits-SameOrigin p q [] h = h
  run_edits-SameOrigin p q (e ∷ es) h =
      run_edits-SameOrigin p (edit e q) es (edit-SameOrigin p q e h)

  reverted : (p q : Property A) → SameOrigin p q → get_pointer (revert q) ≡ get_pointer (revert p)
  unfolding get_pointer revert
  reverted p q h = ground arith

  restored : (p q : Property A) → SameOrigin p q → get_pointer (reset q) ≡ get_pointer (reset p)
  unfolding get_pointer reset
  restored p q h = ground arith

  clean_lem : (p : Property A) → is_clean eq p ≡ pointer_eq (get_pointer (revert p)) (get_pointer p)
  unfolding is_clean get_pointer revert
  clean_lem p = ground arith

  default_lem :
      (p : Property A) → is_default eq p ≡ pointer_eq (get_pointer (reset p)) (get_pointer p)
  unfolding is_default get_pointer reset
  default_lem p = ground arith

  set_clean-keeps :
      (p : Property A)
      → (get_pointer (revert (set_clean p)) ≡ get_pointer p)
        × (get_pointer (reset (set_clean p)) ≡ get_pointer (reset p))
  unfolding get_pointer revert reset set_clean
  set_clean-keeps p = ground arith

  -- After `SetClean` and any edits behind it, `Revert` brings back what the property showed when
  -- `SetClean` was called, and `Reset` its default; `IsClean` and `IsDefault` tell whether it shows
  -- these already.
  pub run_edits_lem :
      (es : List (Edit A)) (p : Property A)
      → let q = run_edits es (set_clean p) in
        (get_pointer (revert q) ≡ get_pointer p)
        × (get_pointer (reset q) ≡ get_pointer (reset p))
        × (is_clean eq q ≡ pointer_eq (get_pointer p) (get_pointer q))
        × (is_default eq q ≡ pointer_eq (get_pointer (reset p)) (get_pointer q))
  run_edits_lem es p =
      let q = run_edits es (set_clean p) in
      let o : SameOrigin (set_clean p) q =
        run_edits-SameOrigin (set_clean p) (set_clean p) es
          (record { original = refl; was_set = refl; default = refl; default_set = refl }) in
      let back = reverted (set_clean p) q o ∙ (set_clean-keeps p).0 in
      let default = restored (set_clean p) q o ∙ (set_clean-keeps p).1 in
      (
        back,
        default,
        clean_lem q ∙ ap (λ r. pointer_eq r (get_pointer q)) back,
        default_lem q ∙ ap (λ r. pointer_eq r (get_pointer q)) default,
      )

module _ {A : Type 0} (eq : A → A → Bool) (eq_iff : (a b : A) → (eq a b ≡ true) ↔ (a ≡ b)) where
  -- The listener is called exactly where there is one and an edit changes what the property shows;
  -- `Set` then shows the new value, and `Clear` none.
  pub edits_notify :
      (p : Property A) (v : A)
      → (get_pointer (set eq p v).0 ≡ some v)
        × ((set eq p v).1 ≡ (not (pointer_eq eq (get_pointer p) (some v)) && p.listening))
        × (get_pointer (clear p).0 ≡ none)
        × ((clear p).1 ≡ (not (pointer_eq eq (get_pointer p) none) && p.listening))
  unfolding set clear get_pointer
  edits_notify p v = ground (arith, eq_iff v p.value, eq_iff p.value v)

  -- `SetClean` and `Reset` leave the property clean, the first with what it shows unchanged, and
  -- so does `Revert`; after `Reset` it is at its default.
  pub made_clean :
      (p : Property A)
      → (is_clean eq (set_clean p) ≡ true)
        × (get_pointer (set_clean p) ≡ get_pointer p)
        × (is_clean eq (revert p) ≡ true)
        × (is_clean eq (reset p) ≡ true)
        × (is_default eq (reset p) ≡ true)
  unfolding is_clean is_default set_clean reset revert get_pointer
  made_clean p = ground (
    arith,
    eq_iff p.value p.value,
    eq_iff p.original_value p.original_value,
    eq_iff p.default_value p.default_value,
  )
