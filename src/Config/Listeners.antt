-- ===== src/Config/Listeners.antt =====
-- The listeners of a configuration.
use mathlib.Core.Path.{subst}
use boxi.Prelude.{
  ℕ, suc, ◌+◌, ◌≤◌, ◌≡◌, refl, ◌∙◌, inl, inr, Bool, true, false, List, [], ◌∷◌, ◌++◌, if◌then◌else◌,
  ◌==◌, any, Bool-cases, arith,
}
use boxi.Config.Locations.{Config, notify_listeners, add_listener, remove_listener, erase_listener}

-- How often a number stands in a list.
abbrev pub count : ℕ → List ℕ → ℕ
count l [] = 0
count l (x ∷ xs) = let rest = count l xs in if x == l then suc rest else rest

-- What is done with the listeners.
pub data Registration : Type 0 where
  adds removes : ℕ → Registration

abbrev pub register : List Registration → Config → Config
register [] c = c
register (adds l ∷ rs) c = register rs (add_listener l c)
register (removes l ∷ rs) c = register rs (remove_listener l c)

-- Is a listener registered, by the last thing that was done with it?
abbrev pub is_registered : List Registration → ℕ → Bool → Bool
is_registered [] l before = before
is_registered (adds k ∷ rs) l before = is_registered rs l (if k == l then true else before)
is_registered (removes k ∷ rs) l before = is_registered rs l (if k == l then false else before)

count-append : (l : ℕ) (xs ys : List ℕ) → count l (xs ++ ys) ≡ count l xs + count l ys
count-append l [] ys = omega arith
count-append l (x ∷ xs) ys = ground (arith, count-append l xs ys)

count-any : (l : ℕ) (xs : List ℕ) → any (λ x. x == l) xs ≡ false → count l xs ≡ 0
count-any l [] h = refl
count-any l (x ∷ xs) h = ground (arith, count-any l xs)

any-count : (l : ℕ) (xs : List ℕ) → any (λ x. x == l) xs ≡ true → 1 ≤ count l xs
any-count l [] h = cc
any-count l (x ∷ xs) h = ground (arith, any-count l xs)

abbrev as_count : Bool → ℕ
as_count b = if b then 1 else 0

erase_other :
    (l k : ℕ) (xs : List ℕ) → (k == l) ≡ false → count l (erase_listener k xs) ≡ count l xs
unfolding erase_listener
erase_other l k [] h = refl
erase_other l k (x ∷ xs) h = ground (arith, erase_other l k xs h)

erase_own : (l : ℕ) (xs : List ℕ) → count l xs ≤ 1 → count l (erase_listener l xs) ≡ 0
unfolding erase_listener
erase_own l [] h = refl
erase_own l (x ∷ xs) h = ground (arith, erase_own l xs)

only_one : (b : Bool) (n : ℕ) → n ≡ as_count b → 1 ≤ n → n ≡ 1
only_one true n h le = h
only_one false n h le = absurd (omega arith)

add_listener-count :
    (l k : ℕ) (before : Bool) (c : Config)
    → count l c.listeners ≡ as_count before
    → count l (add_listener k c).listeners ≡ as_count (if k == l then true else before)
unfolding add_listener
add_listener-count l k before c h = elim (Bool-cases (any (λ x. x == k) c.listeners)) [
  | inl e ↦ rw e (registered e)
  | inr e ↦ rw e (appended e)
]
  where
    registered :
        any (λ x. x == k) c.listeners ≡ true
        → count l c.listeners ≡ as_count (if k == l then true else before)
    registered e = elim (Bool-cases (k == l)) [
      | inr q ↦ rw q h
      | inl q ↦
          let same : k ≡ l = ground arith in
          let some_l =
            any-count l c.listeners (subst (λ z. any (λ x. x == z) c.listeners ≡ true) same e) in
          rw q (only_one before (count l c.listeners) h some_l)
    ]

    appended :
        any (λ x. x == k) c.listeners ≡ false
        → count l (c.listeners ++ (k ∷ [])) ≡ as_count (if k == l then true else before)
    appended e = elim (Bool-cases (k == l)) [
      | inr q ↦ count-append l c.listeners (k ∷ []) ∙ rw (q, h) (omega arith)
      | inl q ↦
          let same : k ≡ l = ground arith in
          let no_l =
            count-any l c.listeners (subst (λ z. any (λ x. x == z) c.listeners ≡ false) same e) in
          count-append l c.listeners (k ∷ []) ∙ rw (q, no_l) (omega arith)
    ]

remove_listener-count :
    (l k : ℕ) (before : Bool) (c : Config)
    → count l c.listeners ≡ as_count before
    → count l (remove_listener k c).listeners ≡ as_count (if k == l then false else before)
unfolding remove_listener
remove_listener-count l k before c h = elim (Bool-cases (k == l)) [
  | inl e ↦ ground (arith, erase_own l c.listeners)
  | inr e ↦ rw e (erase_other l k c.listeners e ∙ h)
]

register-count :
    (rs : List Registration) (l : ℕ) (before : Bool) (c : Config)
    → count l c.listeners ≡ as_count before
    → count l (register rs c).listeners ≡ as_count (is_registered rs l before)
register-count [] l before c h = h
register-count (adds k ∷ rs) l before c h =
    register-count rs l (if k == l then true else before) (add_listener k c)
      (add_listener-count l k before c h)
register-count (removes k ∷ rs) l before c h =
    register-count rs l (if k == l then false else before) (remove_listener k c)
      (remove_listener-count l k before c h)

add_listener-notified : (k : ℕ) (c : Config) → (add_listener k c).notified ≡ c.notified
unfolding add_listener
add_listener-notified k c = elim (Bool-cases (any (λ x. x == k) c.listeners)) [
  | inl e ↦ rw e refl
  | inr e ↦ rw e refl
]

register-notified : (rs : List Registration) (c : Config) → (register rs c).notified ≡ c.notified
unfolding remove_listener
register-notified [] c = refl
register-notified (adds k ∷ rs) c =
    register-notified rs (add_listener k c) ∙ add_listener-notified k c
register-notified (removes k ∷ rs) c = register-notified rs (remove_listener k c)

-- Listeners that were added and removed in any order, beginning with none: a notification calls each one that is registered by what was last done with it exactly once, and no other.
pub notify_listeners-register :
    (rs : List Registration) (l : ℕ) (c : Config)
    → c.listeners ≡ []
    → c.notified ≡ []
    → count l (notify_listeners (register rs c)).notified
      ≡ (if is_registered rs l false then 1 else 0)
unfolding notify_listeners
notify_listeners-register rs l c none_yet quiet =
    let silent : (register rs c).notified ≡ [] = register-notified rs c ∙ quiet in
    let registered = register-count rs l false c (rw none_yet refl) in rw silent registered
