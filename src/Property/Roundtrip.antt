-- ===== src/Property/Roundtrip.antt =====
-- What `GetInto` prints, `SetFromString` reads.
use boxi.Prelude.{
  ℕ, zero, suc, ◌+◌, ◌-◌, ◌*◌, ◌/◌, ◌%◌, ◌^◌, ◌≤◌, ◌<◌, ◌≡◌, ◌≢◌, refl, sym, ap, ◌∙◌, true, false,
  some, [], ◌∷◌, arith, ltb, Bool-cases, All, inl, inr,
}
use native.Mathlib.Nat.{pow-suc}
use boxi.Prelude.Text.{Text}
use boxi.Prelude.Int.{ℤ, pos, negsuc, int_eq}
use boxi.Property.{Property, set}
use boxi.Property.Number.{digits, digit?, strtol, to_int, to_unsigned, show_digits, show_int, InInt}
use boxi.Property.Ints.{set_from_string, get_into_text, starts_0x}

digit?_lem : (d : ℕ) → d < 10 → digit? 10 (d + b'0') ≡ some d
unfolding digit?
digit?_lem d h = ground arith

digits-digit :
    (a d : ℕ) (acc : Text) → d < 10 → digits 10 a ((d + b'0') ∷ acc) ≡ digits 10 (a * 10 + d) acc
unfolding digits
digits-digit a d acc h = rw (digit?_lem d h, digits)

-- Reading the digits that were printed in front of a text goes on behind them with the number.
digits-show_digits :
    (f n : ℕ) (acc : Text) → n < 10 ^ f → digits 10 0 (show_digits f n acc) ≡ digits 10 n acc
unfolding show_digits
digits-show_digits zero n acc h = ground arith
digits-show_digits (suc f) n acc h = elim (Bool-cases (ltb n 10)) [
  | inl e ↦ rw e (
      digits-digit 0 n acc (ground arith)
      ∙ ap (λ k. digits 10 k acc) (let q : 0 * 10 + n ≡ n = omega arith in q))
  | inr e ↦ rw e (
      digits-show_digits f (n / 10) ((n % 10 + b'0') ∷ acc) (omega (arith, pow-suc 10 f))
      ∙ digits-digit (n / 10) (n % 10) acc (omega arith)
      ∙ ap (λ k. digits 10 k acc) (let q : n / 10 * 10 + n % 10 ≡ n = omega arith in q))
]

-- The first character printed is a digit.
show_digits_head :
    (f n : ℕ) (acc : Text)
    → (d : ℕ) × (t : Text) × (show_digits (suc f) n acc ≡ (d + b'0') ∷ t) × (d < 10)
unfolding show_digits
show_digits_head zero n acc = elim (Bool-cases (ltb n 10)) [
  | inl e ↦ (n, acc, rw e, ground arith)
  | inr e ↦ (n % 10, acc, rw e, omega arith)
]
show_digits_head (suc f) n acc = elim (Bool-cases (ltb n 10)) [
  | inl e ↦ (n, acc, rw e, ground arith)
  | inr e ↦ rw e (show_digits_head f (n / 10) ((n % 10 + b'0') ∷ acc))
]

-- `strtol` in base 10 where a digit comes first, and where a minus sign and a digit do.
strtol_plain :
    (d : ℕ) (t : Text)
    → d < 10
    → let r = digits 10 0 ((d + b'0') ∷ t) in
      strtol 10 ((d + b'0') ∷ t) ≡ (to_unsigned false r.0, r.1)
unfolding strtol
strtol_plain d [] h = ground (arith, digit?_lem d h)
strtol_plain d (c ∷ t) h = ground (arith, digit?_lem d h)

strtol_minus :
    (d : ℕ) (t : Text)
    → d < 10
    → let r = digits 10 0 ((d + b'0') ∷ t) in
      strtol 10 (b'-' ∷ (d + b'0') ∷ t) ≡ (to_unsigned true r.0, r.1)
unfolding strtol
strtol_minus d [] h = ground (arith, digit?_lem d h)
strtol_minus d (c ∷ t) h = ground (arith, digit?_lem d h)

digits_all : (n : ℕ) → n < 10 ^ 10 → digits 10 0 (show_digits 10 n []) ≡ (n, [])
unfolding digits
digits_all n h = digits-show_digits 10 n [] h

-- `strtol` on what `%d` prints.
strtol-show_int : (v : ℤ) → InInt v → (n : ℕ) × (strtol 10 (show_int v) ≡ (n, [])) × (to_int n ≡ v)
unfolding show_int
strtol-show_int (pos n) h =
    let (d, t, e, l) = show_digits_head 9 n [] in
    let all : digits 10 0 ((d + b'0') ∷ t) ≡ (n, []) = rw e at (digits_all n (omega arith)) in
    (
      n,
      rw e (
          strtol_plain d t l
          ∙ ap (λ (r : ℕ × Text). (to_unsigned false r.0, r.1)) all
          ∙ ap (λ (k : ℕ). (k, [])) (let q : to_unsigned false n ≡ n = ground arith in q)),
      ground arith,
    )
strtol-show_int (negsuc n) h =
    let (d, t, e, l) = show_digits_head 9 (n + 1) [] in
    let all : digits 10 0 ((d + b'0') ∷ t) ≡ (n + 1, []) =
      rw e at (digits_all (n + 1) (omega arith)) in
    (
      2 ^ 32 - (n + 1),
      rw e (
          strtol_minus d t l
          ∙ ap (λ (r : ℕ × Text). (to_unsigned true r.0, r.1)) all
          ∙ ap (λ (k : ℕ). (k, []))
              (let q : to_unsigned true (n + 1) ≡ 2 ^ 32 - (n + 1) = ground arith in q)),
      ground arith,
    )

show_digits_below :
    (f n : ℕ) (acc : Text) → All (λ c. c < b'x') acc → All (λ c. c < b'x') (show_digits f n acc)
unfolding show_digits
show_digits_below zero n acc h = h
show_digits_below (suc f) n acc h = elim (Bool-cases (ltb n 10)) [
  | inl e ↦ rw e (ground arith, h)
  | inr e ↦ rw e (show_digits_below f (n / 10) ((n % 10 + b'0') ∷ acc) (omega arith, h))
]

show_int_below : (v : ℤ) → All (λ c. c < b'x') (show_int v)
unfolding show_int
show_int_below (pos n) = show_digits_below 10 n [] tt
show_int_below (negsuc n) = (omega arith, show_digits_below 10 (n + 1) [] tt)

not_0x : (t : Text) → All (λ c. c < b'x') t → starts_0x t ≡ false
not_0x [] h = refl
not_0x (a ∷ []) h = refl
not_0x (a ∷ b ∷ t) h = ground arith

show_int-cons : (v : ℤ) → (c : ℕ) × (t : Text) × (show_int v ≡ c ∷ t)
unfolding show_int
show_int-cons (pos n) = let (d, t, e, l) = show_digits_head 9 n [] in (d + b'0', t, e)
show_int-cons (negsuc n) = (b'-', show_digits 10 (n + 1) [], refl)

-- `SetFromString` of the text that `GetInto` gives for a value in the range of an `int` succeeds
-- and does what `Set` of the value does, the call of the listener included.
pub set_from_string-get_into :
    (p q : Property ℤ) (dest : Text)
    → p.configured ≡ true
    → InInt p.value
    → set_from_string q (get_into_text p dest).0
      ≡ ((set int_eq q p.value).0, true, (set int_eq q p.value).1)
unfolding get_into_text set_from_string
set_from_string-get_into p q dest h r =
    let (c, t, e) = show_int-cons p.value in
    let (n, s, v) = strtol-show_int p.value r in
    let below : starts_0x (c ∷ t) ≡ false =
      rw e at (not_0x (show_int p.value) (show_int_below p.value)) in
    let read : strtol 10 (c ∷ t) ≡ (n, []) = rw e at s in rw (h, e, below, read, v) refl

value-set : (q : Property ℤ) (v : ℤ) → (set int_eq q v).0.value ≡ v
unfolding set
value-set q v = refl

wrapped : (n : ℕ) → 2 ^ 31 ≤ n → to_int (n % 2 ^ 32) ≢ pos n
wrapped n h e = ground arith

-- A decimal number of up to ten digits that is past the range of an `int` is accepted all the
-- same, and what is set is the number modulo 2^32 as a signed value, never the number itself.
pub set_from_string_wraps :
    (q : Property ℤ) (n : ℕ)
    → 2 ^ 31 ≤ n
    → n < 10 ^ 10
    → let r = set_from_string q (show_digits 10 n []) in
      (r.1 ≡ true) × (r.0.value ≡ to_int (n % 2 ^ 32)) × (r.0.value ≢ pos n)
unfolding set_from_string
set_from_string_wraps q n low high =
    let (d, t, e, l) = show_digits_head 9 n [] in
    let all : digits 10 0 ((d + b'0') ∷ t) ≡ (n, []) = rw e at (digits_all n high) in
    let below : starts_0x ((d + b'0') ∷ t) ≡ false =
      rw e at (not_0x (show_digits 10 n []) (show_digits_below 10 n [] tt)) in
    let read : strtol 10 ((d + b'0') ∷ t) ≡ (n % 2 ^ 32, []) =
      strtol_plain d t l
      ∙ ap (λ (r : ℕ × Text). (to_unsigned false r.0, r.1)) all
      ∙ ap (λ (k : ℕ). (k, [])) (let q : to_unsigned false n ≡ n % 2 ^ 32 = ground arith in q) in
    rw (e, below, read)
      (
        refl,
        value-set q (to_int (n % 2 ^ 32)),
        λ w. wrapped n low (sym (value-set q (to_int (n % 2 ^ 32))) ∙ w),
      )
