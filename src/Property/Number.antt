-- ===== src/Property/Number.antt =====
-- The C library's `strtol` and `%d`, as `IntProperty` of src/Property.cc uses them: a `long` has 64
-- bits and an `int` 32.
use boxi.Prelude.{
  ℕ, zero, suc, ◌+◌, ◌-◌, ◌*◌, ◌/◌, ◌%◌, ◌^◌, ◌<◌, ◌≡◌, refl, Bool, true, false, ◌&&◌, ◌||◌, Option,
  none, some, [], ◌∷◌, if◌then◌else◌, ◌==◌, ltb, leb, lit,
}
use boxi.Prelude.Text.{Text}
use boxi.Prelude.Int.{ℤ, pos, negsuc}

-- The value of a character as a digit.
unfoldable pub digit? : ℕ → ℕ → Option ℕ
digit? base c =
    let v =
      if leb b'0' c && leb c b'9'
      then some (c - b'0')
      else if leb b'a' c && leb c b'z'
      then some (c - b'a' + 10)
      else if leb b'A' c && leb c b'Z'
      then some (c - b'A' + 10)
      else none in
    elim v [ none ↦ none | some d ↦ if ltb d base then some d else none ]

abbrev pub is_space : ℕ → Bool
is_space c = c == 32 || (leb 9 c && leb c 13)

unfoldable pub skip_space : Text → Text
skip_space [] = []
skip_space (c ∷ t) = let rest = skip_space t in if is_space c then rest else c ∷ t

-- The digits at the front, and what follows them.
unfoldable pub digits : ℕ → ℕ → Text → ℕ × Text
digits base acc [] = (acc, [])
digits base acc (c ∷ t) = elim (digit? base c) [
  | none ↦ (acc, c ∷ t)
  | some d ↦ digits base (acc * base + d) t
]

abbrev starts_with_digit : ℕ → Text → Bool
starts_with_digit base [] = false
starts_with_digit base (c ∷ t) = elim (digit? base c) [ none ↦ false | some _ ↦ true ]

-- In base 16 `0x` may stand before the digits.
unfoldable pub skip_prefix : ℕ → Text → Text
skip_prefix base (a ∷ b ∷ t) =
    if base == 16 && a == b'0' && (b == b'x' || b == b'X') && starts_with_digit base t
    then t
    else a ∷ b ∷ t
skip_prefix base t = t

-- The sign, and what follows it.
unfoldable pub take_sign : Text → Bool × Text
take_sign [] = (false, [])
take_sign (c ∷ t) =
    if c == b'-' then (true, t) else if c == b'+' then (false, t) else (false, c ∷ t)

-- A magnitude with its sign, held to the range of a `long`, converted to `unsigned int`.
abbrev pub to_unsigned : Bool → ℕ → ℕ
to_unsigned true m =
    let m' = if ltb (2 ^ 63) m then 2 ^ 63 else m in (2 ^ 32 - m' % 2 ^ 32) % 2 ^ 32
to_unsigned false m = (if ltb (2 ^ 63 - 1) m then 2 ^ 63 - 1 else m) % 2 ^ 32

-- `tempValue = strtol(t, &endptr, base)`, with the text at `endptr`.
unfoldable pub strtol : ℕ → Text → ℕ × Text
unfolding skip_space take_sign skip_prefix
strtol base t =
    let signed = take_sign (skip_space t) in
    let body = skip_prefix base signed.1 in
    if starts_with_digit base body
    then (let r = digits base 0 body in (to_unsigned signed.0 r.0, r.1))
    else (0, t)

-- `unsigned int` to `int`.
abbrev pub to_int : ℕ → ℤ
to_int n = if ltb n (2 ^ 31) then pos n else negsuc (2 ^ 32 - n - 1)

-- The digits of a number in front of a text, with fuel for that many digits.
unfoldable pub show_digits : ℕ → ℕ → Text → Text
show_digits zero n acc = acc
show_digits (suc f) n acc =
    let rest = show_digits f (n / 10) ((n % 10 + b'0') ∷ acc) in
    if ltb n 10 then (n + b'0') ∷ acc else rest

-- `%d` of an `int`, which has at most ten digits.
unfoldable pub show_int : ℤ → Text
show_int (pos n) = show_digits 10 n []
show_int (negsuc n) = b'-' ∷ show_digits 10 (n + 1) []

-- The range of an `int`.
abbrev pub InInt : ℤ → Type 0
InInt (pos n) = n < 2 ^ 31
InInt (negsuc n) = n < 2 ^ 31

show_minus : show_int (negsuc 2147483647) ≡ lit "-2147483648"
unfolding show_int show_digits
show_minus = refl

strtol_hex : strtol 16 (lit "fF z") ≡ (255, lit " z")
unfolding strtol digits digit?
strtol_hex = refl
