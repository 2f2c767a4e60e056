-- ===== src/Restore/Paths.antt =====
-- The local names of src/Restore.cc: what lies under a name, and which files are left by what
-- touches only such names.
use mathlib.Core.List.{Memᴰ}
use boxi.Prelude.{
  suc, ◌+◌, ◌≡◌, refl, sym, ap, ◌∙◌, ◌⊎◌, inl, inr, false, ◌==◌, List, [], ◌∷◌, any, if◌then◌else◌,
  length, length-append, arith, text_eq, text_eq_iff, if_known,
}
use boxi.Prelude.Text.{Text}
use boxi.Restore.Dir.{Fetched, below, without_path}

-- The name itself, or one that goes on behind it.
abbrev pub Under : Text → Text → Type 0
Under p x = (x ≡ p) ⊎ ((rest : Text) × (x ≡ below p rest))

abbrev pub SlashFree : Text → Type 0
SlashFree n = any (λ c. c == b'/') n ≡ false

below-below : (p n r : Text) → below (below p n) r ≡ below p (below n r)
below-below [] n r = refl
below-below (c ∷ p) n r = ap (c ∷◌) (below-below p n r)

pub Under-up : (p n x : Text) → Under (below p n) x → Under p x
Under-up p n x (inl q) = inr (n, q)
Under-up p n x (inr (r, q)) = inr (below n r, q ∙ below-below p n r)

-- The first name of a path behind a prefix of that length.
abbrev segment : Text → Text
segment [] = []
segment (c ∷ cs) = let rest = segment cs in if c == b'/' then [] else c ∷ rest

abbrev name_behind : Text → Text → Text
name_behind p [] = []
name_behind [] (c ∷ cs) = segment cs
name_behind (d ∷ p) (c ∷ cs) = name_behind p cs

segment_self : (n : Text) → SlashFree n → segment n ≡ n
segment_self [] h = refl
segment_self (c ∷ cs) h = ground (arith, segment_self cs)

segment-below : (n r : Text) → SlashFree n → segment (below n r) ≡ n
segment-below [] r h = refl
segment-below (c ∷ cs) r h = ground (arith, segment-below cs r)

name_behind-below : (p y : Text) → name_behind p (below p y) ≡ segment y
name_behind-below [] y = refl
name_behind-below (c ∷ p) y = name_behind-below p y

name_of : (p n x : Text) → SlashFree n → Under (below p n) x → name_behind p x ≡ n
name_of p n x h (inl q) = ap (name_behind p) q ∙ name_behind-below p n ∙ segment_self n h
name_of p n x h (inr (r, q)) =
    ap (name_behind p) (q ∙ below-below p n r)
    ∙ name_behind-below p (below n r)
    ∙ segment-below n r h

-- Nothing lies under two names of one directory.
pub same_name :
    (p n n' x : Text)
    → SlashFree n
    → SlashFree n'
    → Under (below p n) x
    → Under (below p n') x
    → n ≡ n'
same_name p n n' x h h' u u' = sym (name_of p n x h u) ∙ name_of p n' x h' u'

length-below : (p n : Text) → length (below p n) ≡ length p + suc (length n)
length-below p n = length-append p (b'/' ∷ n)

-- Nor is a directory's name under one of its own.
pub own_apart : (p n : Text) → Under (below p n) p → ⊥
own_apart p n (inl q) = omega (arith, ap length q, length-below p n)
own_apart p n (inr (r, q)) =
    omega (arith, ap length q, length-below (below p n) r, length-below p n)

-- A file whose name is not touched stays.
abbrev pub Keeps : (Text → Type 0) → List Fetched → List Fetched → Type 0
Keeps T f g = (x : Fetched) → (T x.local_name → ⊥) → Memᴰ x f → Memᴰ x g

pub Keeps-weaken :
    (T T' : Text → Type 0) (f g : List Fetched)
    → ((x : Text) → T x → T' x)
    → Keeps T f g
    → Keeps T' f g
Keeps-weaken T T' f g h k = λ x a m. k x (λ t. a (h x.local_name t)) m

pub Keeps-trans :
    (T : Text → Type 0) (f g h : List Fetched) → Keeps T f g → Keeps T g h → Keeps T f h
Keeps-trans T f g h k l = λ x a m. l x a (k x a m)

pub without_path-Keeps : (p : Text) (f : List Fetched) → Keeps (λ x. x ≡ p) f (without_path p f)
unfolding without_path
without_path-Keeps p [] x a m = elim m [ ]
without_path-Keeps p (y ∷ f) x a (Memᴰ.head q) =
    if_known (Memᴰ x) (text_eq y.local_name p)
      (λ e. absurd (a (ap (λ z. z.local_name) q ∙ (text_eq_iff y.local_name p).0 e)))
      (λ e. Memᴰ.head q)
without_path-Keeps p (y ∷ f) x a (Memᴰ.tail m) =
    if_known (Memᴰ x) (text_eq y.local_name p) (λ e. without_path-Keeps p f x a m)
      (λ e. Memᴰ.tail (without_path-Keeps p f x a m))
