-- ===== src/Config/Table.antt =====
-- Finding a location, and taking it out again.
use boxi.Prelude.{
  zero, suc, ◌<◌, ◌≤◌, get_elem?, ℕ, suc, ◌≡◌, refl, ap, sym, ◌∙◌, inl, inr, Bool, true, Option,
  none, some, List, [], ◌∷◌, ◌++◌, length, take, drop, Bool-cases, arith, text_eq_iff,
}
use boxi.Location.ExcludeList.{is_same_list}
use boxi.Location.Excluded.{Location, is_same_location}
use boxi.Location.Sameness.{same_entries_iff}
use boxi.Prelude.Int.{pos}
use boxi.Config.Indexed.{walk_inside}
use boxi.Config.Locations.{
  get_location_at, walk_to, found, Config, notify_listeners, find_location, further, get_location,
  remove_location, add_location,
}

is_same_location_refl : (loc : Location) → is_same_location loc loc ≡ true
unfolding is_same_location is_same_list
is_same_location_refl loc = ground (
  arith,
  text_eq_iff loc.name loc.name,
  text_eq_iff loc.path loc.path,
  same_entries_iff loc.excluded.entries loc.excluded.entries,
)

-- What is appended is found at the end, where it was not found before.
find_location-append :
    (p : Location → Bool) (xs : List Location) (x : Location)
    → find_location p xs ≡ none
    → p x ≡ true
    → find_location p (xs ++ (x ∷ [])) ≡ some (length xs)
unfolding find_location
find_location-append p [] x h e = rw e refl
find_location-append p (y ∷ ys) x h e = elim (Bool-cases (p y)) [
  | inl q ↦
      let opened : find_location p (y ∷ ys) ≡ some 0 = rw q refl in
      absurd (something (sym h ∙ opened))
  | inr q ↦
      let opened : find_location p (y ∷ ys) ≡ further (find_location p ys) = rw q refl in
      let later = find_location-append p ys x (nothing (find_location p ys) (sym opened ∙ h)) e in
      rw q (ap further later)
]
  where
    something : {i : ℕ} → none ≡ some i → ⊥
    something k = cc

    nothing : (o : Option ℕ) → further o ≡ none → o ≡ none
    nothing none k = refl
    nothing (some i) k = cc

take-drop-append :
    (xs : List Location) (x : Location)
    → take (length xs) (xs ++ (x ∷ [])) ++ drop (suc (length xs)) (xs ++ (x ∷ [])) ≡ xs
take-drop-append [] x = refl
take-drop-append (y ∷ ys) x = ap (λ zs. y ∷ zs) (take-drop-append ys x)

-- A location that is added where no location is the same is found at the end, and removing it gives back the locations as they were; every listener is told of both.
pub remove_location-add_location :
    (loc : Location) (c : Config)
    → get_location loc c ≡ none
    → (get_location loc (add_location loc c) ≡ some (length c.locations))
      × ((remove_location loc (add_location loc c)).locations ≡ c.locations)
      × ((remove_location loc (add_location loc c)).notified
          ≡ (c.notified ++ c.listeners) ++ c.listeners)
unfolding get_location remove_location add_location notify_listeners
remove_location-add_location loc c h =
    let at : find_location (λ x. is_same_location x loc) (c.locations ++ (loc ∷ []))
        ≡ some (length c.locations) =
      find_location-append (λ x. is_same_location x loc) c.locations loc h
        (is_same_location_refl loc) in
    (
      at,
      rw (remove_location, get_location, at) (take-drop-append c.locations loc),
      rw (remove_location, get_location, at) refl,
    )

get_elem?-inside :
    (xs : List Location) (n : ℕ) → n < length xs → (x : Location) × (get_elem? xs n ≡ some x)
get_elem?-inside [] n h = absurd (omega arith)
get_elem?-inside (x ∷ xs) zero h = (x, refl)
get_elem?-inside (x ∷ xs) (suc n) h = get_elem?-inside xs n (omega arith)

find_location-passes :
    (p : Location → Bool) (xs : List Location) (n : ℕ) (x : Location)
    → get_elem? xs n ≡ some x
    → p x ≡ true
    → (i : ℕ) × (y : Location) × (find_location p xs ≡ some i)
      × (i ≤ n)
      × (get_elem? xs i ≡ some y)
      × (p y ≡ true)
unfolding find_location
find_location-passes p [] n x g e = cc
find_location-passes p (z ∷ zs) zero x g e =
    let here : z ≡ x = cc in
    let passes : p z ≡ true = ap p here ∙ e in (0, z, rw passes refl, omega arith, refl, passes)
find_location-passes p (z ∷ zs) (suc m) x g e = elim (Bool-cases (p z)) [
  | inl q ↦ (0, z, rw q refl, omega arith, refl, q)
  | inr q ↦
      let (i, y, f, le, at, e') = find_location-passes p zs m x g e in
      (suc i, y, rw (q, f) refl, omega arith, at, e')
]

-- `GetLocation` by a position below the number of locations gives the position of a location that is the same as the one there, at that position or before it.
get_location_at_lem :
    (c : Config) (n : ℕ)
    → n < length c.locations
    → (loc y : Location) × (i : ℕ) × (get_elem? c.locations n ≡ some loc)
      × (get_location_at (pos n) c ≡ found (some i))
      × (i ≤ n)
      × (get_elem? c.locations i ≡ some y)
      × (is_same_location y loc ≡ true)
unfolding get_location_at walk_to get_location
get_location_at_lem c n h =
    let (loc, here) = get_elem?-inside c.locations n h in
    let (i, y, f, le, at, same) =
      find_location-passes (λ x. is_same_location x loc) c.locations n loc here
        (is_same_location_refl loc) in
    (
      loc,
      y,
      i,
      here,
      rw (get_location_at, walk_inside n c.locations h, here, get_location, f) refl,
      le,
      at,
      same,
    )
