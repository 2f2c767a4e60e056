-- ===== src/Config/Indexed.antt =====
-- Editing a location by its position.
use boxi.Prelude.{
  ℕ, zero, suc, ◌<◌, ◌≡◌, refl, ap, ◌∙◌, inl, inr, true, false, some, List, [], ◌∷◌, ◌++◌,
  if◌then◌else◌, ◌==◌, ltb, length, get_elem?, take, drop, Bool-cases, arith,
}
use boxi.Prelude.Int.{pos, negsuc}
use boxi.Location.Excluded.{Location}
use boxi.Config.Locations.{
  Config, edited, at_end, notify_listeners, at_location, at_list_end, elsewhere, walk, walk_to,
  replace_location, remove_location_at,
}

pub walk_inside : (n : ℕ) (locs : List Location) → n < length locs → walk n locs ≡ at_location
unfolding walk
walk_inside zero [] h = absurd (omega arith)
walk_inside zero (x ∷ xs) h = refl
walk_inside (suc n) [] h = absurd (omega arith)
walk_inside (suc n) (x ∷ xs) h = walk_inside n xs (omega arith)

walk_at_end : (locs : List Location) → walk (length locs) locs ≡ at_list_end
unfolding walk
walk_at_end [] = refl
walk_at_end (x ∷ xs) = walk_at_end xs

walk_outside : (n : ℕ) (locs : List Location) → length locs < n → walk n locs ≡ elsewhere
unfolding walk
walk_outside zero locs h = absurd (omega arith)
walk_outside (suc n) [] h = refl
walk_outside (suc n) (x ∷ xs) h = walk_outside n xs (omega arith)

abbrev put : ℕ → Location → List Location → List Location
put n loc locs = take n locs ++ (loc ∷ drop (suc n) locs)

put-length :
    (n : ℕ) (loc : Location) (locs : List Location)
    → n < length locs
    → length (put n loc locs) ≡ length locs
put-length zero loc [] h = absurd (omega arith)
put-length zero loc (x ∷ xs) h = refl
put-length (suc n) loc [] h = absurd (omega arith)
put-length (suc n) loc (x ∷ xs) h = ap suc (put-length n loc xs (omega arith))

put-get_elem? :
    (n : ℕ) (loc : Location) (locs : List Location) (i : ℕ)
    → n < length locs
    → get_elem? (put n loc locs) i ≡ (if i == n then some loc else get_elem? locs i)
put-get_elem? zero loc [] i h = absurd (omega arith)
put-get_elem? zero loc (x ∷ xs) zero h = ground arith
put-get_elem? zero loc (x ∷ xs) (suc i) h = ground arith
put-get_elem? (suc n) loc [] i h = absurd (omega arith)
put-get_elem? (suc n) loc (x ∷ xs) zero h = ground arith
put-get_elem? (suc n) loc (x ∷ xs) (suc i) h =
    ground (arith, put-get_elem? n loc xs i (omega arith))

abbrev cut : ℕ → List Location → List Location
cut n locs = take n locs ++ drop (suc n) locs

cut-get_elem? :
    (n : ℕ) (locs : List Location) (i : ℕ)
    → n < length locs
    → get_elem? (cut n locs) i ≡ get_elem? locs (if ltb i n then i else suc i)
cut-get_elem? zero [] i h = absurd (omega arith)
cut-get_elem? zero (x ∷ xs) i h = let no : ltb i 0 ≡ false = ground arith in rw no refl
cut-get_elem? (suc n) [] i h = absurd (omega arith)
cut-get_elem? (suc n) (x ∷ xs) zero h =
    let first : ltb 0 (suc n) ≡ true = ground arith in rw first refl
cut-get_elem? (suc n) (x ∷ xs) (suc i) h = elim (Bool-cases (ltb i n)) [
  | inl e ↦
      let e' : ltb (suc i) (suc n) ≡ true = ground arith in
      rw e' (cut-get_elem? n xs i (omega arith) ∙ rw e refl)
  | inr e ↦
      let e' : ltb (suc i) (suc n) ≡ false = ground arith in
      rw e' (cut-get_elem? n xs i (omega arith) ∙ rw e refl)
]

cut-length :
    (n : ℕ) (locs : List Location) → n < length locs → suc (length (cut n locs)) ≡ length locs
cut-length zero [] h = absurd (omega arith)
cut-length zero (x ∷ xs) h = refl
cut-length (suc n) [] h = absurd (omega arith)
cut-length (suc n) (x ∷ xs) h = ap suc (cut-length n xs (omega arith))

-- Everybody was told once more.
abbrev pub Told : Config → Config → Type 0
Told c c' = (c'.notified ≡ c.notified ++ c.listeners) × (c'.listeners ≡ c.listeners)

-- The position is held by the new location, and nothing else has changed.
abbrev pub Replaced : ℕ → Location → Config → Config → Type 0
Replaced n loc c c' =
    (length c'.locations ≡ length c.locations)
    × ((i : ℕ) → get_elem? c'.locations i ≡ (if i == n then some loc else get_elem? c.locations i))
    × Told c c'

-- The position is gone, and nothing else.
abbrev pub Removed : ℕ → Config → Config → Type 0
Removed n c c' =
    (suc (length c'.locations) ≡ length c.locations)
    × ((i : ℕ) → get_elem? c'.locations i ≡ get_elem? c.locations (if ltb i n then i else suc i))
    × Told c c'

-- `ReplaceLocation` by a position: below the number of locations, it puts the new location there, changes no other and tells every listener once; at the number of locations it writes to the end of the list; from there on, and for a negative position, it changes nothing and tells nobody.
pub replace_location_lem :
    (loc : Location) (c : Config)
    → ((n : ℕ)
        → n < length c.locations
        → (c' : Config) × (replace_location (pos n) loc c ≡ edited c') × Replaced n loc c c')
      × (replace_location (pos (length c.locations)) loc c ≡ at_end)
      × ((n : ℕ) → length c.locations < n → replace_location (pos n) loc c ≡ edited c)
      × ((n : ℕ) → replace_location (negsuc n) loc c ≡ edited c)
unfolding replace_location walk_to notify_listeners
replace_location_lem loc c = (
  λ n h. (
    notify_listeners (record c { locations = put n loc c.locations }),
    rw (replace_location, walk_inside n c.locations h) refl,
    (put-length n loc c.locations h, (λ i. put-get_elem? n loc c.locations i h), (refl, refl)),
  ),
  rw (replace_location, walk_at_end c.locations) refl,
  (λ n h. rw (replace_location, walk_outside n c.locations h) refl),
  λ n. refl,
)

-- `RemoveLocation` by a position: below the number of locations, it takes out the location there and no other and tells every listener once; at the number of locations it erases the end of the list; from there on, and for a negative position, it changes nothing and tells nobody.
pub remove_location_at_lem :
    (c : Config)
    → ((n : ℕ)
        → n < length c.locations
        → (c' : Config) × (remove_location_at (pos n) c ≡ edited c') × Removed n c c')
      × (remove_location_at (pos (length c.locations)) c ≡ at_end)
      × ((n : ℕ) → length c.locations < n → remove_location_at (pos n) c ≡ edited c)
      × ((n : ℕ) → remove_location_at (negsuc n) c ≡ edited c)
unfolding remove_location_at walk_to notify_listeners
remove_location_at_lem c = (
  λ n h. (
    notify_listeners (record c { locations = cut n c.locations }),
    rw (remove_location_at, walk_inside n c.locations h) refl,
    (cut-length n c.locations h, (λ i. cut-get_elem? n c.locations i h), (refl, refl)),
  ),
  rw (remove_location_at, walk_at_end c.locations) refl,
  (λ n h. rw (remove_location_at, walk_outside n c.locations h) refl),
  λ n. refl,
)
