-- ===== src/Config/Locations.antt =====
-- The locations and the listeners of `ClientConfig`, in src/ClientConfig.cc.
use boxi.Prelude.{
  ℕ, zero, suc, Bool, Option, none, some, List, [], ◌∷◌, ◌++◌, if◌then◌else◌, ◌==◌, get_elem?, take,
  drop, any, text_eq,
}
use boxi.Prelude.Text.{Text}
use boxi.Prelude.Int.{ℤ, pos, negsuc}
use boxi.Location.Excluded.{Location, is_same_location}

-- `mLocations` and `mListeners`, a listener by its number, and the calls of `NotifyChange` made so
-- far, the earliest first.
pub record Config : Type 0 where
  pub locations : List Location
  pub listeners : List ℕ
  pub notified : List ℕ

-- An operation ends, or dereferences or erases the end of the list.
pub data Edited : Type 0 where
  edited : Config → Edited
  at_end : Edited

unfoldable pub notify_listeners : Config → Config
notify_listeners c = record c { notified = c.notified ++ c.listeners }

unfoldable pub add_listener : ℕ → Config → Config
add_listener l c =
    if any (λ x. x == l) c.listeners then c else record c { listeners = c.listeners ++ (l ∷ []) }

unfoldable pub erase_listener : ℕ → List ℕ → List ℕ
erase_listener l [] = []
erase_listener l (x ∷ xs) = let rest = erase_listener l xs in if x == l then xs else x ∷ rest

unfoldable pub remove_listener : ℕ → Config → Config
remove_listener l c = record c { listeners = erase_listener l c.listeners }

unfoldable pub add_location : Location → Config → Config
add_location loc c = notify_listeners (record c { locations = c.locations ++ (loc ∷ []) })

-- The loop with the counter `i`, and the test `i == target` behind it: where the iterator stands
-- if it reached the position, at a location or at the end of the list.
pub data Walked : Type 0 where
  at_location at_list_end elsewhere : Walked

-- With what is left to the target, which the counter reaches from below.
unfoldable pub walk : ℕ → List Location → Walked
walk zero [] = at_list_end
walk zero (x ∷ xs) = at_location
walk (suc n) [] = elsewhere
walk (suc n) (x ∷ xs) = walk n xs

unfoldable pub walk_to : ℤ → List Location → Walked
walk_to (pos n) locs = walk n locs
walk_to (negsuc n) locs = elsewhere

abbrev pub position : ℤ → ℕ
position (pos n) = n
position (negsuc n) = 0

unfoldable pub replace_location : ℤ → Location → Config → Edited
replace_location target loc c = elim (walk_to target c.locations) [
  | at_location ↦ edited (
      notify_listeners (record c {
        locations =
            take (position target) c.locations ++ (loc ∷ drop (suc (position target)) c.locations);
      }))
  | at_list_end ↦ at_end
  | elsewhere ↦ edited c
]

unfoldable pub remove_location_at : ℤ → Config → Edited
remove_location_at target c = elim (walk_to target c.locations) [
  | at_location ↦ edited (
      notify_listeners (record c {
        locations = take (position target) c.locations ++ drop (suc (position target)) c.locations;
      }))
  | at_list_end ↦ at_end
  | elsewhere ↦ edited c
]

abbrev pub further : Option ℕ → Option ℕ
further none = none
further (some i) = some (suc i)

-- The position of the first location that passes a test; a pointer to a location is its position.
unfoldable pub find_location : (Location → Bool) → List Location → Option ℕ
find_location p [] = none
find_location p (x ∷ xs) = let rest = further (find_location p xs) in if p x then some 0 else rest

unfoldable pub get_location : Location → Config → Option ℕ
get_location loc c = find_location (λ x. is_same_location x loc) c.locations

unfoldable pub get_location_named : Text → Config → Option ℕ
get_location_named name c = find_location (λ x. text_eq x.name name) c.locations

-- `RemoveLocation(const BoxiLocation&)`.
unfoldable pub remove_location : Location → Config → Config
remove_location loc c = elim (get_location loc c) [
  | none ↦ c
  | some i ↦
      notify_listeners (record c { locations = take i c.locations ++ drop (suc i) c.locations })
]

-- `GetLocation(int)`: the walk, and then the first location that is the same.
pub data Found : Type 0 where
  found : Option ℕ → Found
  read_end : Found

abbrev pub same_as : Option Location → Config → Option ℕ
same_as none c = none
same_as (some loc) c = get_location loc c

unfoldable pub get_location_at : ℤ → Config → Found
get_location_at target c = elim (walk_to target c.locations) [
  | at_location ↦ found (same_as (get_elem? c.locations (position target)) c)
  | at_list_end ↦ read_end
  | elsewhere ↦ found none
]
