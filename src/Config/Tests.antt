-- ===== src/Config/Tests.antt =====
-- The configuration at concrete inputs.
use boxi.Prelude.{
  true, text_eq, ℕ, ◌<◌, ◌≡◌, refl, true, false, none, some, List, [], ◌∷◌, lit, if◌then◌else◌,
}
use boxi.Prelude.Int.{pos, negsuc}
use boxi.Location.ExcludeList.{ExcludeList}
use boxi.Location.Excluded.{Location, is_same_location}
use boxi.Config.Locations.{
  Config, edited, at_end, notify_listeners, replace_location, remove_location_at, get_location,
  find_location, add_location, remove_location,
}
use boxi.Config.Listeners.{
  count, Registration, adds, removes, register, is_registered, notify_listeners-register,
}
use boxi.Config.Indexed.{Replaced, Removed, replace_location_lem, remove_location_at_lem}
use boxi.Config.Table.{remove_location-add_location}

abbrev no_excludes : ExcludeList
no_excludes = record { entries = []; listening = true }

abbrev home : Location
home = record { name = lit "home"; path = lit "/home"; excluded = no_excludes; listening = true }

abbrev mail : Location
mail = record {
  name = lit "mail";
  path = lit "/var/mail";
  excluded = no_excludes;
  listening = true;
}

abbrev one_location : Config
one_location = record { locations = home ∷ []; listeners = 4 ∷ 9 ∷ []; notified = [] }

abbrev empty_config : Config
empty_config = record { locations = []; listeners = []; notified = [] }

abbrev comings : List Registration
comings = adds 4 ∷ adds 9 ∷ adds 4 ∷ removes 9 ∷ []

notify_listeners-register_example :
    count 4 (notify_listeners (register comings empty_config)).notified
    ≡ (if is_registered comings 4 false then 1 else 0)
notify_listeners-register_example = notify_listeners-register comings 4 empty_config refl refl

replace_location_lem_example :
    ((n : ℕ)
      → n < 1
      → (c' : Config) × (replace_location (pos n) mail one_location ≡ edited c')
        × Replaced n mail one_location c')
    × (replace_location (pos 1) mail one_location ≡ at_end)
    × ((n : ℕ) → 1 < n → replace_location (pos n) mail one_location ≡ edited one_location)
    × ((n : ℕ) → replace_location (negsuc n) mail one_location ≡ edited one_location)
replace_location_lem_example = replace_location_lem mail one_location

remove_location_at_lem_example :
    ((n : ℕ)
      → n < 1
      → (c' : Config) × (remove_location_at (pos n) one_location ≡ edited c')
        × Removed n one_location c')
    × (remove_location_at (pos 1) one_location ≡ at_end)
    × ((n : ℕ) → 1 < n → remove_location_at (pos n) one_location ≡ edited one_location)
    × ((n : ℕ) → remove_location_at (negsuc n) one_location ≡ edited one_location)
remove_location_at_lem_example = remove_location_at_lem one_location

mail-is_new : get_location mail one_location ≡ none
unfolding get_location find_location is_same_location text_eq
mail-is_new = refl

remove_location-add_location_example :
    (get_location mail (add_location mail one_location) ≡ some 1)
    × ((remove_location mail (add_location mail one_location)).locations ≡ home ∷ [])
    × ((remove_location mail (add_location mail one_location)).notified ≡ 4 ∷ 9 ∷ 4 ∷ 9 ∷ [])
remove_location-add_location_example = remove_location-add_location mail one_location mail-is_new
