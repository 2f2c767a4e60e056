-- ===== src/RestoreFiles/TreeTests.antt =====
-- Clicks in the tree at concrete inputs.
use boxi.Prelude.{◌≡◌, refl, true, some, List, [], ◌∷◌}
use boxi.RestoreFiles.Cache.{Info}
use boxi.RestoreFiles.Spec.{Entry, insert_entry_sorted, add_spec_entry, remove_spec_entry}
use boxi.RestoreFiles.Tree.{
  TreeState, match_entry, update_state, parent_state, is_own, activate, new_entry,
}
use boxi.RestoreFiles.Toggled.{Toggles, activate_lem}
use boxi.RestoreFiles.Tests.{
  root_info, home_info, letter_info, letter, cache, home_entry, cache_entry, some_entries-InOrder,
}

abbrev places : List Info
places = home_info ∷ root_info ∷ []

abbrev two_entries : List Entry
two_entries = home_entry ∷ cache_entry ∷ []

activate_lem_example : Toggles letter places places two_entries (
    activate letter places
      (parent_state two_entries places)
      (update_state two_entries (letter_info ∷ places))
      two_entries)
activate_lem_example = activate_lem letter places places two_entries some_entries-InOrder refl refl

-- The first click selects the letter.
click_letter :
    activate letter places (parent_state [] places) (update_state [] (letter_info ∷ places)) []
    ≡ some (new_entry letter places true ∷ [])
unfolding activate is_own match_entry update_state add_spec_entry insert_entry_sorted
click_letter = refl

abbrev cache_and_letter : List Entry
cache_and_letter = new_entry cache places true ∷ new_entry letter places true ∷ []

-- A click on the cache beside it then puts an entry before the letter's. The letter's state is not
-- made again: it still shows the first position.
abbrev letter_state : TreeState
letter_state = record { matching = some 0; is_included = true }

letter_state_before :
    update_state (new_entry letter places true ∷ []) (letter_info ∷ places) ≡ letter_state
unfolding match_entry update_state
letter_state_before = refl

-- A second click on the letter removes the cache's entry, and the letter stays selected.
click_letter_again :
    activate letter places (parent_state cache_and_letter places) letter_state cache_and_letter
    ≡ some (new_entry letter places true ∷ [])
unfolding activate is_own match_entry update_state remove_spec_entry
click_letter_again = refl
