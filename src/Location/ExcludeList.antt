-- ===== src/Location/ExcludeList.antt =====
-- `BoxiExcludeList` of include/Location.h and src/Location.cc.
use boxi.Prelude.{
  ℕ, zero, suc, Bool, true, false, not, Option, none, some, List, [], ◌∷◌, ◌++◌, map, find,
  if◌then◌else◌,
}
use boxi.Prelude.Text.{Text}
use boxi.Location.Types.{
  ExcludeType, ExcludeEntry, is_same_entry, type_to_string, the_exclude_types,
}

-- `listening` is `mpListener != NULL`.
pub record ExcludeList : Type 0 where
  pub entries : List ExcludeEntry
  pub listening : Bool

-- A throw of the source, by its text.
pub data Fault : Type 0 where
  item_not_found index_out_of_bounds : Fault

pub data Outcome : Type 0 where
  -- The list afterwards, and whether `OnExcludeListChange` was called.
  done : ExcludeList → Bool → Outcome
  thrown : Fault → Outcome

-- The search loop that starts `AddEntry` and `InsertEntry`.
unfoldable pub holds_same : ExcludeEntry → List ExcludeEntry → Bool
holds_same new [] = false
holds_same new (e ∷ es) = let rest = holds_same new es in if is_same_entry e new then true else rest

unfoldable pub add_entry : ExcludeList → ExcludeEntry → Outcome
unfolding holds_same
add_entry l new =
    if holds_same new l.entries
    then done l false
    else done (record l { entries = l.entries ++ (new ∷ []) }) l.listening

-- `for (i = begin; i != end && index > 0; i++, index--)`, then `insert(i, new)`.
unfoldable pub insert_at : ℕ → ExcludeEntry → List ExcludeEntry → List ExcludeEntry
insert_at index new [] = new ∷ []
insert_at zero new (e ∷ es) = new ∷ e ∷ es
insert_at (suc index) new (e ∷ es) = e ∷ insert_at index new es

unfoldable pub insert_entry : ExcludeList → ℕ → ExcludeEntry → Outcome
unfolding holds_same insert_at
insert_entry l index new =
    if holds_same new l.entries
    then done l false
    else done (record l { entries = insert_at index new l.entries }) l.listening

-- The loop of `ReplaceEntry`: `none` where it reaches the end.
unfoldable pub replace_same :
    ExcludeEntry → ExcludeEntry → List ExcludeEntry → Option (List ExcludeEntry)
replace_same old new [] = none
replace_same old new (e ∷ es) =
    let rest = replace_same old new es in
    if not (is_same_entry e old)
    then elim rest [ none ↦ none | some es' ↦ some (e ∷ es') ]
    else some (new ∷ es)

abbrev replaced : ExcludeList → Option (List ExcludeEntry) → Outcome
replaced l none = thrown item_not_found
replaced l (some es) = done (record l { entries = es }) l.listening

unfoldable pub replace_entry : ExcludeList → ExcludeEntry → ExcludeEntry → Outcome
unfolding replace_same
replace_entry l old new = replaced l (replace_same old new l.entries)

-- The loop of `RemoveEntry`.
unfoldable pub remove_same : ExcludeEntry → List ExcludeEntry → Option (List ExcludeEntry)
remove_same old [] = none
remove_same old (e ∷ es) =
    let rest = remove_same old es in
    if not (is_same_entry e old)
    then elim rest [ none ↦ none | some es' ↦ some (e ∷ es') ]
    else some es

abbrev removed : ExcludeList → Option (List ExcludeEntry) → Outcome
removed l none = thrown index_out_of_bounds
removed l (some es) = done (record l { entries = es }) l.listening

unfoldable pub remove_entry : ExcludeList → ExcludeEntry → Outcome
unfolding remove_same
remove_entry l old = removed l (remove_same old l.entries)

-- `UnConstEntry`: the first entry that is the same, `none` for NULL.
unfoldable pub un_const_entry : ExcludeList → ExcludeEntry → Option ExcludeEntry
un_const_entry l e = find (λ current. is_same_entry current e) l.entries

unfoldable pub contains : ExcludeList → ExcludeEntry → Bool
unfolding un_const_entry
contains l e = elim (un_const_entry l e) [ none ↦ false | some _ ↦ true ]

-- `CopyFrom`, with whether the listener was called.
unfoldable pub copy_from : ExcludeList → ExcludeList → ExcludeList × Bool
copy_from l source = (record l { entries = source.entries }, l.listening)

-- `BoxiExcludeList::IsSameAs`: one walk over both lists, then both must be at their end.
unfoldable pub same_entries : List ExcludeEntry → List ExcludeEntry → Bool
same_entries [] [] = true
same_entries [] (y ∷ ys) = false
same_entries (x ∷ xs) [] = false
same_entries (x ∷ xs) (y ∷ ys) =
    let rest = same_entries xs ys in if not (is_same_entry x y) then false else rest

unfoldable pub is_same_list : ExcludeList → ExcludeList → Bool
unfolding same_entries
is_same_list l other = same_entries l.entries other.entries

-- The Box Backup calls that the constructor from a configuration makes: `KeyExists` with
-- `GetKeyValue` (`none` where there is no such key), and `SplitString` at `MultiValueSeparator`.
pub record ConfigReader : Type 0 where
  pub key_value : Text → Option Text
  pub split : Text → List Text

unfoldable pub add_separated_list : ConfigReader → Text → ExcludeType → List ExcludeEntry
add_separated_list conf entries type =
    map (λ v. record { type = type; value = v }) (conf.split entries)

unfoldable pub add_config_list : ConfigReader → Text → ExcludeType → List ExcludeEntry
unfolding add_separated_list
add_config_list conf key type = elim (conf.key_value key) [
  | none ↦ []
  | some value ↦ add_separated_list conf value type
]

abbrev add_config_lists : ConfigReader → List ExcludeType → List ExcludeEntry
add_config_lists conf [] = []
add_config_lists conf (t ∷ ts) =
    add_config_list conf (type_to_string t) t ++ add_config_lists conf ts

-- `BoxiExcludeList(conf, pListener)`.
unfoldable pub from_config : ConfigReader → Bool → ExcludeList
unfolding add_config_list
from_config conf listening = record {
  entries = add_config_lists conf the_exclude_types;
  listening = listening;
}
