-- ===== src/Location/BoxList.antt =====
-- `BoxiLocation::GetBoxExcludeList` of src/Location.cc.
use boxi.Prelude.{
  ◌≡◌, Bool, true, false, ◌&&◌, ◌||◌, not, none, some, List, [], ◌∷◌, ◌++◌, any, if◌then◌else◌,
  text_eq,
}
use boxi.Prelude.Text.{Text}
use boxi.Location.Types.{
  es_unknown, es_exclude, es_alwaysinclude, efd_file, efd_dir, em_exact, em_regex,
  est_alwaysincluded, est_excluded, est_included, sense_eq, file_dir_eq, match_eq, ExcludeEntry,
  get_sense, get_file_dir, get_match,
}
use boxi.Location.Excluded.{Platform, Location, regex_matches}
use boxi.Location.Verdict.{hits, verdict}

-- Box Backup's `ExcludeList`, as the calls that were made on it: the arguments of
-- `AddDefiniteEntries` and of `AddRegexEntries`, in order.
pub record BoxList : Type 0 where
  pub definite : List Text
  pub regex : List Text

-- The two lists: `pExclude`, and the `pInclude` that is set as its always-include list.
pub record BoxLists : Type 0 where
  pub exclude : BoxList
  pub include : BoxList

abbrev pub empty_lists : BoxLists
empty_lists = record {
  exclude = record { definite = []; regex = [] };
  include = record { definite = []; regex = [] };
}

abbrev add_definite : BoxList → Text → BoxList
add_definite l v = record l { definite = l.definite ++ (v ∷ []) }

abbrev add_regex : BoxList → Text → BoxList
add_regex l v = record l { regex = l.regex ++ (v ∷ []) }

-- What `GetBoxExcludeList` does: it returns the lists, calls a method through the null `pList`,
-- which it does not test, or deletes both lists and throws what was thrown.
pub data Built : Type 0 where
  built : BoxLists → Built
  null_call thrown : Built

-- `AddRegexEntries` compiles the expression, and throws where that fails.
abbrev pub compiles : Platform → Text → Bool
compiles p value = elim (p.regcomp value) [ none ↦ false | some r ↦ true ]

-- The call on `*pList` for the entry's match.
unfoldable pub add_value : ExcludeEntry → BoxList → BoxList
add_value e l =
    if match_eq (get_match e) em_exact
    then add_definite l e.value
    else if match_eq (get_match e) em_regex
    then add_regex l e.value
    else l

abbrev pub is_bad : Platform → ExcludeEntry → Bool
is_bad p e = match_eq (get_match e) em_regex && not (compiles p e.value)

-- One round of the loop.
unfoldable pub add_to_lists : Platform → Bool → ExcludeEntry → BoxLists → Built
unfolding add_value
add_to_lists p list_dirs e b =
    if list_dirs && file_dir_eq (get_file_dir e) efd_file
    then built b
    else if not list_dirs && file_dir_eq (get_file_dir e) efd_dir
    then built b
    else if sense_eq (get_sense e) es_exclude
    then (if is_bad p e then thrown else built (record b { exclude = add_value e b.exclude }))
    else if sense_eq (get_sense e) es_alwaysinclude
    then (if is_bad p e then thrown else built (record b { include = add_value e b.include }))
    else if match_eq (get_match e) em_exact || match_eq (get_match e) em_regex
    then null_call
    else built b

abbrev pub then_built : Built → (BoxLists → Built) → Built
then_built (built b) go = go b
then_built null_call go = null_call
then_built thrown go = thrown

unfoldable pub add_all_to_lists : Platform → Bool → List ExcludeEntry → BoxLists → Built
add_all_to_lists p list_dirs [] b = built b
add_all_to_lists p list_dirs (e ∷ es) b =
    then_built (add_to_lists p list_dirs e b) (add_all_to_lists p list_dirs es)

unfoldable pub get_box_exclude_list : Platform → Location → Bool → Built
unfolding add_all_to_lists add_to_lists
get_box_exclude_list p loc list_dirs = add_all_to_lists p list_dirs loc.excluded.entries empty_lists

abbrev lists_or : BoxLists → Built → BoxLists
lists_or d (built b) = b
lists_or d null_call = d
lists_or d thrown = d

-- The entry is for such names, and its regular expression does not compile.
abbrev pub throws_at : Platform → Bool → ExcludeEntry → Bool
throws_at p list_dirs e =
    not (list_dirs && file_dir_eq (get_file_dir e) efd_file)
    && not (not list_dirs && file_dir_eq (get_file_dir e) efd_dir)
    && is_bad p e

-- The sense is one of the two that the table of types has.
abbrev pub IsSensible : ExcludeEntry → Type 0
IsSensible e = (sense_eq (get_sense e) es_unknown ≡ false)

module _ (p : Platform) (name : Text) where
  -- The name is in the list: equal to a definite value, or matched by a regular expression.
  abbrev pub in_box_list : BoxList → Bool
  in_box_list l = any (λ v. text_eq name v) l.definite || any (λ v. regex_matches p v name) l.regex

  -- Both lists after some rounds: what they hold of the name.
  record Holds (b b' : BoxLists) (x i : Bool) : Type 0 where
    excluded : in_box_list b'.exclude ≡ (in_box_list b.exclude || x)
    included : in_box_list b'.include ≡ (in_box_list b.include || i)

  module _ (list_dirs : Bool) where
    -- What the loop has done with some entries.
    abbrev Rounds : BoxLists → List ExcludeEntry → Built → Type 0
    Rounds b es (built b') =
        (any (throws_at p list_dirs) es ≡ false)
        × Holds b b' (any (hits p es_exclude name list_dirs) es)
            (any (hits p es_alwaysinclude name list_dirs) es)
    Rounds b es null_call = ⊥
    Rounds b es thrown = any (throws_at p list_dirs) es ≡ true

-- What the daemon's lists are to say of a name, and that the building throws only where it has to.
abbrev pub Agrees : Platform → Text → Bool → List ExcludeEntry → Built → Type 0
Agrees p name list_dirs es (built b) =
    (any (throws_at p list_dirs) es ≡ false)
    × (verdict p name list_dirs es ≡ (
        if in_box_list p name b.include
        then est_alwaysincluded
        else if in_box_list p name b.exclude
        then est_excluded
        else est_included))
Agrees p name list_dirs es null_call = ⊥
Agrees p name list_dirs es thrown = any (throws_at p list_dirs) es ≡ true
