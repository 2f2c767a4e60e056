-- ===== src/Location/Tests.antt =====
-- The theorems on locations at concrete lists and names.
use mathlib.Core.List.Perm
use boxi.Prelude.{
  ◌≡◌, refl, Bool, true, false, ◌&&◌, not, none, some, [], ◌∷◌, lit, text_eq, length, ◌⊎◌,
  if◌then◌else◌, ◌==◌,
}
use boxi.Prelude.Text.{Text}
use boxi.Location.Types.{
  ExcludeEntry, es_exclude, es_alwaysinclude, efd_file, efd_dir, em_exact, em_regex,
  est_alwaysincluded, est_included, est_noloc, is_same_entry, entry_to_string,
}
use boxi.Location.ExcludeList.{
  ExcludeList, done, thrown, item_not_found, holds_same, add_entry, insert_entry, replace_entry,
  remove_entry, contains,
}
use boxi.Location.Excluded.{Location, Platform, Outs, get_excluded_state, two_passes}
use boxi.Location.Verdict.{verdict, culprit, explain, get_excluded_state_lem}
use boxi.Location.Order.{get_excluded_state-perm}
use boxi.Location.Editing.{Distinct, Adds, add_entry-Adds}
use boxi.Location.Removing.{remove_entry_lem}
use boxi.Location.Replacing.{replace_entry_lem, replace_entry_duplicates}
use boxi.Location.Names.{entry_to_string-injective}

abbrev starts_with : Text → Text → Bool
starts_with [] t = true
starts_with (c ∷ cs) [] = false
starts_with (c ∷ cs) (d ∷ ds) = (c == d) && starts_with cs ds

-- File names are texts, `/` is the only root, and a regular expression is a prefix.
abbrev posix : Platform
posix = record {
  FileName = Text;
  file_name = λ t. t;
  root_of = λ _. lit "/";
  same_file_name = text_eq;
  Regex = Text;
  regcomp = λ t. some t;
  regexec = starts_with;
}

abbrev no_tmp : ExcludeEntry
no_tmp = record {
  type = record { sense = es_exclude; file_or_dir = efd_dir; match = em_exact };
  value = lit "/home/tmp";
}

abbrev keep_tmp : ExcludeEntry
keep_tmp = record {
  type = record { sense = es_alwaysinclude; file_or_dir = efd_dir; match = em_regex };
  value = lit "/home/t";
}

abbrev no_home : ExcludeEntry
no_home = record {
  type = record { sense = es_exclude; file_or_dir = efd_file; match = em_regex };
  value = lit "/home";
}

abbrev rules : ExcludeList
rules = record { entries = no_tmp ∷ keep_tmp ∷ []; listening = true }

abbrev home : Location
home = record { name = lit "home"; path = lit "/home"; excluded = rules; listening = true }

abbrev unset : Outs
unset = record { matched = false; excluded_by = none; included_by = none }

tmp_is_kept : get_excluded_state posix home (lit "/home/tmp") true unset ≡ (
  est_alwaysincluded,
  record { matched = true; excluded_by = some no_tmp; included_by = some keep_tmp },
)
unfolding get_excluded_state two_passes text_eq
tmp_is_kept = refl

get_excluded_state_lem_example : get_excluded_state posix home (lit "/home/tmp") true unset ≡ (
    if text_eq (lit "/home/tmp") (lit "/home")
    then (est_included, record unset { matched = true })
    else if text_eq (lit "/home/tmp") (lit "/")
    then (est_noloc, unset)
    else (
      verdict posix (lit "/home/tmp") true rules.entries,
      explain
          (culprit posix es_exclude (lit "/home/tmp") true rules.entries)
          (culprit posix es_alwaysinclude (lit "/home/tmp") true rules.entries)
          unset,
    ))
get_excluded_state_lem_example = get_excluded_state_lem posix home (lit "/home/tmp") true unset

abbrev home_reordered : Location
home_reordered = record home {
  excluded = record rules { entries = keep_tmp ∷ no_tmp ∷ [] };
  name = lit "other";
}

get_excluded_state-perm_example :
    (get_excluded_state posix home (lit "/home/tmp") true unset).0
    ≡ (get_excluded_state posix home_reordered (lit "/home/tmp") true unset).0
get_excluded_state-perm_example =
    get_excluded_state-perm posix home home_reordered (lit "/home/tmp") true unset refl
      (Perm.swap keep_tmp no_tmp [])

rules-Distinct : Distinct rules.entries
unfolding holds_same is_same_entry
rules-Distinct = (refl, (refl, tt))

add_entry-Adds_example :
    (l' : ExcludeList) × (called : Bool) × (add_entry rules no_home ≡ done l' called)
    × Adds rules no_home l' called
add_entry-Adds_example = add_entry-Adds rules no_home

insert_second :
    insert_entry rules 1 no_home
    ≡ done (record rules { entries = no_tmp ∷ no_home ∷ keep_tmp ∷ [] }) true
unfolding insert_entry is_same_entry
insert_second = refl

rules_contain_tmp : contains rules no_tmp ≡ true
unfolding contains is_same_entry text_eq
rules_contain_tmp = refl

remove_entry_lem_example :
    (l' : ExcludeList) × (remove_entry rules no_tmp ≡ done l' true)
    × ((x : ExcludeEntry) → contains l' x ≡ (contains rules x && not (is_same_entry no_tmp x)))
    × Distinct l'.entries
remove_entry_lem_example = remove_entry_lem rules no_tmp rules-Distinct rules_contain_tmp

replace_entry_lem_example :
    ((contains rules no_tmp ≡ false) × (replace_entry rules no_tmp no_home ≡ thrown item_not_found))
    ⊎ ((l' : ExcludeList) × (replace_entry rules no_tmp no_home ≡ done l' true)
        × (length l'.entries ≡ 2)
        × (contains l' no_home ≡ true)
        × ((x : ExcludeEntry)
            → is_same_entry no_tmp x ≡ false
            → is_same_entry no_home x ≡ false
            → contains l' x ≡ contains rules x)
        × (contains rules no_home ≡ false → Distinct rules.entries → Distinct l'.entries))
replace_entry_lem_example = replace_entry_lem rules no_tmp no_home

tmp_and_keep_differ : is_same_entry no_tmp keep_tmp ≡ false
unfolding is_same_entry
tmp_and_keep_differ = refl

rules_contain_keep : contains rules keep_tmp ≡ true
unfolding contains is_same_entry text_eq
rules_contain_keep = refl

replace_entry_duplicates_example :
    (l' : ExcludeList) × (replace_entry rules no_tmp keep_tmp ≡ done l' true)
    × ¬ Distinct l'.entries
replace_entry_duplicates_example =
    replace_entry_duplicates rules no_tmp keep_tmp tmp_and_keep_differ rules_contain_tmp
      rules_contain_keep

no_tmp_line : entry_to_string no_tmp ≡ lit "ExcludeDir = /home/tmp"
unfolding entry_to_string
no_tmp_line = refl

entry_to_string-injective_example : is_same_entry no_tmp no_tmp ≡ true
entry_to_string-injective_example = entry_to_string-injective no_tmp no_tmp refl refl refl
