-- ===== src/Location/Excluded.antt =====
-- `BoxiLocation` of include/Location.h, and `GetExcludedState` of src/Location.cc.
use boxi.Prelude.{
  ℕ, Bool, true, false, ◌&&◌, not, ◌==◌, Option, none, some, List, [], ◌∷◌, if◌then◌else◌, text_eq,
}
use boxi.Prelude.Text.{Text}
use boxi.Location.Types.{
  es_exclude, es_alwaysinclude, efd_file, efd_dir, em_exact, em_regex, ExcludedState, est_noloc,
  est_included, est_excluded, est_alwaysincluded, sense_eq, file_dir_eq, match_eq, ExcludeEntry,
  get_sense, get_file_dir, get_match,
}
use boxi.Location.ExcludeList.{ExcludeList, is_same_list, copy_from}

pub record Location : Type 0 where
  pub name : Text
  pub path : Text
  pub excluded : ExcludeList
  pub listening : Bool

-- The setters, with the calls made: of `OnExcludeListChange` and of `OnLocationChange`.
unfoldable pub set_exclude_list : Location → ExcludeList → Location × Bool × Bool
unfolding copy_from
set_exclude_list loc source =
    let copied = copy_from loc.excluded source in
    (record loc { excluded = copied.0 }, copied.1, loc.listening)

unfoldable pub set_name : Location → Text → Location × Bool
set_name loc name = (record loc { name = name }, loc.listening)

unfoldable pub set_path : Location → Text → Location × Bool
set_path loc path = (record loc { path = path }, loc.listening)

unfoldable pub set_listener : Location → Bool → Location
set_listener loc listening = record loc {
  listening = listening;
  excluded = record loc.excluded { listening = listening };
}

unfoldable pub is_same_location : Location → Location → Bool
unfolding is_same_list
is_same_location this other =
    if not (text_eq other.name this.name)
    then false
    else if not (text_eq other.path this.path)
    then false
    else is_same_list this.excluded other.excluded

-- What the code takes from wxWidgets and from POSIX: file names and their comparison, and
-- extended regular expressions (`none` where `regcomp` fails).
pub record Platform : Type 1 where
  pub FileName : Type 0
  pub file_name : Text → FileName
  pub root_of : FileName → FileName
  pub same_file_name : FileName → FileName → Bool
  pub Regex : Type 0
  pub regcomp : Text → Option Regex
  pub regexec : Regex → Text → Bool

-- What the three out parameters point at: `*pMatched`, `*ppExcludedBy`, `*ppIncludedBy`.
-- A null parameter is one that the caller ignores.
pub record Outs : Type 0 where
  pub matched : Bool
  pub excluded_by : Option ExcludeEntry
  pub included_by : Option ExcludeEntry

-- The locals of the two passes: `isExcluded`, and the out parameters.
pub record Progress : Type 0 where
  pub is_excluded : ExcludedState
  pub outs : Outs

abbrev pub state_is_always : ExcludedState → Bool
state_is_always est_alwaysincluded = true
state_is_always _ = false

abbrev pub state_is_included : ExcludedState → Bool
state_is_included est_included = true
state_is_included _ = false

-- What a matching entry writes, before the `break`.
unfoldable pub on_match : ExcludeEntry → Progress → Progress
on_match e g =
    let outs = record (g.outs) { matched = true } in
    if sense_eq (get_sense e) es_exclude
    then record { is_excluded = est_excluded; outs = record outs { excluded_by = some e } }
    else if sense_eq (get_sense e) es_alwaysinclude
    then record { is_excluded = est_alwaysincluded; outs = record outs { included_by = some e } }
    else record g { outs = outs }

-- The two tests after the passes.
unfoldable pub clear_stale : Progress → Progress
clear_stale g =
    let outs =
      (if not (state_is_always g.is_excluded)
        then record (g.outs) { included_by = none }
        else g.outs) in
    record g {
      outs = if state_is_included g.is_excluded then record outs { excluded_by = none } else outs;
    }

module _ (p : Platform) where
  unfoldable pub regex_matches : Text → Text → Bool
  regex_matches value name = elim (p.regcomp value) [ none ↦ false | some r ↦ p.regexec r name ]

  -- The local `matched` of the loop body.
  unfoldable pub entry_matches : Text → ExcludeEntry → Bool
  unfolding regex_matches
  entry_matches name e =
      if match_eq (get_match e) em_exact
      then text_eq name e.value
      else if match_eq (get_match e) em_regex
      then regex_matches e.value name
      else false

  -- The inner loop: `rest` is where `continue` goes.
  unfoldable pub scan : ℕ → Text → Bool → List ExcludeEntry → Progress → Progress
  unfolding entry_matches on_match
  scan pass name is_directory [] g = g
  scan pass name is_directory (e ∷ es) g =
      let rest = scan pass name is_directory es g in
      if pass == 1 && not (sense_eq (get_sense e) es_exclude)
      then rest
      else if pass == 2 && not (sense_eq (get_sense e) es_alwaysinclude)
      then rest
      else if file_dir_eq (get_file_dir e) efd_file && is_directory
      then rest
      else if file_dir_eq (get_file_dir e) efd_dir && not is_directory
      then rest
      else if not (entry_matches name e)
      then rest
      else on_match e g

  unfoldable pub two_passes : Text → Bool → List ExcludeEntry → Outs → Progress
  unfolding scan clear_stale
  two_passes name is_directory es outs =
      let first =
        scan 1 name is_directory es (record { is_excluded = est_included; outs = outs }) in
      clear_stale (scan 2 name is_directory es first)

  unfoldable pub get_excluded_state : Location → Text → Bool → Outs → ExcludedState × Outs
  get_excluded_state loc name is_directory outs =
      let fn = p.file_name name in
      if p.same_file_name fn (p.file_name loc.path)
      then (est_included, record outs { matched = true })
      else if p.same_file_name fn (p.root_of fn)
      then (est_noloc, outs)
      else (let g = two_passes name is_directory loc.excluded.entries outs in
          (g.is_excluded, g.outs))
