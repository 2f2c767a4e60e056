-- ===== src/Location/Verdict.antt =====
-- What `GetExcludedState` decides, said without its loops.
use boxi.Prelude.{
  ◌≡◌, refl, Bool, true, ◌&&◌, not, Option, none, some, List, [], ◌∷◌, if◌then◌else◌, any, find,
  arith, ap, ◌∙◌, find-cases, inl, inr,
}
use boxi.Prelude.Text.{Text}
use boxi.Location.Types.{
  ExcludeSense, es_exclude, es_alwaysinclude, efd_file, efd_dir, ExcludedState, est_noloc,
  est_included, est_excluded, est_alwaysincluded, sense_eq, file_dir_eq, ExcludeEntry, get_sense,
  get_file_dir,
}
use boxi.Location.Excluded.{
  Location, Platform, Outs, Progress, entry_matches, on_match, scan, clear_stale, two_passes,
  get_excluded_state,
}

-- An entry applies to a file or directory: its kind fits and its value matches.
abbrev pub applies : Platform → Text → Bool → ExcludeEntry → Bool
applies p name is_directory e =
    not (file_dir_eq (get_file_dir e) efd_file && is_directory)
    && not (file_dir_eq (get_file_dir e) efd_dir && not is_directory)
    && entry_matches p name e

-- An entry of the given sense that applies.
abbrev pub hits : Platform → ExcludeSense → Text → Bool → ExcludeEntry → Bool
hits p sense name is_directory e = sense_eq (get_sense e) sense && applies p name is_directory e

-- The verdict below a location's root: AlwaysInclude wins over Exclude.
abbrev pub verdict : Platform → Text → Bool → List ExcludeEntry → ExcludedState
verdict p name is_directory es =
    if any (hits p es_alwaysinclude name is_directory) es
    then est_alwaysincluded
    else if any (hits p es_exclude name is_directory) es
    then est_excluded
    else est_included

abbrev after : Option ExcludeEntry → Progress → Progress
after none g = g
after (some e) g = on_match e g

module _ (p : Platform) (name : Text) (is_directory : Bool) where
  scan_exclude :
      (es : List ExcludeEntry) (g : Progress)
      → scan p 1 name is_directory es g ≡ after (find (hits p es_exclude name is_directory) es) g
  unfolding scan
  scan_exclude [] g = refl
  scan_exclude (e ∷ es) g = ground (arith, scan_exclude es g)

  scan_include :
      (es : List ExcludeEntry) (g : Progress)
      → scan p 2 name is_directory es g
        ≡ after (find (hits p es_alwaysinclude name is_directory) es) g
  unfolding scan
  scan_include [] g = refl
  scan_include (e ∷ es) g = ground (arith, scan_include es g)

-- The first entry of the sense that applies.
abbrev pub culprit : Platform → ExcludeSense → Text → Bool → List ExcludeEntry → Option ExcludeEntry
culprit p sense name is_directory es = find (hits p sense name is_directory) es

abbrev pub or_else {ℓ} : {A : Type ℓ} → Option A → Option A → Option A
or_else none d = d
or_else (some a) d = some a

-- The out parameters below a location's root, from the two culprits and what stood there.
abbrev pub explain : Option ExcludeEntry → Option ExcludeEntry → Outs → Outs
explain none none outs = record { matched = outs.matched; excluded_by = none; included_by = none }
explain (some e) none outs = record { matched = true; excluded_by = some e; included_by = none }
explain e? (some i) outs = record {
  matched = true;
  excluded_by = or_else e? outs.excluded_by;
  included_by = some i;
}

abbrev state_of : Option ExcludeEntry → Option ExcludeEntry → ExcludedState
state_of none none = est_included
state_of (some e) none = est_excluded
state_of _ (some i) = est_alwaysincluded

abbrev IsSensed : ExcludeSense → Option ExcludeEntry → Type 0
IsSensed sense none = Unit
IsSensed sense (some e) = get_sense e ≡ sense

sense_eq_sound : (a b : ExcludeSense) → sense_eq a b ≡ true → a ≡ b
sense_eq_sound a b h = ground arith

clear_after :
    (outs : Outs) (e? i? : Option ExcludeEntry)
    → IsSensed es_exclude e?
    → IsSensed es_alwaysinclude i?
    → clear_stale (after i? (after e? (record { is_excluded = est_included; outs = outs })))
      ≡ record { is_excluded = state_of e? i?; outs = explain e? i? outs }
unfolding on_match clear_stale
clear_after outs none none h k = refl
clear_after outs (some e) none h k = ground arith
clear_after outs none (some i) h k = ground arith
clear_after outs (some e) (some i) h k = ground arith

module _ (p : Platform) (name : Text) (is_directory : Bool) where
  verdict-eq-state_of :
      (es : List ExcludeEntry)
      → state_of
          (culprit p es_exclude name is_directory es)
          (culprit p es_alwaysinclude name is_directory es)
        ≡ verdict p name is_directory es
  verdict-eq-state_of es = ground (
    arith,
    find-cases (hits p es_exclude name is_directory) es,
    find-cases (hits p es_alwaysinclude name is_directory) es,
  )

  IsSensed-culprit :
      (sense : ExcludeSense) (es : List ExcludeEntry)
      → IsSensed sense (culprit p sense name is_directory es)
  IsSensed-culprit sense es = elim (find-cases (hits p sense name is_directory) es) [
    | inl (f, _) ↦ rw f tt
    | inr (e, f, _, q) ↦ rw f (ground (arith, sense_eq_sound (get_sense e) sense))
  ]

  pub two_passes_lem :
      (es : List ExcludeEntry) (outs : Outs)
      → two_passes p name is_directory es outs ≡ record {
        is_excluded = verdict p name is_directory es;
        outs =
            explain
              (culprit p es_exclude name is_directory es)
              (culprit p es_alwaysinclude name is_directory es)
              outs;
      }
  unfolding two_passes
  two_passes_lem es outs =
      rw (scan_exclude p name is_directory, scan_include p name is_directory)
        (clear_after outs (culprit p es_exclude name is_directory es)
            (culprit p es_alwaysinclude name is_directory es) (IsSensed-culprit es_exclude es)
            (IsSensed-culprit es_alwaysinclude es)
          ∙ ap
              (λ s. record {
                is_excluded = s;
                outs =
                    explain (culprit p es_exclude name is_directory es)
                      (culprit p es_alwaysinclude name is_directory es) outs;
              })
              (verdict-eq-state_of es))

-- The state and the three out parameters on every path: the location's own root, a file system
-- root, and a name below.
pub get_excluded_state_lem :
    (p : Platform) (loc : Location) (name : Text) (is_directory : Bool) (outs : Outs)
    → let fn = p.file_name name in
      let es = loc.excluded.entries in
      get_excluded_state p loc name is_directory outs ≡ (
        if p.same_file_name fn (p.file_name loc.path)
        then (est_included, record outs { matched = true })
        else if p.same_file_name fn (p.root_of fn)
        then (est_noloc, outs)
        else (
          verdict p name is_directory es,
          explain
              (culprit p es_exclude name is_directory es)
              (culprit p es_alwaysinclude name is_directory es)
              outs,
        ))
unfolding get_excluded_state
get_excluded_state_lem p loc name is_directory outs =
    rw (two_passes_lem p name is_directory loc.excluded.entries outs)
