-- ===== src/Location/Types.antt =====
-- The exclusion types and entries of include/Location.h, and the table `theExcludeTypes` of
-- src/Location.cc.
use boxi.Prelude.{Bool, true, false, ◌&&◌, List, [], ◌∷◌, ◌++◌, lit, text_eq}
use boxi.Prelude.Text.{Text}

pub data ExcludeSense : Type 0 where
  es_unknown es_exclude es_alwaysinclude : ExcludeSense

pub data ExcludeFileDir : Type 0 where
  efd_unknown efd_file efd_dir : ExcludeFileDir

pub data ExcludeMatch : Type 0 where
  em_unknown em_exact em_regex : ExcludeMatch

pub data ExcludedState : Type 0 where
  est_unknown est_noloc est_included est_excluded est_alwaysincluded : ExcludedState

-- `==` of two enumerators.
abbrev pub sense_eq : ExcludeSense → ExcludeSense → Bool
sense_eq es_unknown es_unknown = true
sense_eq es_exclude es_exclude = true
sense_eq es_alwaysinclude es_alwaysinclude = true
sense_eq _ _ = false

abbrev pub file_dir_eq : ExcludeFileDir → ExcludeFileDir → Bool
file_dir_eq efd_unknown efd_unknown = true
file_dir_eq efd_file efd_file = true
file_dir_eq efd_dir efd_dir = true
file_dir_eq _ _ = false

abbrev pub match_eq : ExcludeMatch → ExcludeMatch → Bool
match_eq em_unknown em_unknown = true
match_eq em_exact em_exact = true
match_eq em_regex em_regex = true
match_eq _ _ = false

pub record ExcludeType : Type 0 where
  pub sense : ExcludeSense
  pub file_or_dir : ExcludeFileDir
  pub match : ExcludeMatch

unfoldable pub get_sense_string : ExcludeSense → Text
get_sense_string es_exclude = lit "Exclude"
get_sense_string es_alwaysinclude = lit "AlwaysInclude"
get_sense_string _ = lit "Unknown"

unfoldable pub get_file_dir_string : ExcludeFileDir → Text
get_file_dir_string efd_file = lit "File"
get_file_dir_string efd_dir = lit "Dir"
get_file_dir_string _ = lit "Unknown"

unfoldable pub get_match_string : ExcludeMatch → Text
get_match_string em_exact = []
get_match_string em_regex = lit "sRegex"
get_match_string _ = lit "Unknown"

-- `BoxiExcludeType::ToString`: the key of the configuration file.
unfoldable pub type_to_string : ExcludeType → Text
unfolding get_sense_string get_file_dir_string get_match_string
type_to_string t =
    []
    ++ (get_sense_string t.sense ++ (get_file_dir_string t.file_or_dir ++ get_match_string t.match))

-- `theExcludeTypes`.
abbrev pub the_exclude_types : List ExcludeType
the_exclude_types =
    record { sense = es_exclude; file_or_dir = efd_dir; match = em_exact }
    ∷ record { sense = es_exclude; file_or_dir = efd_dir; match = em_regex }
    ∷ record { sense = es_exclude; file_or_dir = efd_file; match = em_exact }
    ∷ record { sense = es_exclude; file_or_dir = efd_file; match = em_regex }
    ∷ record { sense = es_alwaysinclude; file_or_dir = efd_dir; match = em_exact }
    ∷ record { sense = es_alwaysinclude; file_or_dir = efd_dir; match = em_regex }
    ∷ record { sense = es_alwaysinclude; file_or_dir = efd_file; match = em_exact }
    ∷ record { sense = es_alwaysinclude; file_or_dir = efd_file; match = em_regex }
    ∷ []

-- An entry holds a pointer to its type; only what it points at is read.
pub record ExcludeEntry : Type 0 where
  pub type : ExcludeType
  pub value : Text

abbrev pub get_sense : ExcludeEntry → ExcludeSense
get_sense e = e.type.sense

abbrev pub get_file_dir : ExcludeEntry → ExcludeFileDir
get_file_dir e = e.type.file_or_dir

abbrev pub get_match : ExcludeEntry → ExcludeMatch
get_match e = e.type.match

-- `BoxiExcludeEntry::ToString`: the line of the configuration file.
unfoldable pub entry_to_string : ExcludeEntry → Text
unfolding type_to_string
entry_to_string e = [] ++ (type_to_string e.type ++ (lit " = " ++ e.value))

-- `BoxiExcludeEntry::IsSameAs`.
unfoldable pub is_same_entry : ExcludeEntry → ExcludeEntry → Bool
is_same_entry this other =
    sense_eq (get_sense other) (get_sense this)
    && file_dir_eq (get_file_dir other) (get_file_dir this)
    && match_eq (get_match other) (get_match this)
    && text_eq other.value this.value
