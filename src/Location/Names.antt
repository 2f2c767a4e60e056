-- ===== src/Location/Names.antt =====
-- The configuration keys of the exclusion types, and the lines that entries are written as.
use boxi.Prelude.{◌≡◌, Bool, true, ◌&&◌, not, arith}
use boxi.Prelude.Text.{Text}
use boxi.Location.Sameness.{is_same_entry_iff}
use boxi.Location.Types.{
  ExcludeSense, ExcludeFileDir, ExcludeMatch, ExcludeType, ExcludeEntry, sense_eq, file_dir_eq,
  es_unknown, es_exclude, es_alwaysinclude, efd_unknown, em_unknown, match_eq, is_same_entry,
  entry_to_string,
}

-- No field is the unknown one, as of all the types in the table.
abbrev pub is_known : ExcludeType → Bool
is_known t =
    not (sense_eq t.sense es_unknown)
    && not (file_dir_eq t.file_or_dir efd_unknown)
    && not (match_eq t.match em_unknown)

-- The lines of two entries differ in the key or behind it.
same_line :
    (s s' : ExcludeSense) (d d' : ExcludeFileDir) (m m' : ExcludeMatch) (v v' : Text)
    → is_known (record { sense = s; file_or_dir = d; match = m }) ≡ true
    → is_known (record { sense = s'; file_or_dir = d'; match = m' }) ≡ true
    → entry_to_string
        (record { type = record { sense = s; file_or_dir = d; match = m }; value = v })
      ≡ entry_to_string
          (record { type = record { sense = s'; file_or_dir = d'; match = m' }; value = v' })
    → (s ≡ s') × (d ≡ d') × (m ≡ m') × (v ≡ v')
unfolding entry_to_string
same_line es_exclude es_exclude d d' m m' v v' h h' e = ground arith
same_line es_alwaysinclude es_alwaysinclude d d' m m' v v' h h' e = ground arith
same_line s s' d d' m m' v v' h h' e = ground arith

-- `ToString` tells apart any two entries of the types in the table: equal lines are written for
-- the same entries only.
pub entry_to_string-injective :
    (a b : ExcludeEntry)
    → is_known a.type ≡ true
    → is_known b.type ≡ true
    → entry_to_string a ≡ entry_to_string b
    → is_same_entry a b ≡ true
entry_to_string-injective a b h h' e =
    let (s, d, m, v) =
      same_line a.type.sense b.type.sense a.type.file_or_dir b.type.file_or_dir a.type.match
        b.type.match a.value b.value h h' e in
    (is_same_entry_iff a b).1
      (λ i. record { type = record { sense = s i; file_or_dir = d i; match = m i }; value = v i })
