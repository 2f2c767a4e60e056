-- ===== src/RestoreFiles/CountedAll.antt =====
-- What the loop over the entries counts is enough for the entries that it leaves.
use boxi.Prelude.{
  ℕ, ◌+◌, ◌≡◌, Bool, true, false, not, List, [], ◌∷◌, ◌++◌, if◌then◌else◌, any, length, if_known,
  arith,
}
use boxi.Prelude.Text.{Text}
use boxi.RestoreFiles.Spec.{Entry, address, entry_path, is_same_spec_entry}
use boxi.RestoreFiles.Count.{Counting, Job, count_files_recursive}
use boxi.RestoreFiles.Counted.{Excludes, count_files_recursive-CountedAs}
use boxi.RestoreFiles.Kept.{Fewer, Fewer-refl, Kept, Kept-weaken, Kept-Fewer, Kept-pass, Kept-skip}
use boxi.RestoreFiles.LocalName.{chop}
use boxi.RestoreFiles.Panel.{count_entries, parent_id}
use boxi.RestoreFiles.Selected.{Planned, bytes_of, plan}
use boxi.RestoreFiles.Whole.{parent_or_none}

not-true : (b : Bool) → not b ≡ true → b ≡ false
not-true b h = ground arith

module _ (j : Job) (ex : ℕ → Bool) (base : Text) where
  -- What an entry selects, where the addresses are excluded that `ex` tells.
  abbrev pub selects : Entry → List Planned
  selects e =
      if e.is_include
      then plan ex j.epoch e.node (parent_or_none (parent_id e.above)) (chop (base ++ entry_path e))
      else []

  abbrev pub files : Entry → ℕ
  files e = length (selects e)

  abbrev pub bytes : Entry → ℕ
  bytes e = bytes_of j.block_size (selects e)

  -- The state of the loop: what is left of the entries seen was counted.
  pub record CountedFor (todo : List Entry) (c : Counting) : Type 0 where
    pub files_kept : Kept files c.entries todo c.files
    pub bytes_kept : Kept bytes c.entries todo c.bytes
    pub same : Excludes ex c

  CountedFor-pass :
      (e : Entry) (todo : List Entry) (c c' : Counting)
      → c'.files ≡ c.files + files e
      → c'.bytes ≡ c.bytes + bytes e
      → Excludes ex c'
      → Fewer c'.entries c.entries
      → CountedFor (e ∷ todo) c
      → CountedFor todo c'
  CountedFor-pass e todo c c' f b s l h = record {
    files_kept =
        Kept-weaken files (omega (arith, f)) (Kept-pass files e (Kept-Fewer files l h.files_kept));
    bytes_kept =
        Kept-weaken bytes (omega (arith, b)) (Kept-pass bytes e (Kept-Fewer bytes l h.bytes_kept));
    same = s;
  }

  pub count_entries-CountedFor :
      (todo : List Entry) (c : Counting)
      → ((k : ℕ) → j.stops k ≡ false)
      → ((a : ℕ) → j.lists a ≡ true)
      → CountedFor todo c
      → CountedFor [] (count_entries j todo c)
  unfolding count_entries
  count_entries-CountedFor [] c calm all h = h
  count_entries-CountedFor (e ∷ todo) c calm all h =
      let P = λ (c' : Counting). CountedFor [] c' in
      let planned = selects e in
      if_known P (not (any (λ x. is_same_spec_entry x e) c.entries))
        (λ q. count_entries-CountedFor todo c calm all (record {
          files_kept = Kept-skip files e h.files_kept (not-true _ q);
          bytes_kept = Kept-skip bytes e h.bytes_kept (not-true _ q);
          same = h.same;
        }))
        (λ found.
          if_known P e.is_include
            (λ q.
              let counted =
                count_files_recursive-CountedAs j ex (address e) e.node
                  (parent_or_none (parent_id e.above)) (chop (base ++ entry_path e)) c calm all
                  h.same in
              let c' = count_files_recursive j (address e) e.node c in
              count_entries-CountedFor todo c' calm all (
                CountedFor-pass e todo c c' (rw q counted.files) (rw q counted.bytes) counted.same
                  counted.fewer h))
            (λ q. count_entries-CountedFor todo c calm all (
              CountedFor-pass e todo c c (rw q (omega arith)) (rw q (omega arith)) h.same
                (Fewer-refl c.entries) h)))
