-- ===== src/RestoreFiles/Finished.antt =====
-- What a restore that is shown has fetched and counted.
use mathlib.Core.Path.{fun_ext, subst}
use boxi.Prelude.{
  ℕ, ◌≤◌, ◌≡◌, ◌≢◌, ◌⊎◌, inl, inr, refl, ap, sym, ◌∙◌, Bool, true, false, Option, none, some, List,
  [], ◌∷◌, ◌++◌, length, length-append, arith,
}
use boxi.Prelude.Text.{Text}
use boxi.RestoreFiles.Cache.{Epoch}
use boxi.RestoreFiles.Spec.{Entry}
use boxi.RestoreFiles.Count.{Counting, Job}
use boxi.RestoreFiles.Fetch.{Disc, Restoring, FetchedFile}
use boxi.RestoreFiles.FetchedAs.{FetchedAs}
use boxi.RestoreFiles.Kept.{Fewer-refl, sum_of, unseen, Kept-end}
use boxi.RestoreFiles.CountedAll.{files, bytes, CountedFor, count_entries-CountedFor}
use boxi.RestoreFiles.Panel.{
  count_entries, LoopEnd, over, threw, crashed, restore_entries, Account, block_size_of, no_account,
  connection_failed, account_failed, Settings, Refusal, refusal, Summary, starting_restore,
  checking_account, counting_files, restoring_files, restore_failed, restore_finished, Shown,
  wind_up, reset_counting, reset_restoring, show_end, run_restore, start_with, refused, shown,
  start_restore,
}
use boxi.RestoreFiles.Selected.{Planned, files_of, bytes_of, bytes_of-append, excludes}
use boxi.RestoreFiles.Whole.{plan_entry, plan_entries, as_status, restore_entries-FetchedAs}

some-injective : {a b : Shown} → some a ≡ some b → a ≡ b
some-injective h = cc

shown-injective : {a b : Option Shown} → shown a ≡ shown b → a ≡ b
shown-injective h = cc

length-plan_entries :
    (j : Job) (es : List Entry) (base : Text) (todo : List Entry)
    → length (plan_entries es j.epoch base todo) ≡ sum_of (files j (excludes es) base) todo
length-plan_entries j es base [] = refl
length-plan_entries j es base (e ∷ rest) = omega (
  arith,
  length-append (plan_entry es j.epoch base e) (plan_entries es j.epoch base rest),
  length-plan_entries j es base rest,
)

bytes_of-plan_entries :
    (j : Job) (es : List Entry) (base : Text) (todo : List Entry)
    → bytes_of j.block_size (plan_entries es j.epoch base todo)
      ≡ sum_of (bytes j (excludes es) base) todo
bytes_of-plan_entries j es base [] = refl
bytes_of-plan_entries j es base (e ∷ rest) = omega (
  arith,
  bytes_of-append j.block_size (plan_entry es j.epoch base e) (plan_entries es j.epoch base rest),
  bytes_of-plan_entries j es base rest,
)

-- Counting, where no stop is requested, counts as much as the entries select that are left.
counted_enough :
    (j : Job) (base : Text) (es : List Entry)
    → ((k : ℕ) → j.stops k ≡ false)
    → ((a : ℕ) → j.lists a ≡ true)
    → let c = count_entries j es (reset_counting es) in
      (length (plan_entries c.entries j.epoch base c.entries) ≤ c.files)
      × (bytes_of j.block_size (plan_entries c.entries j.epoch base c.entries) ≤ c.bytes)
unfolding reset_counting
counted_enough j base es calm all =
    let c = count_entries j es (reset_counting es) in
    let start : CountedFor j (excludes es) base es (reset_counting es) = record {
      files_kept = unseen (Fewer-refl es);
      bytes_kept = unseen (Fewer-refl es);
      same = λ a. refl;
    } in
    let ended =
      count_entries-CountedFor j (excludes es) base es (reset_counting es) calm all start in
    let now : CountedFor j (excludes c.entries) base [] c =
      subst (λ ex. CountedFor j ex base [] c) (sym (fun_ext ended.same)) ended in
    (
      omega (
        arith,
        length-plan_entries j c.entries base c.entries,
        Kept-end (files j (excludes c.entries) base) now.files_kept,
      ),
      omega (
        arith,
        bytes_of-plan_entries j c.entries base c.entries,
        Kept-end (bytes j (excludes c.entries) base) now.bytes_kept,
      ),
    )

-- What the entries that are left select.
abbrev pub wanted : Epoch → Text → Shown → List Planned
wanted t base sh = plan_entries sh.counted.entries t base sh.counted.entries

abbrev pub finished : List Summary
finished =
    starting_restore ∷ checking_account ∷ counting_files ∷ restoring_files ∷ restore_finished
    ∷ restore_finished ∷ []

-- All that is wanted was fetched, in order, and no more is done than was counted.
pub record Restored (t : Epoch) (base : Text) (sh : Shown) : Type 0 where
  pub fetched : sh.restored.fetched ≡ files_of (wanted t base sh)
  pub files_done : sh.restored.files_done ≡ length (wanted t base sh)
  pub files_counted : sh.restored.files_done ≤ sh.counted.files
  pub bytes_counted : sh.restored.bytes_done ≤ sh.counted.bytes

-- The first part of what is wanted was fetched.
abbrev pub Started : Epoch → Text → Shown → Type 0
Started t base sh =
    (left : List FetchedFile) × (files_of (wanted t base sh) ≡ sh.restored.fetched ++ left)

-- A run shows what was fetched, and all of it where it finished.
abbrev ShownAs : Epoch → Text → Shown → Type 0
ShownAs t base sh =
    ((sh.summaries ≡ finished) × Restored t base sh)
    ⊎ ((sh.summaries ≢ finished) × Started t base sh)

show_end-ShownAs :
    (j : Job) (base : Text) (c : Counting) (r : Restoring) (ended : LoopEnd) (messages : ℕ)
    (sh : Shown)
    → (length (plan_entries c.entries j.epoch base c.entries) ≤ c.files)
      × (bytes_of j.block_size (plan_entries c.entries j.epoch base c.entries) ≤ c.bytes)
    → FetchedAs j
        (plan_entries c.entries j.epoch base c.entries)
        (reset_restoring messages c.polls)
        (r, as_status ended)
    → show_end false c (r, ended) ≡ some sh
    → ShownAs j.epoch base sh
unfolding show_end wind_up reset_restoring
show_end-ShownAs j base c r (over true) messages sh (f, b) h e =
    let all = h.when_done refl in
    subst (ShownAs j.epoch base) (some-injective e) (
      inl (
        refl,
        record {
          fetched = all.fetched;
          files_done = omega (arith, all.files);
          files_counted = omega (arith, all.files, f);
          bytes_counted = omega (arith, all.bytes, b);
        },
      ))
show_end-ShownAs j base c r (over false) messages sh (f, b) h e =
    subst (ShownAs j.epoch base) (some-injective e) (
      inr (
        λ q. cc,
        (h.always.left, h.always.planned ∙ ap (◌++ h.always.left) (sym h.always.fetched)),
      ))
show_end-ShownAs j base c r threw messages sh (f, b) h e =
    subst (ShownAs j.epoch base) (some-injective e) (
      inr (
        λ q. cc,
        (h.always.left, h.always.planned ∙ ap (◌++ h.always.left) (sym h.always.fetched)),
      ))
show_end-ShownAs j base c r crashed messages sh (f, b) h e = cc

run_restore-ShownAs :
    (j : Job) (d : Disc) (base : Text) (es : List Entry) (messages : ℕ) (sh : Shown)
    → ((k : ℕ) → j.stops k ≡ false)
    → ((a : ℕ) → j.lists a ≡ true)
    → run_restore j d base es messages ≡ some sh
    → ShownAs j.epoch base sh
unfolding run_restore
run_restore-ShownAs j d base es messages sh calm all h =
    let c = count_entries j es (reset_counting es) in
    let before = reset_restoring messages c.polls in
    let left = restore_entries j d c.entries base c.entries false before in
    show_end-ShownAs j base c left.0 left.1 messages sh (counted_enough j base es calm all)
      (restore_entries-FetchedAs j d c.entries base c.entries false before)
      (ap (λ b. show_end b c left) (sym (calm left.0.polls)) ∙ h)

failed-ShownAs :
    (t : Epoch) (base : Text) (es : List Entry) (before : List Summary) (sh : Shown)
    → before ++ (restore_finished ∷ []) ≢ finished
    → shown (some (wind_up before (reset_counting es) (reset_restoring 1 0))) ≡ shown (some sh)
    → ShownAs t base sh
unfolding wind_up reset_counting reset_restoring
failed-ShownAs t base es before sh k e =
    subst (ShownAs t base) (some-injective (shown-injective e))
      (inr (k, (files_of (plan_entries es t base es), refl)))

start_with-ShownAs :
    (stops lists : ℕ → Bool) (t : Epoch) (d : Disc) (base : Text) (es : List Entry)
    (account : Account) (sh : Shown)
    → ((k : ℕ) → stops k ≡ false)
    → ((a : ℕ) → lists a ≡ true)
    → start_with
        (λ n. record { lists = lists; stops = stops; epoch = t; block_size = n })
        d
        base
        es
        account
      ≡ shown (some sh)
    → ShownAs t base sh
unfolding start_with
start_with-ShownAs stops lists t d base es connection_failed sh calm all h =
    failed-ShownAs t base es (starting_restore ∷ restore_failed ∷ []) sh (λ q. cc) h
start_with-ShownAs stops lists t d base es account_failed sh calm all h =
    failed-ShownAs t base es (starting_restore ∷ checking_account ∷ restore_failed ∷ []) sh
      (λ q. cc) h
start_with-ShownAs stops lists t d base es no_account sh calm all h =
    run_restore-ShownAs (record { lists = lists; stops = stops; epoch = t; block_size = 0 }) d base
      es 1 sh calm all (shown-injective h)
start_with-ShownAs stops lists t d base es (block_size_of n) sh calm all h =
    run_restore-ShownAs (record { lists = lists; stops = stops; epoch = t; block_size = n }) d base
      es 0 sh calm all (shown-injective h)

-- Where no stop is requested, every directory that can be listed when it is restored could be listed
-- when its files were counted, and a restore that starts is shown: either the summaries are those of
-- a restore that finished, and what is fetched is what the entries that are left select, in that
-- order, each under the destination followed by its path, and no more files and no more bytes are
-- done than were counted before; or the summaries are others, and what is fetched is the first part
-- of that.
pub start_restore_lem :
    (stops lists : ℕ → Bool) (t : Epoch) (d : Disc) (s : Settings) (account : Account) (base : Text)
    (es : List Entry) (sh : Shown)
    → ((k : ℕ) → stops k ≡ false)
    → ((a : ℕ) → lists a ≡ true)
    → start_restore stops lists t d s account base es ≡ shown (some sh)
    → ((sh.summaries ≡ finished) × Restored t base sh)
      ⊎ ((sh.summaries ≢ finished) × Started t base sh)
unfolding start_restore
start_restore_lem stops lists t d s account base es sh calm all h = by_refusal (refusal s) h
  where
    by_refusal :
        (o : Option Refusal)
        → elim o [
          | some why ↦ refused why
          | none ↦
              start_with
                (λ n. record { lists = lists; stops = stops; epoch = t; block_size = n })
                d
                base
                es
                account
        ]
          ≡ shown (some sh)
        → ShownAs t base sh
    by_refusal (some why) e = cc
    by_refusal none e = start_with-ShownAs stops lists t d base es account sh calm all e
