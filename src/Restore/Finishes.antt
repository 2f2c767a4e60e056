-- ===== src/Restore/Finishes.antt =====
-- `ServerConnection::Restore` where no call fails.
use boxi.Prelude.{ℕ, ◌+◌, ◌≡◌, refl, ap, ◌∙◌, ◌⊎◌, inl, inr, true, ◌&&◌, [], Option, none, some}
use mathlib.Core.Path.{subst}
use boxi.Restore.Resume.{Bytes, ResumeInfo, last, load}
use boxi.Restore.Dir.{
  Existence, exists_no_object, exists_dir, Outside, World, Out, ask_exists, call,
}
use boxi.Restore.Truth.{Log, Complete, Shallow, OwnIds, OwnNames}
use boxi.Restore.ResumeFile.{load-save_over}
use boxi.Restore.Ensures.{
  Ensures, returns, throws, aborts, Ensures-bind, Ensures-weaken, Ensures-if,
}
use boxi.Restore.Driver.{
  RestoreResult, restore_complete, Request, undelete, remove_resume_file, restore_from, resume_from,
  start_afresh, restore_at, restore,
}
use boxi.Restore.Outcome.{root_of, LeftBehind, Outcome, restore_lem}
use boxi.Restore.Completes.{Returns, Calm, Leads, Truthful-Leads, call-Returns, restore_dir-Returns}

-- Two postconditions of one action.
Ensures-both :
    {A : Type 0} {Q Q' : A → World → Type 0} {E E' : World → Type 0} {m : Out A}
    → Ensures Q E m
    → Ensures Q' E' m
    → Ensures (λ a w. Q a w × Q' a w) (λ w. E w × E' w) m
Ensures-both (returns q) (returns q') = returns (q, q')
Ensures-both (throws x) (throws x') = throws (x, x')
Ensures-both (aborts x) (aborts x') = aborts (x, x')

-- It is over: complete, and the resume file is gone.
abbrev Over : RestoreResult → World → Type 0
Over result w = (result ≡ restore_complete) × (w.resume_file ≡ none)

-- There is something to begin with: no target, or a resume file beside a directory, by which it may go on.
abbrev pub CanBegin : Outside → Request → World → Type 0
CanBegin o q w =
    (o.object_exists w.calls ≡ exists_no_object)
    ⊎ ((o.object_exists w.calls ≡ exists_dir)
        × (q.may_resume ≡ true)
        × ((bs : Bytes) × (w.resume_file ≡ some bs)))

module _ (o : Outside) (calm : Calm o) (depth : ℕ) (q : Request)
    (shallow : Shallow o depth q.directory_id) where
  undelete-Returns : (w : World) → Returns (undelete o q w)
  unfolding undelete
  undelete-Returns w =
      Ensures-if (q.restore_deleted && q.undelete_after) _ _ w (λ _. call-Returns o calm w)
        (λ _. returns tt)

  restore_from-Over :
      (info : ResumeInfo) (w : World)
      → Leads o info q.directory_id
      → Ensures Over (λ _. ⊥) (restore_from o depth q info w)
  unfolding restore_from remove_resume_file
  restore_from-Over info w l =
      Ensures-bind _
        (restore_dir-Returns o calm _ depth (λ level. level) info q.directory_id q.local w shallow
          l)
        (λ w x. x)
        (λ level w1 _.
          Ensures-bind _ (undelete-Returns w1) (λ w x. x)
            (λ _ w2 _. returns (refl, rw (calm.succeeds w2.calls) refl)))

  restore_at-Over :
      (existence : Existence) (saved : Option Bytes) (w : World)
      → w.resume_file ≡ saved
      → LeftBehind o (root_of depth q) w
      → (existence ≡ exists_no_object)
        ⊎ ((existence ≡ exists_dir) × (q.may_resume ≡ true) × ((bs : Bytes) × (saved ≡ some bs)))
      → Ensures Over (λ _. ⊥) (restore_at o depth q existence saved w)
  unfolding restore_at start_afresh resume_from
  restore_at-Over existence none w e h (inl p) = rw p (restore_from-Over (last []) w tt)
  restore_at-Over existence (some bs) w e h (inl p) = rw p (restore_from-Over (last []) w tt)
  restore_at-Over existence none w e h (inr (p, m, (bs, s))) = cc
  restore_at-Over existence (some bs) w e h (inr (p, m, (bs', s))) =
      let (info, old, b, t, fits) = h bs e in
      let read = ap load b ∙ load-save_over info old fits in
      rw p (
        Ensures-if q.may_resume _ _ w
          (λ _.
            Ensures-bind _ (call-Returns o calm w) (λ w x. x)
              (λ _ w' _. rw read (
                restore_from-Over info w'
                  (Truthful-Leads o depth info q.directory_id q.local w.fetched t))))
          (λ f. cc))

  restore-Over :
      (w : World)
      → LeftBehind o (root_of depth q) w
      → CanBegin o q w
      → Ensures Over (λ _. ⊥) (restore o depth q w)
  unfolding restore ask_exists call
  restore-Over w h begin = rw (calm.succeeds w.calls) (
      rw (calm.succeeds (w.calls + 1))
        (restore_at-Over (o.object_exists w.calls) w.resume_file _ refl h begin))

Outcome-Complete :
    (o : Outside) (depth : ℕ) (q : Request) (f : Log) (saved : Option Bytes)
    (result : RestoreResult) (w : World)
    → result ≡ restore_complete
    → Outcome o depth q f saved result w
    → Complete o depth q.directory_id q.local w.fetched
Outcome-Complete o depth q f saved result w p c = subst (λ x. Outcome o depth q f saved x w) p c

-- Where no call fails, `ObjectExists` gives a known answer, no directory has the ID 0, and there is
-- a way to begin, `Restore` returns `Restore_Complete`, with every file of the directory decoded and
-- on the disk, and the resume file removed, whatever an earlier run had left to do. The conditions
-- are fuel for the depth of the directories; in each listing, entries with IDs of their own and
-- with names of their own that have no slash; and a resume file that is absent or was left true and
-- in range.
pub restore_completes :
    (o : Outside) (depth : ℕ) (q : Request) (w : World)
    → Calm o
    → OwnIds o
    → OwnNames o
    → Shallow o depth q.directory_id
    → LeftBehind o (root_of depth q) w
    → CanBegin o q w
    → Ensures
        (λ result w'.
          (result ≡ restore_complete)
          × (w'.resume_file ≡ none)
          × Complete o depth q.directory_id q.local w'.fetched)
        (λ _. ⊥)
        (restore o depth q w)
restore_completes o depth q w calm own names shallow h begin =
    Ensures-weaken
      (Ensures-both (restore-Over o calm depth q shallow w h begin)
        (restore_lem o depth q w own names shallow h))
      (λ w' (x, _). x)
      (λ result w' ((p, gone), (c, s)).
        (p, gone, Outcome-Complete o depth q w.fetched w.resume_file result w' p c))
