-- ===== src/Restore/Outcome.antt =====
-- What `ServerConnection::Restore` gives, run once or resumed.
use mathlib.Core.Path.{subst}
use boxi.Prelude.{
  ℕ, ◌+◌, ◌≡◌, refl, sym, ap, ◌∙◌, inl, inr, Bool, true, false, ◌&&◌, [], Bool-cases, Option, none,
  some, if◌then◌else◌,
}
use boxi.Restore.Resume.{Bytes, ResumeInfo, last, load, save_over}
use boxi.Restore.Dir.{Existence, Outside, World, call, ask_exists, ◌>>◌}
use boxi.Restore.Paths.{Under}
use boxi.Restore.Truth.{Log, Truthful, Complete, Shallow, OwnIds, OwnNames}
use boxi.Restore.ResumeFile.{Fits, load-save_over}
use boxi.Restore.Ensures.{
  Ensures, returns, throws, Ensures-bind, Ensures-if, Root, FileHolds, Since, Since-Same,
  world-Since, Quiet, Same-refl, call-Quiet,
}
use boxi.Restore.Subdirs.{fresh_level}
use boxi.Restore.Sound.{restore_dir_sound}
use boxi.Restore.Driver.{
  RestoreResult, restore_complete, resume_possible, target_exists, buffer_overrun, Request, is_dir,
  is_there, remove_resume_file, undelete, restore_from, resume_from, start_afresh, restore_at,
  restore,
}

abbrev pub root_of : ℕ → Request → Root
root_of depth q = record { depth = depth; directory_id = q.directory_id; local = q.local }

-- By what it returns: everything is there; or there was a reason not to start, and nothing changed.
abbrev pub Outcome : Outside → ℕ → Request → Log → Option Bytes → RestoreResult → World → Type 0
Outcome o depth q f saved restore_complete w = Complete o depth q.directory_id q.local w.fetched
Outcome o depth q f saved resume_possible w =
    (q.may_resume ≡ false) × (w.fetched ≡ f) × (w.resume_file ≡ saved)
Outcome o depth q f saved target_exists w = (w.fetched ≡ f) × (w.resume_file ≡ saved)
Outcome o depth q f saved buffer_overrun w = ⊥

-- A resume file that an earlier run left: saved over whatever stood there, true, and in range.
abbrev pub LeftBehind : Outside → Root → World → Type 0
LeftBehind o r w =
    (bs : Bytes)
    → w.resume_file ≡ some bs
    → (info : ResumeInfo) × (old : Bytes) × (bs ≡ save_over old info)
      × Truthful o r.depth info r.directory_id r.local w.fetched
      × Fits info

module _ (o : Outside) (own : OwnIds o) (names : OwnNames o) (depth : ℕ) (q : Request)
    (shallow : Shallow o depth q.directory_id) where
  -- Nothing is touched outside the target, and the resume file is true.
  abbrev Kept : Log → World → Type 0
  Kept = Since o (root_of depth q) (Under q.local)

  abbrev Post : Log → Option Bytes → RestoreResult → World → Type 0
  Post f saved result w = Outcome o depth q f saved result w × Kept f w

  undelete-Quiet : Quiet o (root_of depth q) (undelete o q)
  unfolding undelete
  undelete-Quiet w =
      Ensures-if (q.restore_deleted && q.undelete_after) _ _ w
        (λ _. call-Quiet o (root_of depth q) w) (λ _. returns (Same-refl o (root_of depth q) w))

  removed-Since :
      (f : Log) (w : World)
      → Kept f w
      → (b : Bool)
      → Kept f (record w { calls = w.calls + 1; resume_file = if b then none else w.resume_file })
  removed-Since f w s true = record { keeps = s.keeps; holds = λ bs h. cc }
  removed-Since f w s false = record { keeps = s.keeps; holds = s.holds }

  restore_from-Post :
      (saved : Option Bytes) (info : ResumeInfo) (w : World)
      → Truthful o depth info q.directory_id q.local w.fetched
      → FileHolds o (root_of depth q) w
      → Ensures (Post w.fetched saved) (Kept w.fetched) (restore_from o depth q info w)
  unfolding restore_from remove_resume_file
  restore_from-Post saved info w t h =
      let r = root_of depth q in
      Ensures-bind _
        (restore_dir_sound o r _ refl own names depth (λ level. level) info q.directory_id q.local w
          shallow (λ level g keeps t'. t') t h)
        (λ w' s. s)
        (λ level w1 (c, s1).
          Ensures-bind _ (undelete-Quiet w1)
            (λ w' s. Since-Same o r (Under q.local) w.fetched w1 w' s s1)
            (λ _ w2 s2. returns (
              subst (Complete o depth q.directory_id q.local) (sym s2.log) c,
              removed-Since w.fetched w2 (Since-Same o r (Under q.local) w.fetched w1 w2 s2 s1)
                  (o.succeeds w2.calls),
            )))

  start_afresh-Post :
      (existence : Existence) (w : World)
      → FileHolds o (root_of depth q) w
      → Ensures (Post w.fetched w.resume_file) (Kept w.fetched) (start_afresh o depth q existence w)
  unfolding start_afresh
  start_afresh-Post existence w h =
      Ensures-if (is_there existence) _ _ w
        (λ _. returns ((refl, refl), world-Since o (root_of depth q) (Under q.local) w h))
        (λ _.
          restore_from-Post w.resume_file (last []) w
            (fresh_level o depth q.directory_id q.local w.fetched shallow) h)

  left-FileHolds : (w : World) → LeftBehind o (root_of depth q) w → FileHolds o (root_of depth q) w
  left-FileHolds w h bs e = let (info, old, b, t, fits) = h bs e in (info, old, b, t)

  resume_from-Post :
      (bs : Bytes) (w : World)
      → w.resume_file ≡ some bs
      → LeftBehind o (root_of depth q) w
      → Ensures (Post w.fetched w.resume_file) (Kept w.fetched) (resume_from o depth q (load bs) w)
  unfolding resume_from
  resume_from-Post bs w e h =
      let (info, old, b, t, fits) = h bs e in
      let read = ap load b ∙ load-save_over info old fits in
      rw read (restore_from-Post w.resume_file info w t (left-FileHolds w h))

  resuming :
      (bs : Bytes) (w : World)
      → w.resume_file ≡ some bs
      → LeftBehind o (root_of depth q) w
      → Ensures
          (Post w.fetched w.resume_file)
          (Kept w.fetched)
          ((do call o; resume_from o depth q (load bs)) w)
  unfolding call
  resuming bs w e h = elim (Bool-cases (o.succeeds w.calls)) [
    | inl b ↦ rw b (resume_from-Post bs _ e h)
    | inr b ↦ rw b (throws (record { keeps = λ x a m. m; holds = left-FileHolds w h }))
  ]

  restore_at-Post :
      (existence : Existence) (saved : Option Bytes) (w : World)
      → w.resume_file ≡ saved
      → LeftBehind o (root_of depth q) w
      → Ensures
          (Post w.fetched w.resume_file)
          (Kept w.fetched)
          (restore_at o depth q existence saved w)
  unfolding restore_at
  restore_at-Post existence none w e h = start_afresh-Post existence w (left-FileHolds w h)
  restore_at-Post existence (some bs) w e h =
      Ensures-if (is_dir existence) _ _ w
        (λ _.
          Ensures-if q.may_resume _ _ w (λ _. resuming bs w e h)
            (λ m. returns (
              (m, refl, refl),
              world-Since o (root_of depth q) (Under q.local) w (left-FileHolds w h),
            )))
        (λ _. start_afresh-Post existence w (left-FileHolds w h))

pub restore_lem :
    (o : Outside) (depth : ℕ) (q : Request) (w : World)
    → OwnIds o
    → OwnNames o
    → Shallow o depth q.directory_id
    → LeftBehind o (root_of depth q) w
    → Ensures
        (λ result w'.
          Outcome o depth q w.fetched w.resume_file result w'
          × Since o (root_of depth q) (Under q.local) w.fetched w')
        (Since o (root_of depth q) (Under q.local) w.fetched)
        (restore o depth q w)
unfolding restore ask_exists call
restore_lem o depth q w own names shallow h =
    let kept : Since o (root_of depth q) (Under q.local) w.fetched w = record {
      keeps = λ x a m. m;
      holds = left-FileHolds o own names depth q shallow w h;
    } in
    elim (Bool-cases (o.succeeds w.calls)) [
      | inl e ↦ rw e (elim (Bool-cases (o.succeeds (w.calls + 1))) [
        | inl e' ↦ rw e' (
            restore_at-Post o own names depth q shallow (o.object_exists w.calls) w.resume_file _
              refl h)
        | inr e' ↦ rw e' (throws (record { keeps = kept.keeps; holds = kept.holds }))
      ])
      | inr e ↦ rw e (throws (record { keeps = kept.keeps; holds = kept.holds }))
    ]
