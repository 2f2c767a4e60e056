-- ===== src/Restore/Driver.antt =====
-- `ServerConnection::Restore` of src/Restore.cc.
use boxi.Prelude.{ℕ, ◌+◌, Bool, true, false, ◌&&◌, [], Option, none, some, if◌then◌else◌}
use boxi.Prelude.Text.{Text}
use boxi.Restore.Resume.{Bytes, ResumeInfo, last, Loaded, loaded, refused, overrun, load}
use boxi.Restore.Dir.{
  Existence, exists_no_object, exists_file, exists_dir, exists_unknown, Outside, ok, M, call,
  ask_exists, restore_dir, ◌>>=◌, ◌>>◌, pure,
}

-- What `Restore` returns; the last is the undefined behaviour of a read over the end of a buffer.
pub data RestoreResult : Type 0 where
  restore_complete resume_possible target_exists buffer_overrun : RestoreResult

-- The arguments of a restore. The resume file is named after the target, so the world's is its own.
pub record Request : Type 0 where
  pub directory_id : ℕ
  pub local : Text
  pub has_callback : Bool
  pub restore_deleted : Bool
  pub undelete_after : Bool
  pub may_resume : Bool

abbrev pub is_dir : Existence → Bool
is_dir exists_dir = true
is_dir exists_no_object = false
is_dir exists_file = false
is_dir exists_unknown = false

abbrev pub is_there : Existence → Bool
is_there exists_no_object = false
is_there exists_dir = true
is_there exists_file = true
is_there exists_unknown = true

module _ (o : Outside) where
  -- `::unlink` of the resume file; its result is not looked at.
  unfoldable pub remove_resume_file : M (Unit {0})
  remove_resume_file w = ok tt (record w {
    calls = w.calls + 1;
    resume_file = if o.succeeds w.calls then none else w.resume_file;
  })

  unfoldable pub undelete : Request → M (Unit {0})
  undelete q = if q.restore_deleted && q.undelete_after then call o else pure tt

  -- From "Restore the directory" on, with fuel for the depth of directories.
  unfoldable pub restore_from : ℕ → Request → ResumeInfo → M RestoreResult
  restore_from fuel q info = do
    level ←
        restore_dir o (record { has_resume_info = true; has_callback = q.has_callback }) fuel
          (λ level. level) info q.directory_id q.local
    undelete q
    remove_resume_file
    pure restore_complete

  -- "Attempt to load the resume info file", and the restore from there.
  unfoldable pub resume_from : ℕ → Request → Loaded ResumeInfo → M RestoreResult
  resume_from fuel q (loaded info rest) = restore_from fuel q info
  resume_from fuel q refused = pure target_exists
  resume_from fuel q overrun = pure buffer_overrun

  -- "Does the directory already exist?", where nothing is resumed.
  unfoldable pub start_afresh : ℕ → Request → Existence → M RestoreResult
  start_afresh fuel q existence =
      if is_there existence then pure target_exists else restore_from fuel q (last [])

  -- With what `FileExists` finds: the opening of the file for `Load` may throw.
  unfoldable pub restore_at : ℕ → Request → Existence → Option Bytes → M RestoreResult
  restore_at fuel q existence none = start_afresh fuel q existence
  restore_at fuel q existence (some bs) =
      if is_dir existence
      then (if q.may_resume
          then (do call o; resume_from fuel q (load bs))
          else pure resume_possible)
      else start_afresh fuel q existence

  unfoldable pub restore : ℕ → Request → M RestoreResult
  restore fuel q = do
    existence ← ask_exists o
    call o
    λ w. restore_at fuel q existence w.resume_file w
