-- ===== src/Restore/Dir.antt =====
-- `BackupClientRestoreDir` of src/Restore.cc: one directory from the server, with the levels below
-- it. What the server, the file system and Box Backup's library answer is `Outside`, by the
-- number of calls made before, so any call that can throw or fail may do so at any time.
use boxi.Prelude.{
  ℕ, zero, suc, ◌+◌, ◌*◌, Bool, true, false, ◌&&◌, not, Option, none, some, List, [], ◌∷◌, ◌++◌,
  if◌then◌else◌, ◌==◌, ltb, text_eq,
}
use boxi.Prelude.Text.{Text}
use boxi.Restore.Resume.{Bytes, ResumeInfo, last, next, insert_id, has_id, save_over}

-- The flag by which `Iterator::Next` selects.
pub data Kind : Type 0 where
  file dir : Kind

-- A `BackupStoreDirectory::Entry`.
pub record DirEntry : Type 0 where
  pub object_id : ℕ
  pub name : Text
  pub kind : Kind
  pub has_attributes : Bool

pub data Existence : Type 0 where
  exists_no_object exists_file exists_dir exists_unknown : Existence

-- The world that answers. The server's listing of a directory does not change during a restore.
pub record Outside : Type 0 where
  pub list_directory : ℕ → List DirEntry
  -- Does call number n return, rather than throw or report failure?
  pub succeeds : ℕ → Bool
  -- What `ObjectExists` says, as call number n.
  pub object_exists : ℕ → Existence
  -- The size that `FileExists` gives, as call number n; `none` if it says that there is no file.
  pub file_size : ℕ → Option ℕ

-- A file that was decoded: the directory and the object asked for, and the local name.
pub record Fetched : Type 0 where
  pub directory_id : ℕ
  pub object_id : ℕ
  pub local_name : Text

-- What stays when the restore stops: the resume file, the decoded files that are on the disk, and
-- how often the progress callback was called.
pub record World : Type 0 where
  pub calls : ℕ
  pub resume_file : Option Bytes
  pub fetched : List Fetched
  pub reported : ℕ

-- An action returns, throws, ends the program at a failed assertion, or has no fuel left.
pub data Out (A : Type 0) : Type 0 where
  ok : A → World → Out A
  threw : World → Out A
  aborted : World → Out A
  starved : Out A

abbrev pub M : Type 0 → Type 0
M A = World → Out A

abbrev pub continue : {A B : Type 0} → Out A → (A → M B) → Out B
continue (ok a w) f = f a w
continue (threw w) f = threw w
continue (aborted w) f = aborted w
continue starved f = starved

infixl 5 ◌>>=◌ ◌>>◌
abbrev pub ◌>>=◌ : {A B : Type 0} → M A → (A → M B) → M B
◌>>=◌ m f w = continue (m w) f

abbrev pub ◌>>◌ : {B : Type 0} → M (Unit {0}) → M B → M B
m >> k = m >>= λ _. k

abbrev pub pure : {A : Type 0} → A → M A
pure a w = ok a w

abbrev tick : World → World
tick w = record w { calls = w.calls + 1 }

-- `/`, DIRECTORY_SEPARATOR_ASCHAR.
abbrev pub below : Text → Text → Text
below directory name = directory ++ (b'/' ∷ name)

abbrev pub max_bytes_between_saves : ℕ
max_bytes_between_saves = 128 * 1024

abbrev pub old_file : Option Bytes → Bytes
old_file none = []
old_file (some bs) = bs

-- The decoded files less the one of that name, which was unlinked.
unfoldable pub without_path : Text → List Fetched → List Fetched
without_path path [] = []
without_path path (x ∷ xs) =
    let rest = without_path path xs in if text_eq x.local_name path then rest else x ∷ rest

module _ (o : Outside) where
  -- A call that throws or fails where it does not succeed.
  unfoldable pub call : M (Unit {0})
  call w = if o.succeeds w.calls then ok tt (tick w) else threw (tick w)

  -- `mpResumeInfo->Save(...)`: `root` is what the pointer shows, with the changes made so far.
  -- A save that fails leaves the file as it was.
  unfoldable pub save : ResumeInfo → M (Unit {0})
  save root w =
      if o.succeeds w.calls
      then ok tt (record w {
        calls = w.calls + 1;
        resume_file = some (save_over (old_file w.resume_file) root);
      })
      else threw (tick w)

  unfoldable pub ask_exists : M Existence
  ask_exists w =
      if o.succeeds w.calls then ok (o.object_exists w.calls) (tick w) else threw (tick w)

  unfoldable pub ask_size : M (Option ℕ)
  ask_size w = if o.succeeds w.calls then ok (o.file_size w.calls) (tick w) else threw (tick w)

  -- `unlink`, with its result.
  unfoldable pub unlink : Text → M Bool
  unlink path w =
      if o.succeeds w.calls
      then ok true (record (tick w) { fetched = without_path path w.fetched })
      else ok false (tick w)

  -- The `switch` before the listing: `unlink` of a file in the way, and `mkdir`.
  unfoldable pub make_directory : Text → Existence → M (Unit {0})
  make_directory local exists_dir = pure tt
  make_directory local exists_file = do unlinked ← unlink local; if unlinked then call else threw
  make_directory local exists_no_object = call
  make_directory local exists_unknown = aborted

  -- `QueryListDirectory`, and the reading of the directory and its attributes.
  unfoldable pub fetch_listing : ℕ → M (List DirEntry)
  fetch_listing id = do call; pure (o.list_directory id)

  -- `unlink` of what is there, `QueryGetFile` and `DecodeFile`, with the attributes of the entry or
  -- those in the file.
  unfoldable pub fetch_file : ℕ → DirEntry → Text → M (Unit {0})
  fetch_file directory_id e local_name = do
    _ ← unlink local_name
    call
    λ w. ok tt (record w {
      fetched =
          record { directory_id = directory_id; object_id = e.object_id; local_name = local_name }
          ∷ without_path local_name w.fetched;
    })

  -- `mpProgressCallback`, where there is one.
  unfoldable pub report : Bool → M (Unit {0})
  report has_callback w =
      ok tt (record w { reported = w.reported + (if has_callback then 1 else 0) })

-- The parameters that do not change: `mpResumeInfo != NULL` and `mpProgressCallback != NULL`.
pub record Params : Type 0 where
  pub has_resume_info : Bool
  pub has_callback : Bool

-- The level that is being worked on is part of the structure under `mpResumeInfo`: this puts the
-- level's content in its place there.
abbrev pub Place : Type 0
Place = ResumeInfo → ResumeInfo

-- The local variables of the loop over files: the level's set, and the bytes since the last save.
pub record Count : Type 0 where
  pub ids : List ℕ
  pub bytes : ℕ

abbrev pub is_file : Kind → Bool
is_file file = true
is_file dir = false

-- `RemoveLevel`, with its assertion. `AddLevel`'s holds: it stands where there is no next level.
unfoldable pub remove_level : ℕ → M (Unit {0})
remove_level id = if id == 0 then aborted else pure tt

module _ (o : Outside) (params : Params) where
  unfoldable pub save_if : Bool → ResumeInfo → M (Unit {0})
  save_if wanted root = if wanted && params.has_resume_info then save o root else pure tt

  -- The test after a file was decoded: the counter is reset whether there is something to save or
  -- not.
  unfoldable pub count_bytes : Place → List ℕ → ℕ → Option ℕ → M Count
  count_bytes place ids bytes none = pure (record { ids = ids; bytes = bytes })
  count_bytes place ids bytes (some size) =
      if ltb max_bytes_between_saves (bytes + size)
      then (do save_if true (place (last ids)); pure (record { ids = ids; bytes = 0 }))
      else pure (record { ids = ids; bytes = bytes + size })

  -- The body of the loop over files, for an entry that is not done.
  unfoldable pub restore_file : Place → ℕ → Text → DirEntry → Count → M Count
  restore_file place directory_id local e c = do
    fetch_file o directory_id e (below local e.name)
    report o params.has_callback
    size ← ask_size o
    count_bytes place (insert_id e.object_id c.ids) c.bytes size

  unfoldable pub restore_files : Place → ℕ → Text → List DirEntry → Count → M Count
  restore_files place directory_id local [] c = pure c
  restore_files place directory_id local (e ∷ es) c =
      let done = restore_files place directory_id local es c in
      let todo = (do
        c' ← restore_file place directory_id local e c
        restore_files place directory_id local es c') in
      if is_file e.kind && not (has_id e.object_id c.ids) then todo else done

  -- A restore of one directory into a level: what the recursion calls.
  abbrev pub Restorer : Type 0
  Restorer = Place → ResumeInfo → ℕ → Text → M ResumeInfo

  -- The body of the loop over directories, for an entry that is not done.
  unfoldable pub restore_subdir : Restorer → Place → Text → DirEntry → List ℕ → M (List ℕ)
  restore_subdir restore place local e ids = do
    restored ←
        restore (λ level. place (next ids e.object_id e.name level)) (last []) e.object_id
          (below local e.name)
    remove_level e.object_id
    pure (insert_id e.object_id ids)

  unfoldable pub restore_subdirs : Restorer → Place → Text → List DirEntry → List ℕ → M (List ℕ)
  restore_subdirs restore place local [] ids = pure ids
  restore_subdirs restore place local (e ∷ es) ids =
      let done = restore_subdirs restore place local es ids in
      let todo = (do
        ids' ← restore_subdir restore place local e ids
        restore_subdirs restore place local es ids') in
      if not (is_file e.kind) && not (has_id e.object_id ids) then todo else done

  -- "If we're resuming": the level below, and its ID into the set behind it.
  unfoldable pub finish_next : Restorer → Place → ResumeInfo → Text → M (List ℕ)
  finish_next restore place (last ids) local = pure ids
  finish_next restore place (next ids id name level) local = do
    restored ← restore (λ level'. place (next ids id name level')) level id (below local name)
    remove_level id
    pure (insert_id id ids)

  -- The whole function, with fuel for the depth of directories. It gives the level as it leaves it.
  unfoldable pub restore_dir : ℕ → Place → ResumeInfo → ℕ → Text → M ResumeInfo
  restore_dir zero place level directory_id local w = starved
  restore_dir (suc f) place level directory_id local w =
      (do
        ids ← finish_next (restore_dir f) place level local
        save_if true (place (last ids))
        existence ← ask_exists o
        make_directory o local existence
        entries ← fetch_listing o directory_id
        c ← restore_files place directory_id local entries (record { ids = ids; bytes = 0 })
        save_if (not (c.bytes == 0)) (place (last c.ids))
        ids' ← restore_subdirs (restore_dir f) place local entries c.ids
        pure (last ids'))
        w
