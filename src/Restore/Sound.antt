-- ===== src/Restore/Sound.antt =====
-- A whole restore, at every depth.
use mathlib.Core.List.{Memᴰ}
use mathlib.Core.Path.{subst}
use boxi.Prelude.{ℕ, zero, suc, ◌≡◌, refl, sym, inl, true, not, List, ◌==◌}
use boxi.Prelude.Text.{Text}
use boxi.Restore.Resume.{ResumeInfo, last, has_id}
use boxi.Restore.Dir.{
  Kind, file, dir, DirEntry, Outside, World, ok, M, ◌>>=◌, ◌>>◌, ask_exists, make_directory,
  fetch_listing, Params, save_if, Place, restore_files, restore_subdirs, finish_next, restore_dir,
}
use boxi.Restore.Paths.{Under}
use boxi.Restore.Truth.{
  Log, Truthful, Named, Complete, Shallow, OwnIds, OwnNames, itself-ClearOf, all-Complete,
}
use boxi.Restore.Ensures.{
  Ensures, returns, Ensures-bind, Root, FileHolds, Since, PlaceHolds, Same, Unlinked,
  ask_exists-Quiet, make_directory-Unlinked, fetch_listing-Quiet,
}
use boxi.Restore.Files.{
  Ready, Ready-Since, Ready-Going, Ready-Unlinked, Ready-Same, quietly, save_first-Ready,
  save_if-Ready, restore_files-Looped,
}
use boxi.Restore.Subdirs.{Restores, restore_subdirs-Looped, finish_next-Going}

all-Named :
    (es : List DirEntry) (ids : List ℕ)
    → Named file es ids
    → Named dir es ids
    → (e : DirEntry) → Memᴰ e es
    → has_id e.object_id ids ≡ true
all-Named es ids f d e m = by_kind e.kind refl
  where
    by_kind : (k : Kind) → e.kind ≡ k → has_id e.object_id ids ≡ true
    by_kind file q = f e m q
    by_kind dir q = d e m q

module _ (o : Outside) (r : Root) (params : Params) (saves : params.has_resume_info ≡ true)
    (own : OwnIds o) (names : OwnNames o) (n : ℕ) (place : Place) (directory_id : ℕ)
    (local : Text) where
  abbrev Here : Log → List ℕ → World → Type 0
  Here f ids w = Ready o r n place directory_id local f ids w

  abbrev Kept : Log → World → Type 0
  Kept f w = Since o r (Under local) f w

  module _ (restore : Place → ResumeInfo → ℕ → Text → M ResumeInfo)
      (spec : Restores o r params own names n restore)
      (shallow : Shallow o (suc n) directory_id) where
    abbrev Done : Log → ResumeInfo → World → Type 0
    Done f level w = Complete o (suc n) directory_id local w.fetched × Kept f w

    -- The loops over a listing that is the server's.
    loops :
        (f : Log) (es : List DirEntry) (ids : List ℕ) (w : World)
        → es ≡ o.list_directory directory_id
        → PlaceHolds o r (suc n) place directory_id local f
        → Here f ids w
        → Ensures (Done f) (Kept f) (
            (do
              c ←
                  restore_files o params place directory_id local es
                    (record { ids = ids; bytes = 0 })
              save_if o params (not (c.bytes == 0)) (place (last c.ids))
              ids' ← restore_subdirs o params restore place local es c.ids
              λ w'. ok (last ids') w')
              w)
    loops f es ids w q p g =
        let inside = λ (e : DirEntry) (m : Memᴰ e es). subst (Memᴰ e) q m in
        Ensures-bind _
          (restore_files-Looped o r params saves own names n place directory_id local f es _ w p
            inside g)
          (λ w' s. s)
          (λ c w1 l.
            Ensures-bind _
              (save_if-Ready o r params saves own names n place directory_id local f c.ids w1
                (not (c.bytes == 0)) p l.going)
              (λ w' s. s)
              (λ _ w2 g2.
                Ensures-bind _
                  (restore_subdirs-Looped o r params own names n restore spec place directory_id
                    local shallow f es c.ids w2 p inside
                    (Ready-Going o r params saves own names n place directory_id local f c.ids w2 p
                      g2))
                  (λ w' s. s)
                  (λ ids' w3 l'. returns (
                    all-Complete o n ids' directory_id local w3.fetched l'.going.set_holds (λ e m.
                        all-Named es ids' (λ e' m' k. l'.kept e'.object_id (l.named e' m' k))
                          l'.named e (subst (Memᴰ e) (sym q) m)),
                    l'.going.since,
                  ))))

    -- One call, given what the recursive calls do.
    step :
        (level : ResumeInfo) (w : World)
        → PlaceHolds o r (suc n) place directory_id local w.fetched
        → Truthful o (suc n) level directory_id local w.fetched
        → FileHolds o r w
        → Ensures (Done w.fetched) (Kept w.fetched) (
            (do
              ids ← finish_next o params restore place level local
              save_if o params true (place (last ids))
              existence ← ask_exists o
              make_directory o local existence
              entries ← fetch_listing o directory_id
              c ←
                  restore_files o params place directory_id local entries
                    (record { ids = ids; bytes = 0 })
              save_if o params (not (c.bytes == 0)) (place (last c.ids))
              ids' ← restore_subdirs o params restore place local entries c.ids
              λ w'. ok (last ids') w')
              w)
    step level w p t h =
        let f = w.fetched in
        Ensures-bind _
          (finish_next-Going o r params own names n restore spec place directory_id local shallow
            level w p t h)
          (λ w' s. s)
          (λ ids w1 g1.
            let unlinked = λ (v v' : World) (u : Unlinked o r local v v') (g : Here f ids v).
              Ready-Unlinked o r params saves own names n place directory_id local f ids local v v'
                (itself-ClearOf o ids directory_id local) (inl refl) u g in
            let since = Ready-Since o r params saves own names n place directory_id local f ids in
            Ensures-bind _
              (save_first-Ready o r params saves own names n place directory_id local f ids w1 g1)
              (λ w' s. s)
              (λ _ w2 g2.
                Ensures-bind _
                  (quietly o r params saves own names n place directory_id local f ids w2
                    (ask_exists o) p g2 (ask_exists-Quiet o r))
                  (λ w' s. s)
                  (λ x w3 g3.
                    Ensures-bind _ (make_directory-Unlinked o r local x w3)
                      (λ w' u. since w' p (unlinked w3 w' u g3))
                      (λ _ w4 u.
                        let g4 = unlinked w3 w4 u g3 in
                        let same = λ (w' : World) (s : Same o r w4 w').
                          Ready-Same o r params saves own names n place directory_id local f ids w4
                            w' s g4 in
                        Ensures-bind _ (fetch_listing-Quiet o r directory_id w4)
                          (λ w' s. since w' p (same w' s))
                          (λ es w5 (q, s). loops f es ids w5 q p (same w5 s))))))

-- With fuel for the depth of the directories, a restore into a level that is true either returns
-- with the directory complete on the disk, or stops; either way no file outside the directory is
-- touched, and the resume file is true of what is on the disk.
pub restore_dir_sound :
    (o : Outside) (r : Root) (params : Params)
    → params.has_resume_info ≡ true
    → OwnIds o
    → OwnNames o
    → (n : ℕ) (place : Place) (level : ResumeInfo) (directory_id : ℕ) (local : Text) (w : World)
    → Shallow o n directory_id
    → PlaceHolds o r n place directory_id local w.fetched
    → Truthful o n level directory_id local w.fetched
    → FileHolds o r w
    → Ensures
        (λ _ w'. Complete o n directory_id local w'.fetched × Since o r (Under local) w.fetched w')
        (Since o r (Under local) w.fetched)
        (restore_dir o params n place level directory_id local w)
unfolding restore_dir
restore_dir_sound o r params saves own names zero place level directory_id local w shallow p t h =
    elim t [ ]
restore_dir_sound o r params saves own names (suc n) place level directory_id local w shallow p t
      h =
    step o r params saves own names n place directory_id local (restore_dir o params n)
      (restore_dir_sound o r params saves own names n) shallow level w p t h
