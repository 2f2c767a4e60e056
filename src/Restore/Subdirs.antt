-- ===== src/Restore/Subdirs.antt =====
-- The loop over the subdirectories of a directory, and the level that a resumed restore finishes
-- first.
use mathlib.Core.List.{Memᴰ}
use mathlib.Core.Path.{subst}
use boxi.Prelude.{
  ℕ, zero, suc, ◌≡◌, refl, sym, inl, inr, true, false, ◌&&◌, not, ◌==◌, List, [], ◌∷◌, arith,
  Bool-cases,
}
use boxi.Prelude.Text.{Text}
use boxi.Restore.Resume.{ResumeInfo, last, next, insert_id, has_id}
use boxi.Restore.Dir.{
  dir, DirEntry, Outside, World, ok, M, continue, below, Params, Place, is_file, remove_level,
  restore_subdir, restore_subdirs, finish_next,
}
use boxi.Restore.Paths.{Under, Under-up, Keeps-weaken, Keeps-trans}
use boxi.Restore.Truth.{
  Log, Truthful, Named-nil, Named-cons, ByKind_dir, Complete, Shallow, SetHolds, SetHolds-Keeps,
  others-ClearOf, SetHolds-insert, OwnIds, OwnNames, has_inserted, has_kept,
}
use boxi.Restore.Ensures.{
  Ensures, returns, aborts, Ensures-bind, Ensures-weaken, Ensures-if, Root, FileHolds, Since,
  Since-trans, Since-up, Since-Same, Same, Same-refl, world-Since, PlaceHolds,
}
use boxi.Restore.Files.{Going, Looped}

skipped_dir :
    (e : DirEntry) (ids : List ℕ)
    → e.kind ≡ dir
    → (not (is_file e.kind) && not (has_id e.object_id ids)) ≡ false
    → has_id e.object_id ids ≡ true
skipped_dir e ids k b = ground arith

-- A level that was just added claims nothing.
pub fresh_level :
    (o : Outside) (n directory_id : ℕ) (local : Text) (log : Log)
    → Shallow o n directory_id
    → Truthful o n (last []) directory_id local log
unfolding has_id
fresh_level o zero directory_id local log s = s
fresh_level o (suc n) directory_id local log s = λ e m i. cc

module _ (o : Outside) (r : Root) (params : Params) (own : OwnIds o) (names : OwnNames o)
    (n : ℕ) where
  -- What the recursive call does for a directory of less depth.
  abbrev pub Restores : (Place → ResumeInfo → ℕ → Text → M ResumeInfo) → Type 0
  Restores restore =
      (place : Place) (level : ResumeInfo) (directory_id : ℕ) (local : Text) (w : World)
      → Shallow o n directory_id
      → PlaceHolds o r n place directory_id local w.fetched
      → Truthful o n level directory_id local w.fetched
      → FileHolds o r w
      → Ensures
          (λ _ w'.
            Complete o n directory_id local w'.fetched × Since o r (Under local) w.fetched w')
          (Since o r (Under local) w.fetched) (restore place level directory_id local w)

  module _ (restore : Place → ResumeInfo → ℕ → Text → M ResumeInfo) (spec : Restores restore)
      (place : Place) (directory_id : ℕ) (local : Text)
      (shallow : Shallow o (suc n) directory_id) where
    abbrev Goes : Log → List ℕ → World → Type 0
    Goes f ids w = Going o r n place directory_id local f ids w

    abbrev Kept : Log → World → Type 0
    Kept f w = Since o r (Under local) f w

    place_next :
        (f : Log) (ids : List ℕ) (e : DirEntry)
        → PlaceHolds o r (suc n) place directory_id local f
        → Memᴰ e (o.list_directory directory_id)
        → e.kind ≡ dir
        → has_id e.object_id ids ≡ false
        → SetHolds o n ids directory_id local f
        → PlaceHolds o r n
            (λ level. place (next ids e.object_id e.name level))
            e.object_id
            (below local e.name)
            f
    place_next f ids e p m k absent s level g keeps t =
        p (next ids e.object_id e.name level) g
          (Keeps-weaken (Under (below local e.name)) (Under local) f g (Under-up local e.name)
            keeps)
          (
            SetHolds-Keeps o n ids directory_id local (Under (below local e.name)) f g keeps
                (others-ClearOf o ids directory_id local e names m absent) s,
            (e, m, refl, refl, k, absent, t),
          )

    remove_level-Quiet :
        (id : ℕ) (w : World) → Ensures (λ _. Same o r w) (Same o r w) (remove_level id w)
    unfolding remove_level
    remove_level-Quiet id w =
        Ensures-if (id == 0) _ _ w (λ _. aborts (Same-refl o r w)) (λ _. returns (Same-refl o r w))

    Going-Same :
        (f : Log) (ids : List ℕ) (w w' : World) → Same o r w w' → Goes f ids w → Goes f ids w'
    Going-Same f ids w w' s g = record {
      set_holds = subst (SetHolds o n ids directory_id local) (sym s.log) g.set_holds;
      since = Since-Same o r (Under local) f w w' s g.since;
    }

    -- One subdirectory into a level, whichever: restored, and its ID inserted.
    enter :
        (f : Log) (ids : List ℕ) (e : DirEntry) (level : ResumeInfo) (w : World)
        → PlaceHolds o r (suc n) place directory_id local f
        → Memᴰ e (o.list_directory directory_id)
        → e.kind ≡ dir
        → has_id e.object_id ids ≡ false
        → Truthful o n level e.object_id (below local e.name) w.fetched
        → Goes f ids w
        → Ensures
            (λ ids' w'. (ids' ≡ insert_id e.object_id ids) × Goes f ids' w')
            (Kept f)
            (continue
              (restore
                (λ level'. place (next ids e.object_id e.name level'))
                level
                e.object_id
                (below local e.name)
                w)
              (λ _ w'.
                continue
                  (remove_level e.object_id w')
                  (λ _ w''. ok (insert_id e.object_id ids) w'')))
    enter f ids e level w p m k absent t g =
        let p' : PlaceHolds o r (suc n) place directory_id local w.fetched =
          λ l h keeps. p l h (Keeps-trans (Under local) f w.fetched h g.since.keeps keeps) in
        let trans = λ (w' : World) (s : Since o r (Under (below local e.name)) w.fetched w').
          Since-trans o r (Under local) f w.fetched w' g.since.keeps
            (Since-up o r local e.name w.fetched w' s) in
        Ensures-bind _
          (spec _ level e.object_id (below local e.name) w (shallow e m k)
            (place_next w.fetched ids e p' m k absent g.set_holds) t g.since.holds)
          trans
          (λ _ w' (c, s).
            let done : Goes f (insert_id e.object_id ids) w' = record {
              set_holds =
                  SetHolds-insert o n ids directory_id local w'.fetched e own m
                    (ByKind_dir _ e.kind k c)
                    (SetHolds-Keeps o n ids directory_id local (Under (below local e.name))
                      w.fetched w'.fetched s.keeps
                      (others-ClearOf o ids directory_id local e names m absent) g.set_holds);
              since = trans w' s;
            } in
            Ensures-bind _ (remove_level-Quiet e.object_id w')
              (λ w'' q. Since-Same o r (Under local) f w' w'' q (trans w' s))
              (λ _ w'' q. returns (refl, Going-Same f (insert_id e.object_id ids) w' w'' q done)))

    pub restore_subdirs-Looped :
        (f : Log) (es : List DirEntry) (ids : List ℕ) (w : World)
        → PlaceHolds o r (suc n) place directory_id local f
        → ((e : DirEntry) → Memᴰ e es → Memᴰ e (o.list_directory directory_id))
        → Goes f ids w
        → Ensures
            (λ ids' w'. Looped (Goes f) dir es ids ids' w')
            (Kept f)
            (restore_subdirs o params restore place local es ids w)
    unfolding restore_subdirs restore_subdir
    restore_subdirs-Looped f [] ids w p m g =
        returns (record { going = g; kept = λ x h. h; named = Named-nil dir ids })
    restore_subdirs-Looped f (e ∷ es) ids w p m g =
        elim (Bool-cases (not (is_file e.kind) && not (has_id e.object_id ids))) [
          | inl b ↦ rw b (
              Ensures-bind _
                (enter f ids e (last []) w p (m e (Memᴰ.head refl)) (ground arith) (ground arith)
                  (fresh_level o n e.object_id (below local e.name) w.fetched
                    (shallow e (m e (Memᴰ.head refl)) (ground arith)))
                  g)
                (λ w' s. s)
                (λ ids' w' (same, g').
                  Ensures-weaken
                    (restore_subdirs-Looped f es ids' w' p (λ e' i. m e' (Memᴰ.tail i)) g')
                    (λ w'' s. s)
                    (λ ids'' w'' l. record {
                      going = l.going;
                      kept = λ x h. l.kept x (rw same (has_kept e.object_id x ids h));
                      named =
                          Named-cons dir e es ids''
                            (λ _. l.kept e.object_id (rw same (has_inserted e.object_id ids)))
                            l.named;
                    })))
          | inr b ↦ rw b (
              Ensures-weaken (restore_subdirs-Looped f es ids w p (λ e' i. m e' (Memᴰ.tail i)) g)
                (λ w'' s. s)
                (λ ids'' w'' l. record {
                  going = l.going;
                  kept = l.kept;
                  named =
                      Named-cons dir e es ids'' (λ k. l.kept e.object_id (skipped_dir e ids k b))
                        l.named;
                }))
        ]

    -- "If we're resuming": whatever level the restore starts at, the set that it goes on with holds.
    pub finish_next-Going :
        (level : ResumeInfo) (w : World)
        → PlaceHolds o r (suc n) place directory_id local w.fetched
        → Truthful o (suc n) level directory_id local w.fetched
        → FileHolds o r w
        → Ensures
            (λ ids w'. Goes w.fetched ids w')
            (Kept w.fetched)
            (finish_next o params restore place level local w)
    unfolding finish_next
    finish_next-Going (last ids) w p t h =
        returns (record { set_holds = t; since = world-Since o r (Under local) w h })
    finish_next-Going (next ids id name level) w p (s, (e, m, i, a, k, absent, t)) h =
        let P : ℕ → Text → Type 0 = λ x y.
          has_id x ids ≡ false
          → Truthful o n level x (below local y) w.fetched
          → Ensures (λ ids' w'. Goes w.fetched ids' w') (Kept w.fetched)
              (continue (restore (λ level'. place (next ids x y level')) level x (below local y) w)
                (λ _ w'. continue (remove_level x w') (λ _ w''. ok (insert_id x ids) w''))) in
        subst (λ x. P x name) i
          (subst (P e.object_id) a (λ absent' t'.
            Ensures-weaken
              (enter w.fetched ids e level w p m k absent' t'
                (record { set_holds = s; since = world-Since o r (Under local) w h }))
              (λ w' x. x) (λ ids' w' (_, g). g)))
          absent t
