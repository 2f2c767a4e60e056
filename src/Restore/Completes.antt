-- ===== src/Restore/Completes.antt =====
-- A restore in which no call fails.
use mathlib.Core.List.{Memᴰ}
use mathlib.Core.Path.{subst}
use boxi.Prelude.{
  ℕ, zero, suc, ◌+◌, ◌≡◌, ◌≢◌, refl, sym, Bool, true, false, ◌&&◌, not, List, [], ◌∷◌, arith, ◌==◌,
  Option, none, some, ltb,
}
use boxi.Prelude.Text.{Text}
use boxi.Restore.Resume.{ResumeInfo, last, next, has_id, insert_id}
use boxi.Restore.Dir.{
  Existence, exists_no_object, exists_file, exists_dir, exists_unknown, dir, DirEntry, Outside,
  World, Out, M, continue, below, call, save, ask_exists, ask_size, unlink, remove_level,
  make_directory, fetch_listing, fetch_file, report, Params, save_if, count_bytes, is_file, Place,
  Count, restore_file, restore_files, restore_subdir, restore_subdirs, finish_next, restore_dir,
  max_bytes_between_saves,
}
use boxi.Restore.Truth.{Log, Truthful, Shallow}
use boxi.Restore.Ensures.{Ensures, returns, Ensures-bind, Ensures-if}

-- The action returns.
abbrev pub Returns : {A : Type 0} → Out A → Type 0
Returns m = Ensures (λ _ _. Unit) (λ _. ⊥) m

pub then-Returns :
    {A B : Type 0} (f : A → M B) {m : Out A}
    → Returns m
    → ((a : A) (w : World) → Returns (f a w))
    → Returns (continue m f)
then-Returns f h k = Ensures-bind f h (λ w x. x) (λ a w _. k a w)

-- No call fails, `ObjectExists` gives one of the answers that are known, and no directory below has
-- the ID 0.
pub record Calm (o : Outside) : Type 0 where
  pub succeeds : (n : ℕ) → o.succeeds n ≡ true
  pub known : (n : ℕ) → o.object_exists n ≢ exists_unknown
  pub no_zero :
      (directory_id : ℕ) (e : DirEntry)
      → Memᴰ e (o.list_directory directory_id)
      → e.kind ≡ dir
      → (e.object_id == 0) ≡ false

-- The levels of the information lead to directories that are there.
abbrev pub Leads : Outside → ResumeInfo → ℕ → Type 0
Leads o (last ids) directory_id = Unit
Leads o (next ids id name level) directory_id =
    (e : DirEntry) × Memᴰ e (o.list_directory directory_id)
    × (e.object_id ≡ id)
    × (e.kind ≡ dir)
    × Leads o level id

pub Truthful-Leads :
    (o : Outside) (n : ℕ) (level : ResumeInfo) (directory_id : ℕ) (local : Text) (log : Log)
    → Truthful o n level directory_id local log
    → Leads o level directory_id
Truthful-Leads o zero level directory_id local log t = elim t [ ]
Truthful-Leads o (suc n) (last ids) directory_id local log t = tt
Truthful-Leads o (suc n) (next ids id name level) directory_id local log
      (s, (e, m, i, a, k, absent, t)) =
    (e, m, i, k, Truthful-Leads o n level id (below local name) log t)

module _ (o : Outside) (calm : Calm o) where
  pub call-Returns : (w : World) → Returns (call o w)
  unfolding call
  call-Returns w = rw (calm.succeeds w.calls) (returns tt)

  fetch_listing-Returns :
      (id : ℕ) (w : World)
      → Ensures (λ es _. es ≡ o.list_directory id) (λ _. ⊥) (fetch_listing o id w)
  unfolding fetch_listing
  fetch_listing-Returns id w = Ensures-bind _ (call-Returns w) (λ w x. x) (λ _ w'' _. returns refl)

  unlink-Unlinks : (path : Text) (w : World) → Ensures (λ b _. b ≡ true) (λ _. ⊥) (unlink o path w)
  unfolding unlink
  unlink-Unlinks path w = rw (calm.succeeds w.calls) (returns refl)

  make_directory-Returns :
      (local : Text) (x : Existence) (w : World)
      → x ≢ exists_unknown
      → Returns (make_directory o local x w)
  unfolding make_directory
  make_directory-Returns local exists_dir w h = returns tt
  make_directory-Returns local exists_file w h =
      Ensures-bind _ (unlink-Unlinks local w) (λ w' x. x)
        (λ b w' q. Ensures-if b _ _ w' (λ _. call-Returns w') (λ q'. cc))
  make_directory-Returns local exists_no_object w h = call-Returns w
  make_directory-Returns local exists_unknown w h = absurd (h refl)

  ask_exists-Returns : (w : World) → Ensures (λ x _. x ≢ exists_unknown) (λ _. ⊥) (ask_exists o w)
  unfolding ask_exists
  ask_exists-Returns w = rw (calm.succeeds w.calls) (returns (calm.known w.calls))

  ask_size-Returns : (w : World) → Returns (ask_size o w)
  unfolding ask_size
  ask_size-Returns w = rw (calm.succeeds w.calls) (returns tt)

  remove_level-Returns : (id : ℕ) (w : World) → (id == 0) ≡ false → Returns (remove_level id w)
  unfolding remove_level
  remove_level-Returns id w h = Ensures-if (id == 0) _ _ w (λ q. cc) (λ q. returns tt)

  module _ (params : Params) where
    save_if-Returns :
        (wanted : Bool) (root : ResumeInfo) (w : World) → Returns (save_if o params wanted root w)
    unfolding save_if save
    save_if-Returns wanted root w =
        Ensures-if (wanted && params.has_resume_info) _ _ w
          (λ _. rw (calm.succeeds w.calls) (returns tt)) (λ _. returns tt)

    count_bytes-Returns :
        (place : Place) (ids : List ℕ) (bytes : ℕ) (size : Option ℕ) (w : World)
        → Returns (count_bytes o params place ids bytes size w)
    unfolding count_bytes
    count_bytes-Returns place ids bytes none w = returns tt
    count_bytes-Returns place ids bytes (some size) w =
        Ensures-if (ltb max_bytes_between_saves (bytes + size)) _ _ w
          (λ _. then-Returns _ (save_if-Returns true (place (last ids)) w) (λ _ w'. returns tt))
          (λ _. returns tt)

    restore_file-Returns :
        (place : Place) (directory_id : ℕ) (local : Text) (e : DirEntry) (c : Count) (w : World)
        → Returns (restore_file o params place directory_id local e c w)
    unfolding restore_file fetch_file report
    restore_file-Returns place directory_id local e c w =
        then-Returns _
          (Ensures-bind _ (unlink-Unlinks (below local e.name) w) (λ w' x. x)
            (λ _ w1 _. then-Returns _ (call-Returns w1) (λ _ w'. returns tt)))
          (λ _ w'.
            then-Returns _ (ask_size-Returns _) (λ size w''.
              count_bytes-Returns place (insert_id e.object_id c.ids) c.bytes size w''))

    restore_files-Returns :
        (place : Place) (directory_id : ℕ) (local : Text) (es : List DirEntry) (c : Count)
        (w : World)
        → Returns (restore_files o params place directory_id local es c w)
    unfolding restore_files
    restore_files-Returns place directory_id local [] c w = returns tt
    restore_files-Returns place directory_id local (e ∷ es) c w =
        Ensures-if (is_file e.kind && not (has_id e.object_id c.ids)) _ _ w
          (λ _.
            then-Returns _ (restore_file-Returns place directory_id local e c w)
              (λ c' w'. restore_files-Returns place directory_id local es c' w'))
          (λ _. restore_files-Returns place directory_id local es c w)

    module _ (restore_below : Place → ResumeInfo → ℕ → Text → M ResumeInfo) where
      restore_subdirs-Returns :
          (place : Place) (local : Text) (es : List DirEntry) (ids : List ℕ) (w : World)
          → ((e : DirEntry)
              → Memᴰ e es
              → e.kind ≡ dir
              → ((e.object_id == 0) ≡ false)
                × ((place' : Place) (local' : Text) (w' : World)
                    → Returns (restore_below place' (last []) e.object_id local' w')))
          → Returns (restore_subdirs o params restore_below place local es ids w)
      unfolding restore_subdirs restore_subdir
      restore_subdirs-Returns place local [] ids w h = returns tt
      restore_subdirs-Returns place local (e ∷ es) ids w h =
          Ensures-if (not (is_file e.kind) && not (has_id e.object_id ids)) _ _ w
            (λ b.
              then-Returns _
                (then-Returns _ ((h e (Memᴰ.head refl) (ground arith)).1 _ _ w) (λ _ w'.
                  then-Returns _
                    (remove_level-Returns e.object_id w' (h e (Memᴰ.head refl) (ground arith)).0)
                    (λ _ w''. returns tt)))
                (λ ids' w'.
                  restore_subdirs-Returns place local es ids' w' (λ e' m. h e' (Memᴰ.tail m))))
            (λ b. restore_subdirs-Returns place local es ids w (λ e' m. h e' (Memᴰ.tail m)))

      finish_next-Returns :
          (place : Place) (level : ResumeInfo) (directory_id : ℕ) (local : Text) (w : World)
          → Leads o level directory_id
          → ((place' : Place) (level' : ResumeInfo) (e : DirEntry) (local' : Text)
              → Memᴰ e (o.list_directory directory_id)
              → e.kind ≡ dir
              → Leads o level' e.object_id
              → Returns (restore_below place' level' e.object_id local' w))
          → Returns (finish_next o params restore_below place level local w)
      unfolding finish_next
      finish_next-Returns place (last ids) directory_id local w l h = returns tt
      finish_next-Returns place (next ids id name level) directory_id local w (e, m, i, k, l) h =
          then-Returns _
            (subst
              (λ x. Returns (
                restore_below (λ level'. place (next ids id name level')) level x (below local name)
                  w))
              i (h _ level e _ m k (subst (Leads o level) (sym i) l)))
            (λ _ w'.
              then-Returns _
                (remove_level-Returns id w'
                  (subst (λ x. (x == 0) ≡ false) i (calm.no_zero directory_id e m k)))
                (λ _ w''. returns tt))

    pub restore_dir-Returns :
        (n : ℕ) (place : Place) (level : ResumeInfo) (directory_id : ℕ) (local : Text) (w : World)
        → Shallow o n directory_id
        → Leads o level directory_id
        → Returns (restore_dir o params n place level directory_id local w)
    unfolding restore_dir
    restore_dir-Returns zero place level directory_id local w shallow l = elim shallow [ ]
    restore_dir-Returns (suc n) place level directory_id local w shallow l =
        then-Returns _
          (finish_next-Returns (restore_dir o params n) place level directory_id local w l
            (λ place' level' e local' m k l'.
              restore_dir-Returns n place' level' e.object_id local' w (shallow e m k) l'))
          (λ ids w1. then-Returns _ (save_if-Returns true (place (last ids)) w1) (λ _ w2.
            Ensures-bind _ (ask_exists-Returns w2) (λ w' x. x)
              (λ x w2' known. then-Returns _ (make_directory-Returns local x w2' known) (λ _ w3.
                Ensures-bind _ (fetch_listing-Returns directory_id w3) (λ w' x. x)
                  (λ es w4 q.
                    then-Returns _ (restore_files-Returns place directory_id local es _ w4) (λ c w5.
                      then-Returns _ (save_if-Returns (not (c.bytes == 0)) (place (last c.ids)) w5)
                        (λ _ w6.
                          then-Returns _
                            (restore_subdirs-Returns (restore_dir o params n) place local es c.ids
                              w6
                              (λ e m k. (
                                calm.no_zero directory_id e (subst (Memᴰ e) q m) k,
                                λ place' local' w'.
                                    restore_dir-Returns n place' (last []) e.object_id local' w'
                                      (shallow e (subst (Memᴰ e) q m) k) tt,
                              )))
                            (λ ids' w7. returns tt))))))))
