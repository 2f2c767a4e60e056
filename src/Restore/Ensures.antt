-- ===== src/Restore/Ensures.antt =====
-- Postconditions of the actions of src/Restore.cc, and what each of them leaves on the disk.
use mathlib.Core.List.{Memᴰ}
use mathlib.Core.Path.{subst}
use boxi.Prelude.{
  ℕ, ◌≡◌, refl, sym, ◌∙◌, inl, inr, Bool, true, false, if◌then◌else◌, some, Bool-cases,
}
use boxi.Prelude.Text.{Text}
use boxi.Restore.Resume.{Bytes, ResumeInfo, save_over}
use boxi.Restore.Dir.{
  Existence, exists_no_object, exists_file, exists_dir, exists_unknown, DirEntry, Outside, World,
  Out, ok, threw, aborted, unlink, ask_exists, ask_size, M, continue, below, call, make_directory,
  fetch_listing, fetch_file, Place,
}
use boxi.Restore.Truth.{Log, fetched_of, Truthful}
use boxi.Restore.Paths.{Under, Under-up, Keeps, Keeps-weaken, Keeps-trans, without_path-Keeps}

-- The action returned with the first, or threw or failed an assertion with the second; it had fuel.
pub data Ensures {A : Type 0} (Q : A → World → Type 0) (E : World → Type 0) : Out A → Type 0 where
  returns : {a : A} {w : World} → Q a w → Ensures Q E (ok a w)
  throws : {w : World} → E w → Ensures Q E (threw w)
  aborts : {w : World} → E w → Ensures Q E (aborted w)

pub Ensures-bind :
    {A B : Type 0} {Q : A → World → Type 0} {E : World → Type 0} {Q' : B → World → Type 0}
    {E' : World → Type 0} (f : A → M B) {m : Out A}
    → Ensures Q E m
    → ((w : World) → E w → E' w)
    → ((a : A) (w : World) → Q a w → Ensures Q' E' (f a w))
    → Ensures Q' E' (continue m f)
Ensures-bind f (returns {a} {w} q) e k = k a w q
Ensures-bind f (throws {w} x) e k = throws (e w x)
Ensures-bind f (aborts {w} x) e k = aborts (e w x)

pub Ensures-weaken :
    {A : Type 0} {Q Q' : A → World → Type 0} {E E' : World → Type 0} {m : Out A}
    → Ensures Q E m
    → ((w : World) → E w → E' w)
    → ((a : A) (w : World) → Q a w → Q' a w)
    → Ensures Q' E' m
Ensures-weaken (returns {a} {w} q) e k = returns (k a w q)
Ensures-weaken (throws {w} x) e k = throws (e w x)
Ensures-weaken (aborts {w} x) e k = aborts (e w x)

pub Ensures-if :
    {A : Type 0} {Q : A → World → Type 0} {E : World → Type 0} (b : Bool) (x y : M A) (w : World)
    → (b ≡ true → Ensures Q E (x w))
    → (b ≡ false → Ensures Q E (y w))
    → Ensures Q E ((if b then x else y) w)
Ensures-if true x y w t f = t refl
Ensures-if false x y w t f = f refl

-- The restore that is saved: its depth, directory and local name.
pub record Root : Type 0 where
  pub depth : ℕ
  pub directory_id : ℕ
  pub local : Text

module _ (o : Outside) (r : Root) where
  abbrev pub RootTruthful : ResumeInfo → Log → Type 0
  RootTruthful info log = Truthful o r.depth info r.directory_id r.local log

  -- What the resume file claims is so.
  abbrev pub FileHolds : World → Type 0
  FileHolds w =
      (bs : Bytes)
      → w.resume_file ≡ some bs
      → (info : ResumeInfo) × (old : Bytes) × (bs ≡ save_over old info)
        × RootTruthful info w.fetched

  -- Since a log: only names that may be touched were, and the resume file holds.
  pub record Since (T : Text → Type 0) (f : Log) (w : World) : Type 0 where
    pub keeps : Keeps T f w.fetched
    pub holds : FileHolds w

  pub Since-trans :
      (T : Text → Type 0) (f g : Log) (w : World) → Keeps T f g → Since T g w → Since T f w
  Since-trans T f g w h s = record {
    keeps = Keeps-trans T f g w.fetched h s.keeps;
    holds = s.holds;
  }

  pub Since-up :
      (p n : Text) (f : Log) (w : World) → Since (Under (below p n)) f w → Since (Under p) f w
  Since-up p n f w s = record {
    keeps = Keeps-weaken (Under (below p n)) (Under p) f w.fetched (Under-up p n) s.keeps;
    holds = s.holds;
  }

  pub world-Since : (T : Text → Type 0) (w : World) → FileHolds w → Since T w.fetched w
  world-Since T w h = record { keeps = λ x a m. m; holds = h }

  -- The disk is as it was.
  pub record Same (w w' : World) : Type 0 where
    pub log : w'.fetched ≡ w.fetched
    pub file : w'.resume_file ≡ w.resume_file

  pub FileHolds-Same : (w w' : World) → Same w w' → FileHolds w → FileHolds w'
  FileHolds-Same w w' s h bs q =
      let (info, old, b, t) = h bs (sym s.file ∙ q) in
      (info, old, b, subst (RootTruthful info) (sym s.log) t)

  pub Since-Same :
      (T : Text → Type 0) (f : Log) (w w' : World) → Same w w' → Since T f w → Since T f w'
  Since-Same T f w w' s h = record {
    keeps = subst (Keeps T f) (sym s.log) h.keeps;
    holds = FileHolds-Same w w' s h.holds;
  }

  -- The place of a level in the structure that is saved: filled with the truth, the whole is true.
  abbrev pub PlaceHolds : ℕ → Place → ℕ → Text → Log → Type 0
  PlaceHolds n place directory_id local f =
      (level : ResumeInfo) (g : Log)
      → Keeps (Under local) f g
      → Truthful o n level directory_id local g
      → RootTruthful (place level) g

  -- An action that leaves the disk as it is.
  abbrev pub Quiet : {A : Type 0} → M A → Type 0
  Quiet m = (w : World) → Ensures (λ _. Same w) (Same w) (m w)

  still : (w : World) (n : ℕ) → Same w (record w { calls = n })
  still w n = record { log = refl; file = refl }

  pub call-Quiet : Quiet (call o)
  unfolding call
  call-Quiet w = elim (Bool-cases (o.succeeds w.calls)) [
    | inl e ↦ rw e (returns (still w _))
    | inr e ↦ rw e (throws (still w _))
  ]

  pub ask_exists-Quiet : Quiet (ask_exists o)
  unfolding ask_exists
  ask_exists-Quiet w = elim (Bool-cases (o.succeeds w.calls)) [
    | inl e ↦ rw e (returns (still w _))
    | inr e ↦ rw e (throws (still w _))
  ]

  pub ask_size-Quiet : Quiet (ask_size o)
  unfolding ask_size
  ask_size-Quiet w = elim (Bool-cases (o.succeeds w.calls)) [
    | inl e ↦ rw e (returns (still w _))
    | inr e ↦ rw e (throws (still w _))
  ]

  -- A listing is the server's.
  pub fetch_listing-Quiet :
      (id : ℕ) (w : World)
      → Ensures
          (λ entries w'. (entries ≡ o.list_directory id) × Same w w')
          (Same w)
          (fetch_listing o id w)
  unfolding fetch_listing
  fetch_listing-Quiet id w =
      Ensures-bind (λ _ w'. ok (o.list_directory id) w') (call-Quiet w) (λ w' s. s)
        (λ _ w' s. returns (refl, s))

  -- At most what has the name is gone, and the resume file is as it was.
  pub record Unlinked (path : Text) (w w' : World) : Type 0 where
    pub keeps : Keeps (λ x. x ≡ path) w.fetched w'.fetched
    pub file : w'.resume_file ≡ w.resume_file

  pub unlink-Unlinked :
      (path : Text) (w : World) → Ensures (λ _. Unlinked path w) (λ _. ⊥) (unlink o path w)
  unfolding unlink
  unlink-Unlinked path w = elim (Bool-cases (o.succeeds w.calls)) [
    | inl e ↦ rw e (returns (record { keeps = without_path-Keeps path w.fetched; file = refl }))
    | inr e ↦ rw e (returns (record { keeps = λ x a m. m; file = refl }))
  ]

  Unlinked-Same :
      (path : Text) (w w' w'' : World) → Unlinked path w w' → Same w' w'' → Unlinked path w w''
  Unlinked-Same path w w' w'' u s = record {
    keeps = subst (Keeps (λ x. x ≡ path) w.fetched) (sym s.log) u.keeps;
    file = s.file ∙ u.file;
  }

  pub Same-Unlinked : (path : Text) (w w' : World) → Same w w' → Unlinked path w w'
  Same-Unlinked path w w' s = record {
    keeps = subst (Keeps (λ x. x ≡ path) w.fetched) (sym s.log) (λ x a m. m);
    file = s.file;
  }

  pub Same-refl : (w : World) → Same w w
  Same-refl w = record { log = refl; file = refl }

  pub make_directory-Unlinked :
      (local : Text) (x : Existence) (w : World)
      → Ensures (λ _. Unlinked local w) (Unlinked local w) (make_directory o local x w)
  unfolding make_directory
  make_directory-Unlinked local exists_dir w = returns (Same-Unlinked local w w (Same-refl w))
  make_directory-Unlinked local exists_unknown w = aborts (Same-Unlinked local w w (Same-refl w))
  make_directory-Unlinked local exists_no_object w =
      Ensures-weaken (call-Quiet w) (λ w'. Same-Unlinked local w w')
        (λ _ w'. Same-Unlinked local w w')
  make_directory-Unlinked local exists_file w =
      Ensures-bind _ (unlink-Unlinked local w) (λ w' x. elim x [ ])
        (λ b w' u.
          Ensures-if b _ _ w'
            (λ _.
              Ensures-weaken (call-Quiet w') (λ w''. Unlinked-Same local w w' w'' u)
                (λ _ w''. Unlinked-Same local w w' w'' u))
            (λ _. throws u))

  -- A file that was fetched is on the disk; one that was not may be gone.
  pub fetch_file-Unlinked :
      (directory_id : ℕ) (local : Text) (e : DirEntry) (w : World)
      → Ensures
          (λ _ w'.
            Memᴰ (fetched_of directory_id local e) w'.fetched × Unlinked (below local e.name) w w')
          (Unlinked (below local e.name) w)
          (fetch_file o directory_id e (below local e.name) w)
  unfolding fetch_file
  fetch_file-Unlinked directory_id local e w =
      let path = below local e.name in
      Ensures-bind _ (unlink-Unlinked path w) (λ w' x. elim x [ ])
        (λ _ w1 u.
          Ensures-bind _ (call-Quiet w1) (λ w' s. Unlinked-Same path w w1 w' u s)
            (λ _ w2 s.
              let u' = Unlinked-Same path w w1 w2 u s in
              returns (
                Memᴰ.head refl,
                record {
                  keeps =
                      λ x a m. Memᴰ.tail (without_path-Keeps path w2.fetched x a (u'.keeps x a m));
                  file = u'.file;
                },
              )))
