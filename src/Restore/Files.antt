-- ===== src/Restore/Files.antt =====
-- The loop over the files of a directory.
use mathlib.Core.List.{Memᴰ}
use mathlib.Core.Path.{subst}
use boxi.Prelude.{
  ℕ, suc, ◌+◌, ◌≡◌, refl, sym, ◌∙◌, inl, inr, Bool, true, false, ◌&&◌, not, List, [], ◌∷◌, arith,
  Option, none, some, Bool-cases, ltb,
}
use boxi.Prelude.Text.{Text}
use boxi.Restore.Resume.{Bytes, last, insert_id, has_id, save_over}
use boxi.Restore.Dir.{
  Kind, file, DirEntry, Outside, World, M, below, old_file, save, save_if, ask_size, report, Params,
  Place, Count, count_bytes, restore_file, restore_files, is_file, max_bytes_between_saves,
}
use boxi.Restore.Paths.{Under, Keeps, Keeps-weaken, Keeps-trans}
use boxi.Restore.Truth.{
  Log, Named, Named-nil, Named-cons, ByKind_file, SetHolds, SetHolds-Keeps, ClearOf, others-ClearOf,
  SetHolds-insert, OwnIds, OwnNames, has_inserted, has_kept,
}
use boxi.Restore.Ensures.{
  Ensures, returns, throws, Ensures-bind, Ensures-weaken, Ensures-if, Root, Since, PlaceHolds, Same,
  Quiet, ask_size-Quiet, Unlinked, fetch_file-Unlinked,
}

skipped_file :
    (e : DirEntry) (ids : List ℕ)
    → e.kind ≡ file
    → (is_file e.kind && not (has_id e.object_id ids)) ≡ false
    → has_id e.object_id ids ≡ true
skipped_file e ids k b = ground arith

-- What a loop has done with a part of the listing, where its set and the world are so.
pub record Looped (G : List ℕ → World → Type 0) (k : Kind) (es : List DirEntry)
    (before after : List ℕ) (w : World) : Type 0 where
  pub going : G after w
  pub kept : (x : ℕ) → has_id x before ≡ true → has_id x after ≡ true
  pub named : Named k es after

module _ (o : Outside) (r : Root) (n : ℕ) (place : Place) (directory_id : ℕ) (local : Text) where
  -- What is known of the set and of the world in a directory.
  pub record Going (f : Log) (ids : List ℕ) (w : World) : Type 0 where
    pub set_holds : SetHolds o n ids directory_id local w.fetched
    pub since : Since o r (Under local) f w

  -- The resume file was saved in this directory, with no more in its set.
  abbrev pub Saved : List ℕ → World → Type 0
  Saved ids w =
      (ids' : List ℕ) × (old : Bytes) × (w.resume_file ≡ some (save_over old (place (last ids'))))
      × ((x : ℕ) → has_id x ids' ≡ true → has_id x ids ≡ true)

  -- The same, where files may be unlinked.
  pub record Ready (f : Log) (ids : List ℕ) (w : World) : Type 0 where
    pub set_holds : SetHolds o n ids directory_id local w.fetched
    pub keeps : Keeps (Under local) f w.fetched
    pub saved : Saved ids w

module _ (o : Outside) (r : Root) (params : Params) (saves : params.has_resume_info ≡ true)
    (own : OwnIds o) (names : OwnNames o) (n : ℕ) (place : Place) (directory_id : ℕ)
    (local : Text) where
  abbrev Here : Log → List ℕ → World → Type 0
  Here f ids w = Ready o r n place directory_id local f ids w

  abbrev Kept : Log → World → Type 0
  Kept f w = Since o r (Under local) f w

  pub Ready-Since :
      (f : Log) (ids : List ℕ) (w : World)
      → PlaceHolds o r (suc n) place directory_id local f
      → Here f ids w
      → Kept f w
  Ready-Since f ids w p h =
      let (ids', old, q, sub) = h.saved in
      record {
        keeps = h.keeps;
        holds = λ bs q'. (
          place (last ids'),
          old,
          cc,
          p (last ids') w.fetched h.keeps (λ e m i. h.set_holds e m (sub e.object_id i)),
        );
      }

  pub Ready-Going :
      (f : Log) (ids : List ℕ) (w : World)
      → PlaceHolds o r (suc n) place directory_id local f
      → Here f ids w
      → Going o r n place directory_id local f ids w
  Ready-Going f ids w p h = record { set_holds = h.set_holds; since = Ready-Since f ids w p h }

  pub Ready-Unlinked :
      (f : Log) (ids : List ℕ) (path : Text) (w w' : World)
      → ClearOf o (λ x. x ≡ path) ids directory_id local
      → Under local path
      → Unlinked o r path w w'
      → Here f ids w
      → Here f ids w'
  Ready-Unlinked f ids path w w' a u k h =
      let (ids', old, q, sub) = h.saved in
      record {
        set_holds =
            SetHolds-Keeps o n ids directory_id local (λ x. x ≡ path) w.fetched w'.fetched k.keeps a
              h.set_holds;
        keeps = Keeps-trans (Under local) f w.fetched w'.fetched h.keeps (
            Keeps-weaken (λ x. x ≡ path) (Under local) w.fetched w'.fetched
              (λ x e. subst (Under local) (sym e) u) k.keeps);
        saved = (ids', old, k.file ∙ q, sub);
      }

  pub Ready-Same :
      (f : Log) (ids : List ℕ) (w w' : World) → Same o r w w' → Here f ids w → Here f ids w'
  Ready-Same f ids w w' s h =
      let (ids', old, q, sub) = h.saved in
      record {
        set_holds = subst (SetHolds o n ids directory_id local) (sym s.log) h.set_holds;
        keeps = subst (Keeps (Under local) f) (sym s.log) h.keeps;
        saved = (ids', old, s.file ∙ q, sub);
      }

  -- A quiet action.
  pub quietly :
      {A : Type 0} (f : Log) (ids : List ℕ) (w : World) (m : M A)
      → PlaceHolds o r (suc n) place directory_id local f
      → Here f ids w
      → Quiet o r m
      → Ensures (λ _. Here f ids) (Kept f) (m w)
  quietly f ids w m p h k =
      Ensures-weaken (k w) (λ w' s. Ready-Since f ids w' p (Ready-Same f ids w w' s h))
        (λ _ w' s. Ready-Same f ids w w' s h)

  save-Ready :
      (f : Log) (ids : List ℕ) (w : World)
      → Going o r n place directory_id local f ids w
      → Ensures (λ _. Here f ids) (Kept f) (save o (place (last ids)) w)
  unfolding save
  save-Ready f ids w g = elim (Bool-cases (o.succeeds w.calls)) [
    | inl e ↦ rw e (
        returns (record {
          set_holds = g.set_holds;
          keeps = g.since.keeps;
          saved = (ids, old_file w.resume_file, refl, λ x h. h);
        }))
    | inr e ↦ rw e (throws (record { keeps = g.since.keeps; holds = g.since.holds }))
  ]

  pub save_first-Ready :
      (f : Log) (ids : List ℕ) (w : World)
      → Going o r n place directory_id local f ids w
      → Ensures (λ _. Here f ids) (Kept f) (save_if o params true (place (last ids)) w)
  unfolding save_if
  save_first-Ready f ids w g =
      Ensures-if params.has_resume_info _ _ w (λ _. save-Ready f ids w g) (λ q. cc)

  pub save_if-Ready :
      (f : Log) (ids : List ℕ) (w : World) (wanted : Bool)
      → PlaceHolds o r (suc n) place directory_id local f
      → Here f ids w
      → Ensures (λ _. Here f ids) (Kept f) (save_if o params wanted (place (last ids)) w)
  unfolding save_if
  save_if-Ready f ids w wanted p h =
      Ensures-if (wanted && params.has_resume_info) _ _ w
        (λ _. save-Ready f ids w (Ready-Going f ids w p h)) (λ _. returns h)

  count_bytes-Ready :
      (f : Log) (ids : List ℕ) (bytes : ℕ) (size : Option ℕ) (w : World)
      → PlaceHolds o r (suc n) place directory_id local f
      → Here f ids w
      → Ensures
          (λ c w'. (c.ids ≡ ids) × Here f c.ids w')
          (Kept f)
          (count_bytes o params place ids bytes size w)
  unfolding count_bytes
  count_bytes-Ready f ids bytes none w p g = returns (refl, g)
  count_bytes-Ready f ids bytes (some size) w p g =
      Ensures-if (ltb max_bytes_between_saves (bytes + size)) _ _ w
        (λ _.
          Ensures-bind _ (save_if-Ready f ids w true p g) (λ w' s. s) (λ _ w' h. returns (refl, h)))
        (λ _. returns (refl, g))

  restore_file-Ready :
      (f : Log) (e : DirEntry) (c : Count) (w : World)
      → PlaceHolds o r (suc n) place directory_id local f
      → Memᴰ e (o.list_directory directory_id)
      → e.kind ≡ file
      → has_id e.object_id c.ids ≡ false
      → Here f c.ids w
      → Ensures
          (λ c' w'. (c'.ids ≡ insert_id e.object_id c.ids) × Here f c'.ids w')
          (Kept f)
          (restore_file o params place directory_id local e c w)
  unfolding restore_file report
  restore_file-Ready f e c w p m k absent g =
      let path = below local e.name in
      let ids = insert_id e.object_id c.ids in
      let apart : ClearOf o (λ x. x ≡ path) c.ids directory_id local = λ e' m' i x u q.
        others-ClearOf o c.ids directory_id local e names m absent e' m' i x u (inl q) in
      let step = λ (w' : World) (u : Unlinked o r path w w').
        Ready-Unlinked f c.ids path w w' apart (inr (e.name, refl)) u g in
      Ensures-bind _ (fetch_file-Unlinked o r directory_id local e w)
        (λ w' u. Ready-Since f c.ids w' p (step w' u))
        (λ _ w' (here, u).
          let h = step w' u in
          let (ids', old, q, sub) = h.saved in
          let added : Here f ids w' = record {
            set_holds =
                SetHolds-insert o n c.ids directory_id local w'.fetched e own m
                  (ByKind_file _ e.kind k here) h.set_holds;
            keeps = h.keeps;
            saved = (ids', old, q, λ x i. has_kept e.object_id x c.ids (sub x i));
          } in
          Ensures-bind _
            (quietly f ids _ (ask_size o) p
              (Ready-Same f ids w' _ (record { log = refl; file = refl }) added)
              (ask_size-Quiet o r))
            (λ w'' s. s) (λ size w'' h'. count_bytes-Ready f ids c.bytes size w'' p h'))

  pub restore_files-Looped :
      (f : Log) (es : List DirEntry) (c : Count) (w : World)
      → PlaceHolds o r (suc n) place directory_id local f
      → ((e : DirEntry) → Memᴰ e es → Memᴰ e (o.list_directory directory_id))
      → Here f c.ids w
      → Ensures
          (λ c' w'. Looped (Here f) file es c.ids c'.ids w')
          (Kept f)
          (restore_files o params place directory_id local es c w)
  unfolding restore_files
  restore_files-Looped f [] c w p m g =
      returns (record { going = g; kept = λ x h. h; named = Named-nil file c.ids })
  restore_files-Looped f (e ∷ es) c w p m g =
      elim (Bool-cases (is_file e.kind && not (has_id e.object_id c.ids))) [
        | inl b ↦ rw b (
            Ensures-bind _
              (restore_file-Ready f e c w p (m e (Memᴰ.head refl)) (ground arith) (ground arith) g)
              (λ w' s. s)
              (λ c' w' (same, g').
                Ensures-weaken (restore_files-Looped f es c' w' p (λ e' i. m e' (Memᴰ.tail i)) g')
                  (λ w'' s. s)
                  (λ c'' w'' l.
                    let keep = λ (x : ℕ) (h : has_id x c.ids ≡ true).
                      l.kept x (rw same (has_kept e.object_id x c.ids h)) in
                    record {
                      going = l.going;
                      kept = keep;
                      named =
                          Named-cons file e es c''.ids
                            (λ _. l.kept e.object_id (rw same (has_inserted e.object_id c.ids)))
                            l.named;
                    })))
        | inr b ↦ rw b (
            Ensures-weaken (restore_files-Looped f es c w p (λ e' i. m e' (Memᴰ.tail i)) g)
              (λ w'' s. s)
              (λ c'' w'' l. record {
                going = l.going;
                kept = l.kept;
                named =
                    Named-cons file e es c''.ids
                      (λ k. l.kept e.object_id (skipped_file e c.ids k b)) l.named;
              }))
      ]
