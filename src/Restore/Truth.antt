-- ===== src/Restore/Truth.antt =====
-- What a restore has to achieve, and what a level of the resumption information claims.
use mathlib.Core.List.{Memᴰ}
use mathlib.Core.Path.{subst}
use boxi.Prelude.{
  ℕ, zero, suc, ◌≡◌, ◌≢◌, refl, sym, ap, ◌∙◌, ◌⊎◌, inl, inr, true, false, ◌||◌, List, [], ◌∷◌,
  arith, ◌==◌,
}
use boxi.Prelude.Text.{Text}
use boxi.Restore.Resume.{ResumeInfo, last, next, insert_id, has_id}
use boxi.Restore.Paths.{Under, SlashFree, Under-up, same_name, own_apart, Keeps}
use boxi.Restore.Dir.{Kind, file, dir, DirEntry, Outside, Fetched, below}

abbrev pub Log : Type 0
Log = List Fetched

abbrev pub fetched_of : ℕ → Text → DirEntry → Fetched
fetched_of directory_id local e = record {
  directory_id = directory_id;
  object_id = e.object_id;
  local_name = below local e.name;
}

-- One statement for a file, another for a directory.
abbrev pub ByKind : Kind → Type 0 → Type 0 → Type 0
ByKind file A B = A
ByKind dir A B = B

ByKind-map : {A B A' B' : Type 0} (k : Kind) → (A → A') → (B → B') → ByKind k A B → ByKind k A' B'
ByKind-map file f g x = f x
ByKind-map dir f g x = g x

pub ByKind_file : {A : Type 0} (B : Type 0) (k : Kind) → k ≡ file → A → ByKind k A B
ByKind_file B file h x = x
ByKind_file B dir h x = cc

pub ByKind_dir : (A : Type 0) {B : Type 0} (k : Kind) → k ≡ dir → B → ByKind k A B
ByKind_dir A file h x = cc
ByKind_dir A dir h x = x

has_id-insert_id :
    (id x : ℕ) (xs : List ℕ) → has_id x (insert_id id xs) ≡ ((id == x) || has_id x xs)
unfolding has_id insert_id
has_id-insert_id id x [] = refl
has_id-insert_id id x (y ∷ ys) = ground (arith, has_id-insert_id id x ys)

pub has_id-cases :
    (id x : ℕ) (xs : List ℕ) → has_id x (insert_id id xs) ≡ true → (id ≡ x) ⊎ (has_id x xs ≡ true)
has_id-cases id x xs h = ground (arith, has_id-insert_id id x xs)

pub has_inserted : (id : ℕ) (xs : List ℕ) → has_id id (insert_id id xs) ≡ true
has_inserted id xs = ground (arith, has_id-insert_id id id xs)

pub has_kept : (id x : ℕ) (xs : List ℕ) → has_id x xs ≡ true → has_id x (insert_id id xs) ≡ true
has_kept id x xs h = ground (arith, has_id-insert_id id x xs)

-- The set names every entry of the kind in a part of a listing.
abbrev pub Named : Kind → List DirEntry → List ℕ → Type 0
Named k es ids = (e : DirEntry) → Memᴰ e es → e.kind ≡ k → has_id e.object_id ids ≡ true

pub Named-nil : (k : Kind) (ids : List ℕ) → Named k [] ids
Named-nil k ids e m = elim m [ ]

pub Named-cons :
    (k : Kind) (e : DirEntry) (es : List DirEntry) (ids : List ℕ)
    → (e.kind ≡ k → has_id e.object_id ids ≡ true)
    → Named k es ids
    → Named k (e ∷ es) ids
Named-cons k e es ids h t e' (Memᴰ.head q) =
    subst (λ x. x.kind ≡ k → has_id x.object_id ids ≡ true) (sym q) h
Named-cons k e es ids h t e' (Memᴰ.tail m) = t e' m

false≢true : false ≢ true
false≢true h = cc

module _ (o : Outside) where
  -- Everything below a directory was decoded to its local name, to a depth that reaches the
  -- leaves.
  abbrev pub Complete : ℕ → ℕ → Text → Log → Type 0
  Complete zero directory_id local log = ⊥
  Complete (suc n) directory_id local log =
      (e : DirEntry)
      → Memᴰ e (o.list_directory directory_id)
      → ByKind e.kind (Memᴰ (fetched_of directory_id local e) log)
          (Complete n e.object_id (below local e.name) log)

  -- One entry of a directory is done, by the depth below it.
  abbrev pub IsDone : ℕ → ℕ → Text → Log → DirEntry → Type 0
  IsDone n directory_id local log e =
      ByKind e.kind (Memᴰ (fetched_of directory_id local e) log)
        (Complete n e.object_id (below local e.name) log)

  -- The entries that a set names are done.
  abbrev pub SetHolds : ℕ → List ℕ → ℕ → Text → Log → Type 0
  SetHolds n ids directory_id local log =
      (e : DirEntry)
      → Memᴰ e (o.list_directory directory_id)
      → has_id e.object_id ids ≡ true
      → IsDone n directory_id local log e

  -- What a level claims of a directory is so.
  abbrev pub Truthful : ℕ → ResumeInfo → ℕ → Text → Log → Type 0
  Truthful zero level directory_id local log = ⊥
  Truthful (suc n) (last ids) directory_id local log = SetHolds n ids directory_id local log
  Truthful (suc n) (next ids id name level) directory_id local log =
      SetHolds n ids directory_id local log
      × ((e : DirEntry) × Memᴰ e (o.list_directory directory_id)
          × (e.object_id ≡ id)
          × (e.name ≡ name)
          × (e.kind ≡ dir)
          × (has_id id ids ≡ false)
          × Truthful n level id (below local name) log)

  -- No directory lies deeper than this.
  abbrev pub Shallow : ℕ → ℕ → Type 0
  Shallow zero directory_id = ⊥
  Shallow (suc n) directory_id =
      (e : DirEntry) → Memᴰ e (o.list_directory directory_id) → e.kind ≡ dir → Shallow n e.object_id

  -- The entries of a directory have IDs of their own.
  abbrev pub OwnIds : Type 0
  OwnIds =
      (directory_id : ℕ) (e e' : DirEntry)
      → Memᴰ e (o.list_directory directory_id)
      → Memᴰ e' (o.list_directory directory_id)
      → e.object_id ≡ e'.object_id
      → e ≡ e'

  -- The entries of a directory have names of their own, with no slash in them.
  abbrev pub OwnNames : Type 0
  OwnNames =
      (directory_id : ℕ) (e e' : DirEntry)
      → Memᴰ e (o.list_directory directory_id)
      → Memᴰ e' (o.list_directory directory_id)
      → SlashFree e.name × (e.name ≡ e'.name → e ≡ e')

  -- What is touched is not under the name.
  abbrev pub Clear : (Text → Type 0) → Text → Type 0
  Clear T local = (x : Text) → Under local x → T x → ⊥

  pub Complete-Keeps :
      (n directory_id : ℕ) (local : Text) (T : Text → Type 0) (f g : Log)
      → Keeps T f g
      → Clear T local
      → Complete n directory_id local f
      → Complete n directory_id local g
  Complete-Keeps zero directory_id local T f g h a c = c
  Complete-Keeps (suc n) directory_id local T f g h a c = λ e m.
      ByKind-map e.kind
        (h (fetched_of directory_id local e) (a (below local e.name) (inr (e.name, refl))))
        (Complete-Keeps n e.object_id (below local e.name) T f g h
          (λ x u. a x (Under-up local e.name x u)))
        (c e m)

  -- Nothing is touched under the names of a set's entries.
  abbrev pub ClearOf : (Text → Type 0) → List ℕ → ℕ → Text → Type 0
  ClearOf T ids directory_id local =
      (e : DirEntry)
      → Memᴰ e (o.list_directory directory_id)
      → has_id e.object_id ids ≡ true
      → Clear T (below local e.name)

  pub SetHolds-Keeps :
      (n : ℕ) (ids : List ℕ) (directory_id : ℕ) (local : Text) (T : Text → Type 0) (f g : Log)
      → Keeps T f g
      → ClearOf T ids directory_id local
      → SetHolds n ids directory_id local f
      → SetHolds n ids directory_id local g
  SetHolds-Keeps n ids directory_id local T f g h a c = λ e m i.
      ByKind-map e.kind
        (h (fetched_of directory_id local e) (a e m i (below local e.name) (inl refl)))
        (Complete-Keeps n e.object_id (below local e.name) T f g h (a e m i)) (c e m i)

  -- An entry that a set does not name lies apart from those that it names, and from the directory.
  pub others-ClearOf :
      (ids : List ℕ) (directory_id : ℕ) (local : Text) (e : DirEntry)
      → OwnNames
      → Memᴰ e (o.list_directory directory_id)
      → has_id e.object_id ids ≡ false
      → ClearOf (Under (below local e.name)) ids directory_id local
  others-ClearOf ids directory_id local e own m absent e' m' i x u' u =
      let named =
        same_name local e.name e'.name x (own directory_id e e' m m').0
          (own directory_id e' e m' m).0 u u' in
      let same : e ≡ e' = (own directory_id e e' m m').1 named in
      absurd (false≢true (sym absent ∙ ap (λ y. has_id y.object_id ids) same ∙ i))

  pub itself-ClearOf :
      (ids : List ℕ) (directory_id : ℕ) (local : Text)
      → ClearOf (λ x. x ≡ local) ids directory_id local
  itself-ClearOf ids directory_id local e m i x u q =
      own_apart local e.name (subst (Under (below local e.name)) q u)

  -- An entry that is done goes into the set.
  pub SetHolds-insert :
      (n : ℕ) (ids : List ℕ) (directory_id : ℕ) (local : Text) (log : Log) (e : DirEntry)
      → OwnIds
      → Memᴰ e (o.list_directory directory_id)
      → IsDone n directory_id local log e
      → SetHolds n ids directory_id local log
      → SetHolds n (insert_id e.object_id ids) directory_id local log
  SetHolds-insert n ids directory_id local log e own m done s = λ e' m' i.
      elim (has_id-cases e.object_id e'.object_id ids i) [
        | inl q ↦ subst (IsDone n directory_id local log) (own directory_id e e' m m' q) done
        | inr q ↦ s e' m' q
      ]

  -- Where the set names every entry, the directory is complete.
  pub all-Complete :
      (n : ℕ) (ids : List ℕ) (directory_id : ℕ) (local : Text) (log : Log)
      → SetHolds n ids directory_id local log
      → ((e : DirEntry) → Memᴰ e (o.list_directory directory_id) → has_id e.object_id ids ≡ true)
      → Complete (suc n) directory_id local log
  all-Complete n ids directory_id local log s all = λ e m. s e m (all e m)
