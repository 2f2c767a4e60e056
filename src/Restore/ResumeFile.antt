-- ===== src/Restore/ResumeFile.antt =====
-- What `Save` writes, `Load` reads.
use native.Mathlib.Nat.{pow-suc}
use mathlib.Core.List.{append_assoc, append-nil}
use boxi.Prelude.{
  ℕ, zero, suc, ◌-◌, ◌/◌, ◌^◌, ◌<◌, ◌≤◌, ◌≡◌, refl, sym, ap, ◌∙◌, true, false, List, [], ◌∷◌, ◌++◌,
  ◌==◌, leb, length, drop, All, arith, length-append, take-length-append, drop-length-append,
}
use boxi.Prelude.Text.{Text}
use boxi.Restore.Resume.{
  Bytes, ResumeInfo, last, next, signed_lt, insert_id, to_bytes, of_bytes, write_ids, write_set,
  save_level, save_over, Loaded, loaded, overrun, read, then_load, read_number, read_ids, rounds,
  path_max, read_name, load_level, load,
}

of_bytes-to_bytes : (k n : ℕ) → n < 256 ^ k → of_bytes (to_bytes k n) ≡ n
unfolding of_bytes to_bytes
of_bytes-to_bytes zero n h = omega arith
of_bytes-to_bytes (suc k) n h =
    let p : n / 256 < 256 ^ k = omega (arith, pow-suc 256 k) in
    omega (arith, of_bytes-to_bytes k (n / 256) p)

length-to_bytes : (k n : ℕ) → length (to_bytes k n) ≡ k
unfolding to_bytes
length-to_bytes zero n = refl
length-to_bytes (suc k) n = ap suc (length-to_bytes k (n / 256))

read-append : (b rest : Bytes) → read (length b) (b ++ rest) ≡ loaded b rest
unfolding read
read-append b rest =
    ground (arith, length-append b rest, take-length-append b rest, drop-length-append b rest)

read_number-append :
    (k n : ℕ) (rest : Bytes) → n < 256 ^ k → read_number k (to_bytes k n ++ rest) ≡ loaded n rest
unfolding read_number
read_number-append k n rest h =
    let r : read k (to_bytes k n ++ rest) ≡ loaded (to_bytes k n) rest =
      ap (λ j. read j (to_bytes k n ++ rest)) (sym (length-to_bytes k n))
      ∙ read-append (to_bytes k n) rest in
    rw (r, of_bytes-to_bytes k n h)

-- Every member is below those behind it.
abbrev pub Ascending : List ℕ → Type 0
Ascending [] = Unit
Ascending (x ∷ xs) = All (λ y. signed_lt x y ≡ true) xs × Ascending xs

-- Every member of the first list is below every member of the second.
abbrev AllBelow : List ℕ → List ℕ → Type 0
AllBelow xs ys = All (λ y. All (λ x. signed_lt x y ≡ true) xs) ys

insert_last :
    (id : ℕ) (xs : List ℕ) → All (λ x. signed_lt x id ≡ true) xs → insert_id id xs ≡ xs ++ (id ∷ [])
unfolding insert_id
insert_last id [] h = refl
insert_last id (x ∷ xs) h = ground (arith, insert_last id xs h.1)

All-append {ℓ κ} :
    {A : Type ℓ} (P : A → Type κ) (xs ys : List A) → All P xs → All P ys → All P (xs ++ ys)
All-append P [] ys h k = k
All-append P (x ∷ xs) ys h k = (h.0, All-append P xs ys h.1 k)

AllBelow-step :
    (x : ℕ) (xs ys : List ℕ)
    → AllBelow xs ys
    → All (λ y. signed_lt x y ≡ true) ys
    → AllBelow (xs ++ (x ∷ [])) ys
AllBelow-step x xs [] h k = tt
AllBelow-step x xs (y ∷ ys) h k = (
  All-append (λ z. signed_lt z y ≡ true) xs (x ∷ []) h.0 (k.0, tt),
  AllBelow-step x xs ys h.1 k.1,
)

read_ids-write_ids :
    (ids set : List ℕ) (rest : Bytes)
    → All (λ i. i < 2 ^ 64) ids
    → Ascending ids
    → AllBelow set ids
    → read_ids (length ids) set (write_ids ids ++ rest) ≡ loaded (set ++ ids) rest
unfolding read_ids write_ids
read_ids-write_ids [] set rest r a b = ap (λ s. loaded s rest) (sym (append-nil set))
read_ids-write_ids (id ∷ ids) set rest r a b =
    rw
      (
        append_assoc (to_bytes 8 id) (write_ids ids) rest,
        read_number-append 8 id (write_ids ids ++ rest) r.0,
        insert_last id set b.0,
      )
      (read_ids-write_ids ids (set ++ (id ∷ [])) rest r.1 a.1 (AllBelow-step id set ids b.1 a.0)
        ∙ ap (λ s. loaded s rest) (append_assoc set (id ∷ []) ids))

-- What fits the file's fields: fewer than 2^63 members, each of 64 bits and in the order of the
-- set; the ID of a next level is not 0, which marks that there is none, and its name fits the
-- buffer that it is read into.
abbrev FitsSet : List ℕ → Type 0
FitsSet ids = (length ids < 2 ^ 63) × All (λ i. i < 2 ^ 64) ids × Ascending ids

abbrev pub Fits : ResumeInfo → Type 0
Fits (last ids) = FitsSet ids
Fits (next ids id name level) =
    FitsSet ids × (0 < id) × (id < 2 ^ 64) × (length name ≤ path_max) × Fits level

abbrev levels : ResumeInfo → ℕ
levels (last ids) = 1
levels (next ids id name level) = suc (levels level)

-- The set and what is read behind it.
set_then :
    {A : Type 0} (ids : List ℕ) (rest : Bytes) (k : List ℕ → Bytes → Loaded A)
    → FitsSet ids
    → then_load
        (read_number 8 (write_set ids ++ rest))
        (λ n behind. then_load (read_ids (rounds n) [] behind) k)
      ≡ k ids rest
unfolding write_set
set_then ids rest k (few, r, a) =
    rw
      (
        append_assoc (to_bytes 8 (length ids)) (write_ids ids) rest,
        read_number-append 8 (length ids) (write_ids ids ++ rest) (omega arith),
      )
      (let n : rounds (length ids) ≡ length ids = ground arith in
        rw (n, read_ids-write_ids ids [] rest r a (none_below ids)) refl)
  where
    none_below : (ys : List ℕ) → AllBelow [] ys
    none_below [] = tt
    none_below (y ∷ ys) = (tt, none_below ys)

read_name-append :
    (name : Text) (rest : Bytes)
    → length name ≤ path_max
    → read_name (to_bytes 4 (length name) ++ (name ++ rest)) ≡ loaded name rest
unfolding read_name
read_name-append name rest h =
    rw (read_number-append 4 (length name) (name ++ rest) (omega arith))
      (ground (arith, read-append name rest))

behind_next :
    (ids : List ℕ) (id : ℕ) (name : Text) (level rest : Bytes)
    → (write_set ids ++ (to_bytes 8 id ++ (to_bytes 4 (length name) ++ (name ++ level)))) ++ rest
      ≡ write_set ids ++ (to_bytes 8 id ++ (to_bytes 4 (length name) ++ (name ++ (level ++ rest))))
behind_next ids id name level rest = simp append_assoc

load_level-save_level :
    (f : ℕ) (info : ResumeInfo) (rest : Bytes)
    → levels info ≤ f
    → Fits info
    → load_level f (save_level info ++ rest) ≡ loaded info rest
unfolding load_level save_level
load_level-save_level zero (last ids) rest h v = absurd (omega arith)
load_level-save_level zero (next ids id name level) rest h v = absurd (omega arith)
load_level-save_level (suc f) (last ids) rest h v =
    rw (append_assoc (write_set ids) (to_bytes 8 0) rest)
      (set_then ids _ _ v ∙ rw (read_number-append 8 0 rest (omega arith)) refl)
load_level-save_level (suc f) (next ids id name level) rest h (v, pos_id, id_fits, name_fits, w) =
    let more = name ++ (save_level level ++ rest) in
    let nonzero : (id == 0) ≡ false = ground arith in
    rw (behind_next ids id name (save_level level) rest) (
      set_then ids _ _ v
      ∙ rw
          (
            read_number-append 8 id (to_bytes 4 (length name) ++ more) (omega arith),
            nonzero,
            read_name-append name (save_level level ++ rest) name_fits,
            load_level-save_level f level rest (omega arith) w,
          )
          refl)

levels-le-length : (info : ResumeInfo) → levels info ≤ length (save_level info)
unfolding save_level
levels-le-length (last ids) =
    omega (arith, length-append (write_set ids) (to_bytes 8 0), length-to_bytes 8 0)
levels-le-length (next ids id name level) =
    let tail = to_bytes 4 (length name) ++ (name ++ save_level level) in
    omega (
      arith,
      length-append (write_set ids) (to_bytes 8 id ++ tail),
      length-append (to_bytes 8 id) tail,
      length-to_bytes 8 id,
      length-append (to_bytes 4 (length name)) (name ++ save_level level),
      length-append name (save_level level),
      levels-le-length level,
    )

-- A restore whose levels fit the fields of the file is read back from it as it was, also where the
-- file held something longer before, of which `Save` leaves the end in place.
pub load-save_over :
    (info : ResumeInfo) (old : Bytes)
    → Fits info
    → load (save_over old info) ≡ loaded info (drop (length (save_level info)) old)
unfolding load save_over
load-save_over info old h =
    let stale = drop (length (save_level info)) old in
    load_level-save_level (length (save_level info ++ stale)) info stale
      (omega (arith, length-append (save_level info) stale, levels-le-length info)) h

overruns_at :
    (f id size : ℕ) (rest : Bytes)
    → 0 < id
    → id < 2 ^ 64
    → 2 ^ 31 ≤ size
    → size < 2 ^ 32
    → load_level (suc f) (write_set [] ++ (to_bytes 8 id ++ (to_bytes 4 size ++ rest))) ≡ overrun
unfolding load_level read_name
overruns_at f id size rest pos_id id_fits negative fits =
    let nonzero : (id == 0) ≡ false = ground arith in
    let big : leb (2 ^ 31) size ≡ true = ground arith in
    set_then [] _ _ (omega arith, tt, tt)
    ∙ rw
        (
          read_number-append 8 id (to_bytes 4 size ++ rest) (omega arith),
          nonzero,
          read_number-append 4 size rest (omega arith),
          big,
        )
        refl

-- A file whose next level has a name size with the sign bit set passes the test against PATH_MAX
-- and goes into the read of a negative length.
load_overruns :
    (id size : ℕ) (rest : Bytes)
    → 0 < id
    → id < 2 ^ 64
    → 2 ^ 31 ≤ size
    → size < 2 ^ 32
    → load (write_set [] ++ (to_bytes 8 id ++ (to_bytes 4 size ++ rest))) ≡ overrun
unfolding load
load_overruns id size rest pos_id id_fits negative fits =
    let tail = to_bytes 4 size ++ rest in
    let bytes = write_set [] ++ (to_bytes 8 id ++ tail) in
    let long : length bytes ≡ suc (length bytes - 1) = omega (
      arith,
      length-append (write_set []) (to_bytes 8 id ++ tail),
      length-append (to_bytes 8 id) tail,
      length-to_bytes 8 id,
    ) in
    ap (λ n. load_level n bytes) long
    ∙ overruns_at (length bytes - 1) id size rest pos_id id_fits negative fits
