-- ===== src/Restore/Resume.antt =====
-- `RestoreResumeInfo` of src/Restore.cc: what an interrupted restore has done, level by level, and
-- the file that it is saved to. An `int64_t` is its bit pattern, below 2^64, and is written in the
-- byte order of the machine, least significant byte first.
use boxi.Prelude.{
  ℕ, zero, suc, ◌+◌, ◌*◌, ◌/◌, ◌%◌, ◌^◌, Bool, List, [], ◌∷◌, ◌++◌, if◌then◌else◌, ◌==◌, ltb, leb,
  length, take, drop, any,
}
use boxi.Prelude.Text.{Text}

abbrev pub Bytes : Type 0
Bytes = List ℕ

-- `mRestoredObjects`, a `std::set<int64_t>`, as its members in ascending signed order, and the
-- next level's ID, name and content where there is one.
pub data ResumeInfo : Type 0 where
  last : List ℕ → ResumeInfo
  next : List ℕ → ℕ → Text → ResumeInfo → ResumeInfo

-- `a < b` of two `int64_t`.
abbrev pub signed_lt : ℕ → ℕ → Bool
signed_lt a b = ltb ((a + 2 ^ 63) % 2 ^ 64) ((b + 2 ^ 63) % 2 ^ 64)

-- `mRestoredObjects.insert(id)`.
unfoldable pub insert_id : ℕ → List ℕ → List ℕ
insert_id id [] = id ∷ []
insert_id id (x ∷ xs) =
    let rest = insert_id id xs in
    if id == x then x ∷ xs else if signed_lt id x then id ∷ x ∷ xs else x ∷ rest

-- `mRestoredObjects.find(id) != end()`.
unfoldable pub has_id : ℕ → List ℕ → Bool
has_id id xs = any (λ x. x == id) xs

-- The bytes of a number in memory.
unfoldable pub to_bytes : ℕ → ℕ → Bytes
to_bytes zero n = []
to_bytes (suc k) n = n % 256 ∷ to_bytes k (n / 256)

unfoldable pub of_bytes : Bytes → ℕ
of_bytes [] = 0
of_bytes (b ∷ bs) = b + 256 * of_bytes bs

unfoldable pub write_ids : List ℕ → Bytes
write_ids [] = []
write_ids (id ∷ ids) = to_bytes 8 id ++ write_ids ids

-- The members, behind their number.
unfoldable pub write_set : List ℕ → Bytes
write_set ids = to_bytes 8 (length ids) ++ write_ids ids

-- `SaveLevel`.
unfoldable pub save_level : ResumeInfo → Bytes
save_level (last ids) = write_set ids ++ to_bytes 8 0
save_level (next ids id name level) =
    write_set ids ++ (to_bytes 8 id ++ (to_bytes 4 (length name) ++ (name ++ save_level level)))

-- `Save`: the file is opened without truncation, so what stood behind stays.
unfoldable pub save_over : Bytes → ResumeInfo → Bytes
save_over old info = let new = save_level info in new ++ drop (length new) old

-- What `LoadLevel` makes of a stream: a level and the rest, `return false`, or a read of a negative
-- length into the buffer on the stack, which the code does not test for.
pub data Loaded (A : Type 0) : Type 0 where
  loaded : A → Bytes → Loaded A
  refused : Loaded A
  overrun : Loaded A

-- `CHECKED_READ(x, s)`.
unfoldable pub read : ℕ → Bytes → Loaded Bytes
read n bs = if leb n (length bs) then loaded (take n bs) (drop n bs) else refused

abbrev pub then_load : {A B : Type 0} → Loaded A → (A → Bytes → Loaded B) → Loaded B
then_load (loaded a bs) f = f a bs
then_load refused f = refused
then_load overrun f = overrun

unfoldable pub read_number : ℕ → Bytes → Loaded ℕ
read_number k bs = then_load (read k bs) (λ b rest. loaded (of_bytes b) rest)

-- The loop over the objects.
unfoldable pub read_ids : ℕ → List ℕ → Bytes → Loaded (List ℕ)
read_ids zero set bs = loaded set bs
read_ids (suc n) set bs =
    then_load (read_number 8 bs) (λ id rest. read_ids n (insert_id id set) rest)

-- `o < numObjects`: a negative number gives no round.
abbrev pub rounds : ℕ → ℕ
rounds n = if ltb n (2 ^ 63) then n else 0

abbrev pub path_max : ℕ
path_max = 4096

-- The name of the next level, behind its size, an `int32_t`.
unfoldable pub read_name : Bytes → Loaded Text
read_name bs = then_load (read_number 4 bs) (λ size rest.
    if leb (2 ^ 31) size then overrun else if ltb path_max size then refused else read size rest)

-- `LoadLevel`, with fuel for the number of levels.
unfoldable pub load_level : ℕ → Bytes → Loaded ResumeInfo
load_level zero bs = refused
load_level (suc f) bs = then_load (read_number 8 bs) (λ n rest.
    then_load (read_ids (rounds n) [] rest) (λ ids rest'.
      then_load (read_number 8 rest') (λ id rest''.
        let level = then_load (read_name rest'') (λ name behind.
          then_load (load_level f behind) (λ level end. loaded (next ids id name level) end)) in
        if id == 0 then loaded (last ids) rest'' else level)))

-- `Load`: every level takes sixteen bytes at least, so the length of the file is fuel enough.
unfoldable pub load : Bytes → Loaded ResumeInfo
load bs = load_level (length bs) bs
