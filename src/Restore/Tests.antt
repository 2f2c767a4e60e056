-- ===== src/Restore/Tests.antt =====
-- Restores at concrete inputs.
use mathlib.Core.List.{Memᴰ}
use mathlib.Core.Path.{subst}
use boxi.Prelude.{
  inr, none, ℕ, zero, suc, ◌≡◌, refl, ap, sym, ◌∙◌, true, false, some, List, [], ◌∷◌, arith, lit,
  drop, length, any, ◌==◌, text_eq,
}
use boxi.Restore.Resume.{ResumeInfo, last, next, has_id, load, loaded, save_level, save_over}
use boxi.Restore.ResumeFile.{Fits, load-save_over}
use boxi.Restore.Dir.{file, dir, DirEntry, exists_dir, Outside, World}
use boxi.Restore.Completes.{Calm}
use boxi.Prelude.Text.{Text}
use boxi.Restore.Truth.{Complete, Truthful, Shallow, OwnIds, OwnNames, IsDone, fetched_of}
use boxi.Restore.Ensures.{Ensures}
use boxi.Restore.Driver.{restore_complete, Request, restore}
use boxi.Restore.Finishes.{restore_completes}
use boxi.Restore.Outcome.{Outcome, root_of, LeftBehind}

abbrev photo : DirEntry
photo = record { object_id = 5; name = lit "photo"; kind = file; has_attributes = false }

abbrev letters : DirEntry
letters = record { object_id = 2; name = lit "letters"; kind = dir; has_attributes = true }

abbrev letter : DirEntry
letter = record { object_id = 9; name = lit "one"; kind = file; has_attributes = true }

-- Directory 1 has a file and directory 2, which has a file.
abbrev listing : ℕ → List DirEntry
listing zero = []
listing (suc zero) = photo ∷ letters ∷ []
listing (suc (suc zero)) = letter ∷ []
listing (suc (suc (suc id))) = []

abbrev server : Outside
server = record {
  list_directory = listing;
  succeeds = λ n. true;
  object_exists = λ n. exists_dir;
  file_size = λ n. some 200000;
}

abbrev request : Request
request = record {
  directory_id = 1;
  local = lit "home";
  has_callback = true;
  restore_deleted = false;
  undelete_after = false;
  may_resume = true;
}

-- What a run left that stopped before the letter was fetched.
abbrev stopped : ResumeInfo
stopped = next (5 ∷ []) 2 (lit "letters") (last [])

abbrev left : World
left = record {
  calls = 0;
  resume_file = some (save_over [] stopped);
  fetched = fetched_of 1 (lit "home") photo ∷ [];
  reported = 1;
}

stopped-Fits : Fits stopped
stopped-Fits = (
  (omega arith, (omega arith, tt), (tt, tt)),
  omega arith,
  omega arith,
  omega arith,
  (omega arith, tt, tt),
)

load-save_over_example :
    load (
      save_over
        (lit "an older and longer file, with bytes to spare beyond what is written now")
        stopped)
    ≡ loaded stopped (
        drop
          (length (save_level stopped))
          (lit "an older and longer file, with bytes to spare beyond what is written now"))
load-save_over_example =
    load-save_over stopped
      (lit "an older and longer file, with bytes to spare beyond what is written now") stopped-Fits

other : true ≡ false → ⊥
other h = cc

kinds : dir ≡ file → ⊥
kinds h = cc

apart : (n : ℕ) → n ≡ 5 → n ≡ 2 → ⊥
apart n h k = omega arith

server-OwnIds : OwnIds server
server-OwnIds zero e e' m m' h = elim m [ ]
server-OwnIds (suc zero) e e' (Memᴰ.head p) (Memᴰ.head q) h = p ∙ sym q
server-OwnIds (suc zero) e e' (Memᴰ.head p) (Memᴰ.tail (Memᴰ.head q)) h =
    absurd (apart e.object_id (ap (λ x. x.object_id) p) (h ∙ ap (λ x. x.object_id) q))
server-OwnIds (suc zero) e e' (Memᴰ.tail (Memᴰ.head p)) (Memᴰ.head q) h =
    absurd (apart e'.object_id (ap (λ x. x.object_id) q) (sym h ∙ ap (λ x. x.object_id) p))
server-OwnIds (suc zero) e e' (Memᴰ.tail (Memᴰ.head p)) (Memᴰ.tail (Memᴰ.head q)) h = p ∙ sym q
server-OwnIds (suc (suc zero)) e e' (Memᴰ.head p) (Memᴰ.head q) h = p ∙ sym q
server-OwnIds (suc zero) e e' (Memᴰ.head p) (Memᴰ.tail (Memᴰ.tail x)) h = elim x [ ]
server-OwnIds (suc zero) e e' (Memᴰ.tail (Memᴰ.head p)) (Memᴰ.tail (Memᴰ.tail x)) h = elim x [ ]
server-OwnIds (suc zero) e e' (Memᴰ.tail (Memᴰ.tail x)) m' h = elim x [ ]
server-OwnIds (suc (suc zero)) e e' (Memᴰ.head p) (Memᴰ.tail x) h = elim x [ ]
server-OwnIds (suc (suc zero)) e e' (Memᴰ.tail x) m' h = elim x [ ]
server-OwnIds (suc (suc (suc id))) e e' m m' h = elim m [ ]

other_name : (n : Text) → n ≡ lit "photo" → n ≡ lit "letters" → ⊥
unfolding text_eq
other_name n h k = absurd (other (ap (λ t. text_eq t (lit "photo")) (sym h ∙ k)))

server-OwnNames : OwnNames server
server-OwnNames zero e e' m m' = elim m [ ]
server-OwnNames (suc zero) e e' (Memᴰ.head p) (Memᴰ.head q) =
    (ap (λ x. any (λ c. c == b'/') x.name) p, λ h. p ∙ sym q)
server-OwnNames (suc zero) e e' (Memᴰ.head p) (Memᴰ.tail (Memᴰ.head q)) = (
  ap (λ x. any (λ c. c == b'/') x.name) p,
  λ h. absurd (other_name e.name (ap (λ x. x.name) p) (h ∙ ap (λ x. x.name) q)),
)
server-OwnNames (suc zero) e e' (Memᴰ.tail (Memᴰ.head p)) (Memᴰ.head q) = (
  ap (λ x. any (λ c. c == b'/') x.name) p,
  λ h. absurd (other_name e'.name (ap (λ x. x.name) q) (sym h ∙ ap (λ x. x.name) p)),
)
server-OwnNames (suc zero) e e' (Memᴰ.tail (Memᴰ.head p)) (Memᴰ.tail (Memᴰ.head q)) =
    (ap (λ x. any (λ c. c == b'/') x.name) p, λ h. p ∙ sym q)
server-OwnNames (suc (suc zero)) e e' (Memᴰ.head p) (Memᴰ.head q) =
    (ap (λ x. any (λ c. c == b'/') x.name) p, λ h. p ∙ sym q)
server-OwnNames (suc zero) e e' (Memᴰ.head p) (Memᴰ.tail (Memᴰ.tail x)) = elim x [ ]
server-OwnNames (suc zero) e e' (Memᴰ.tail (Memᴰ.head p)) (Memᴰ.tail (Memᴰ.tail x)) = elim x [ ]
server-OwnNames (suc zero) e e' (Memᴰ.tail (Memᴰ.tail x)) m' = elim x [ ]
server-OwnNames (suc (suc zero)) e e' (Memᴰ.head p) (Memᴰ.tail x) = elim x [ ]
server-OwnNames (suc (suc zero)) e e' (Memᴰ.tail x) m' = elim x [ ]
server-OwnNames (suc (suc (suc id))) e e' m m' = elim m [ ]

server-Shallow : Shallow server 2 1
server-Shallow e (Memᴰ.head p) k = absurd (kinds (sym k ∙ ap (λ x. x.kind) p))
server-Shallow e (Memᴰ.tail (Memᴰ.tail x)) k = elim x [ ]
server-Shallow e (Memᴰ.tail (Memᴰ.head p)) k =
    subst (λ x. Shallow server 1 x.object_id) (sym p) leaf
  where
    leaf : Shallow server 1 2
    leaf e' (Memᴰ.head q) k' = absurd (kinds (sym k' ∙ ap (λ x. x.kind) q))
    leaf e' (Memᴰ.tail x) k' = elim x [ ]

stopped-Truthful : Truthful server 2 stopped 1 (lit "home") left.fetched
unfolding has_id
stopped-Truthful =
    (only_photo, (letters, Memᴰ.tail (Memᴰ.head refl), refl, refl, refl, refl, λ e m i. cc))
  where
    only_photo :
        (e : DirEntry)
        → Memᴰ e (photo ∷ letters ∷ [])
        → has_id e.object_id (5 ∷ []) ≡ true
        → IsDone server 1 1 (lit "home") left.fetched e
    only_photo e (Memᴰ.head p) i =
        subst (IsDone server 1 1 (lit "home") left.fetched) (sym p) (Memᴰ.head refl)
    only_photo e (Memᴰ.tail (Memᴰ.head p)) i =
        absurd (other (sym i ∙ ap (λ x. has_id x.object_id (5 ∷ [])) p))
    only_photo e (Memᴰ.tail (Memᴰ.tail m)) i = elim m [ ]

left-LeftBehind : LeftBehind server (root_of 2 request) left
left-LeftBehind bs e = (stopped, [], inner, stopped-Truthful, stopped-Fits)
  where
    inner : bs ≡ save_over [] stopped
    inner = cc

server-Calm : Calm server
server-Calm = record { succeeds = λ n. refl; known = λ n h. cc; no_zero = no_zero }
  where
    no_zero :
        (directory_id : ℕ) (e : DirEntry)
        → Memᴰ e (listing directory_id)
        → e.kind ≡ dir
        → (e.object_id == 0) ≡ false
    no_zero zero e m k = elim m [ ]
    no_zero (suc zero) e (Memᴰ.head p) k = ap (λ x. x.object_id == 0) p
    no_zero (suc zero) e (Memᴰ.tail (Memᴰ.head p)) k = ap (λ x. x.object_id == 0) p
    no_zero (suc zero) e (Memᴰ.tail (Memᴰ.tail x)) k = elim x [ ]
    no_zero (suc (suc zero)) e (Memᴰ.head p) k = ap (λ x. x.object_id == 0) p
    no_zero (suc (suc zero)) e (Memᴰ.tail x) k = elim x [ ]
    no_zero (suc (suc (suc id))) e m k = elim m [ ]

restore_completes_example :
    Ensures
      (λ result w'.
        (result ≡ restore_complete)
        × (w'.resume_file ≡ none)
        × Complete server 2 1 (lit "home") w'.fetched)
      (λ _. ⊥)
      (restore server 2 request left)
restore_completes_example =
    restore_completes server 2 request left server-Calm server-OwnIds server-OwnNames server-Shallow
      left-LeftBehind (inr (refl, refl, (save_over [] stopped, refl)))
