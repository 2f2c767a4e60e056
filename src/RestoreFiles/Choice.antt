-- ===== src/RestoreFiles/Choice.antt =====
-- Which version of a file is chosen.
use mathlib.Core.List.{Memᴰ}
use mathlib.Core.Path.{subst}
use boxi.Prelude.{
  ℕ, ◌≤◌, ◌<◌, ◌≡◌, refl, ◌⊎◌, inl, inr, Bool, true, false, Option, none, some, List, [], ◌∷◌,
  if◌then◌else◌, ltb, sym, ◌∙◌, All, if_either, if_known, arith,
}
use boxi.RestoreFiles.Cache.{
  Version, Info, most_recent_of, get_most_recent, Epoch, version_before, get_version_to_restore,
}

-- A version is chosen whose measure is that at least.
abbrev pub Reaches : (Version → ℕ) → ℕ → Option Version → Type 0
Reaches m n none = ⊥
Reaches m n (some v) = n ≤ m v

-- The chosen version, if any, is one of the given ones that pass, or was there before.
abbrev pub ChosenFrom : (Version → Type 0) → Option Version → List Version → Option Version → Type 0
ChosenFrom P best vs o = (v : Version) → o ≡ some v → (best ≡ some v) ⊎ (Memᴰ v vs × P v)

lt_or_le : (a b : ℕ) → (a < b) ⊎ (b ≤ a)
lt_or_le a b = omega arith

some-injective : {a b : Version} → some a ≡ some b → a ≡ b
some-injective h = cc

ChosenFrom-later :
    (P : Version → Type 0) (best : Option Version) (v : Version) (vs : List Version)
    (o : Option Version) (here : Option Version)
    → (here ≡ best) ⊎ ((here ≡ some v) × P v)
    → ChosenFrom P here vs o
    → ChosenFrom P best (v ∷ vs) o
ChosenFrom-later P best v vs o here c h w e = elim (h w e) [
  | inr (m, p) ↦ inr (Memᴰ.tail m, p)
  | inl q ↦ elim c [
    | inl r ↦ inl (sym r ∙ q)
    | inr (r, p) ↦
        let same : v ≡ w = some-injective (sym r ∙ q) in inr (Memᴰ.head (sym same), subst P same p)
  ]
]

-- What a step of `GetMostRecent` and of `GetVersionToRestore` keeps.
abbrev newer : Version → Version → Version
newer b v = if ltb b.box_file_id v.box_file_id then v else b

abbrev later : ℕ → Version → Version → Version
later epoch b v = if ltb epoch v.date_time then b else if ltb v.date_time b.date_time then b else v

-- With `mRestoreToDateEnabled` it has to be of the date at most.
module _ (epoch : ℕ) where
  abbrev pub InTime : Version → Type 0
  InTime v = v.date_time ≤ epoch

  abbrev ReachesDate : ℕ → Option Version → Type 0
  ReachesDate = Reaches (λ v. v.date_time)

  version_before-grows :
      (n : ℕ) (b : Version) (vs : List Version)
      → n ≤ b.date_time
      → ReachesDate n (version_before epoch (some b) vs)
  unfolding version_before
  version_before-grows n b [] h = h
  version_before-grows n b (v ∷ vs) h = version_before-grows n (later epoch b v) vs (
      if_either (λ (w : Version). n ≤ w.date_time) (ltb epoch v.date_time) h
        (if_known (λ (w : Version). n ≤ w.date_time) (ltb v.date_time b.date_time) (λ _. h)
          (λ q. ground arith)))

  in_time : (v : Version) → InTime v → ltb epoch v.date_time ≡ false
  in_time v h = ground arith

  version_before-reaches :
      (vs : List Version) (best : Option Version)
      → All (λ w. InTime w → ReachesDate w.date_time (version_before epoch best vs)) vs
  unfolding version_before
  version_before-reaches [] best = tt
  version_before-reaches (v ∷ vs) none = (
    λ h. rw (in_time v h) (version_before-grows v.date_time v vs (omega arith)),
    version_before-reaches vs _,
  )
  version_before-reaches (v ∷ vs) (some b) = (
    λ h. version_before-grows v.date_time (later epoch b v) vs (ground arith),
    version_before-reaches vs _,
  )

  version_before-chosen :
      (vs : List Version) (best : Option Version)
      → ChosenFrom InTime best vs (version_before epoch best vs)
  unfolding version_before
  version_before-chosen [] best v e = inl e
  version_before-chosen (v ∷ vs) none w e =
      ChosenFrom-later InTime none v vs _ (if ltb epoch v.date_time then none else some v)
        (if_known (λ (o : Option Version). (o ≡ none) ⊎ ((o ≡ some v) × InTime v))
          (ltb epoch v.date_time) (λ q. inl refl) (λ q. inr (refl, ground arith)))
        (version_before-chosen vs _) w e
  version_before-chosen (v ∷ vs) (some b) w e =
      ChosenFrom-later InTime (some b) v vs _ (some (later epoch b v))
        (if_known (λ (w : Version). (some w ≡ some b) ⊎ ((some w ≡ some v) × InTime v))
          (ltb epoch v.date_time) (λ q. inl refl)
          (λ q.
            if_either (λ (w : Version). (some w ≡ some b) ⊎ ((some w ≡ some v) × InTime v))
              (ltb v.date_time b.date_time) (inl refl) (inr (refl, ground arith))))
        (version_before-chosen vs _) w e

-- Without, it is the one of the greatest identifier.
abbrev ReachesId : ℕ → Option Version → Type 0
ReachesId = Reaches (λ v. v.box_file_id)

most_recent_of-grows :
    (n : ℕ) (b : Version) (vs : List Version)
    → n ≤ b.box_file_id
    → ReachesId n (most_recent_of (some b) vs)
unfolding most_recent_of
most_recent_of-grows n b [] h = h
most_recent_of-grows n b (v ∷ vs) h = most_recent_of-grows n (newer b v) vs (
    if_known (λ (w : Version). n ≤ w.box_file_id) (ltb b.box_file_id v.box_file_id)
      (λ q. ground arith) (λ _. h))

most_recent_of-reaches :
    (best : Option Version) (vs : List Version)
    → All (λ w. ReachesId w.box_file_id (most_recent_of best vs)) vs
unfolding most_recent_of
most_recent_of-reaches best [] = tt
most_recent_of-reaches none (v ∷ vs) =
    (most_recent_of-grows v.box_file_id v vs (omega arith), most_recent_of-reaches (some v) vs)
most_recent_of-reaches (some b) (v ∷ vs) = (
  most_recent_of-grows v.box_file_id (newer b v) vs (ground arith),
  most_recent_of-reaches (some (newer b v)) vs,
)

most_recent_of-chosen :
    (best : Option Version) (vs : List Version)
    → ChosenFrom (λ v. Unit) best vs (most_recent_of best vs)
unfolding most_recent_of
most_recent_of-chosen best [] v e = inl e
most_recent_of-chosen none (v ∷ vs) w e =
    ChosenFrom-later (λ v. Unit) none v vs _ (some v) (inr (refl, tt))
      (most_recent_of-chosen (some v) vs) w e
most_recent_of-chosen (some b) (v ∷ vs) w e =
    ChosenFrom-later (λ v. Unit) (some b) v vs _ (some (newer b v))
      (if_either (λ (w : Version). (some w ≡ some b) ⊎ ((some w ≡ some v) × Unit))
        (ltb b.box_file_id v.box_file_id) (inr (refl, tt)) (inl refl))
      (most_recent_of-chosen (some (newer b v)) vs) w e

-- A version is too late where a date is asked for that is earlier.
abbrev pub TooLate : Epoch → Version → Type 0
TooLate t v = (t.enabled ≡ true) × (t.date < v.date_time)

-- What is to be greatest: the time, where a date is asked for, and otherwise the identifier.
abbrev pub measure : Epoch → Version → ℕ
measure t v = if t.enabled then v.date_time else v.box_file_id

-- None only where all are too late; or one of the versions, not too late, and greatest among those
-- that are not.
abbrev pub Chosen : Epoch → List Version → Option Version → Type 0
Chosen t vs none = All (TooLate t) vs
Chosen t vs (some v) =
    Memᴰ v vs × ¬ TooLate t v × All (λ w. TooLate t w ⊎ (measure t w ≤ measure t v)) vs

All-map :
    {P Q : Version → Type 0} (vs : List Version) → ((v : Version) → P v → Q v) → All P vs → All Q vs
All-map [] f h = tt
All-map (v ∷ vs) f (p, h) = (f v p, All-map vs f h)

Chosen-dated :
    (date : ℕ) (vs : List Version) (o : Option Version)
    → ChosenFrom (InTime date) none vs o
    → All (λ w. InTime date w → Reaches (λ v. v.date_time) w.date_time o) vs
    → Chosen (record { enabled = true; date = date }) vs o
Chosen-dated date vs none c h =
    All-map vs
      (λ v f. (refl, elim (lt_or_le date v.date_time) [ inl l ↦ l | inr l ↦ absurd (f l) ])) h
Chosen-dated date vs (some v) c h = elim (c v refl) [
  | inl q ↦ cc
  | inr (m, l) ↦ (
    m,
    λ late. omega (arith, l, late.1),
    All-map vs
        (λ w f. elim (lt_or_le date w.date_time) [ inl k ↦ inl (refl, k) | inr k ↦ inr (f k) ]) h,
  )
]

Chosen-newest :
    (date : ℕ) (vs : List Version) (o : Option Version)
    → ChosenFrom (λ v. Unit) none vs o
    → All (λ w. Reaches (λ v. v.box_file_id) w.box_file_id o) vs
    → Chosen (record { enabled = false; date = date }) vs o
Chosen-newest date vs none c h = All-map vs (λ v f. absurd f) h
Chosen-newest date vs (some v) c h = elim (c v refl) [
  | inl q ↦ cc
  | inr (m, u) ↦ (m, λ late. cc, All-map vs (λ w f. inr f) h)
]

-- `GetVersionToRestore` gives, where a date is asked for, the latest version up to that date, and
-- none only where every version is later; and otherwise the version of the greatest identifier,
-- and none only where there is no version.
pub get_version_to_restore_lem :
    (t : Epoch) (i : Info) → Chosen t i.versions (get_version_to_restore t i)
unfolding get_version_to_restore get_most_recent
get_version_to_restore_lem t i = by_enabled t.enabled
  where
    by_enabled :
        (b : Bool)
        → Chosen
            (record { enabled = b; date = t.date })
            i.versions
            (if b then version_before t.date none i.versions else most_recent_of none i.versions)
    by_enabled true =
        Chosen-dated t.date i.versions _ (version_before-chosen t.date i.versions none)
          (version_before-reaches t.date i.versions none)
    by_enabled false =
        Chosen-newest t.date i.versions _ (most_recent_of-chosen none i.versions)
          (most_recent_of-reaches none i.versions)
