-- ===== src/RestoreFiles/LocalName.antt =====
-- The local name that an entry is restored to is the destination followed by its path.
use mathlib.Core.List.{append_assoc, append-nil}
use boxi.Prelude.{
  ℕ, ◌+◌, ◌≡◌, ◌≢◌, refl, ap, sym, ◌∙◌, false, not, Option, none, some, [], ◌∷◌, ◌++◌,
  if◌then◌else◌, ◌==◌, find, text_eq, if_either, if_known, arith,
}
use boxi.Prelude.Text.{Text}
use boxi.RestoreFiles.Cache.{Version, Info, get_most_recent}
use boxi.RestoreFiles.Spec.{Entry, entry_path}
use boxi.RestoreFiles.Fetch.{Disc, Restoring, called}
use boxi.RestoreFiles.FetchedAs.{Same, Same-refl}
use boxi.RestoreFiles.LocalPath.{
  PathResult, a_path, no_path, path_threw, path_crashed, upwards, below_name, apply_attributes,
  enter_directory, make_directories, make_local_path,
}

-- Less one slash at the end.
abbrev pub chop : Text → Text
chop [] = []
chop (x ∷ []) = if x == b'/' then [] else x ∷ []
chop (x ∷ y ∷ ys) = x ∷ chop (y ∷ ys)

chop-append : (xs : Text) (y : ℕ) (ys : Text) → chop (xs ++ (y ∷ ys)) ≡ xs ++ chop (y ∷ ys)
chop-append [] y ys = refl
chop-append (x ∷ []) y ys = refl
chop-append (x ∷ x' ∷ xs) y ys = ap (x ∷◌) (chop-append (x' ∷ xs) y ys)

-- The component does not end in a slash.
abbrev Component : Text → Type 0
Component xs = chop xs ≡ xs

chop-below_name :
    (out component : Text)
    → Component component
    → below_name out component ≡ chop (out ++ (b'/' ∷ component))
chop-below_name out [] h = sym (append-nil out) ∙ sym (chop-append out b'/' [])
chop-below_name out (x ∷ xs) h =
    ap (λ zs. out ++ (b'/' ∷ zs)) (sym h) ∙ sym (chop-append out b'/' (x ∷ xs))

Component-append : (xs : Text) (c : ℕ) → (c == b'/') ≡ false → Component (xs ++ (c ∷ []))
Component-append xs c h = chop-append xs c [] ∙ rw h refl

-- Nothing was fetched, and a name that comes out is the one given.
pub record Names (r : Restoring) (name : Text) (o : Restoring × PathResult) : Type 0 where
  pub same : Same r o.0
  pub named : (t : Text) → o.1 ≡ a_path t → t ≡ name

a_path-injective : {s t : Text} → a_path s ≡ a_path t → s ≡ t
a_path-injective h = cc

Names-none :
    (r r' : Restoring) (name : Text) (p : PathResult)
    → Same r r'
    → ((t : Text) → p ≢ a_path t)
    → Names r name (r', p)
Names-none r r' name p h k = record { same = h; named = λ t e. absurd (k t e) }

module _ (d : Disc) (name : Text) where
  -- What stands behind a step names as the whole does.
  abbrev NamesAfter : Restoring → (Restoring → Restoring × PathResult) → Type 0
  NamesAfter r go = (r' : Restoring) → Same r r' → Names r name (go r')

  apply_attributes-Names :
      (node : Option Info) (go : Restoring → Restoring × PathResult) (r r' : Restoring)
      → Same r r'
      → NamesAfter r go
      → Names r name (apply_attributes d node go r')
  unfolding apply_attributes
  apply_attributes-Names none go r r' h k = Names-none r r' name path_crashed h (λ t e. cc)
  apply_attributes-Names (some i) go r r' h k = by_version (get_most_recent i)
    where
      once : Same r (called r')
      once = record { fetched = h.fetched; files = h.files; bytes = h.bytes }

      by_version :
          (o : Option Version)
          → Names r name (elim o [
            | none ↦ (r', no_path)
            | some v ↦
                if not v.has_attributes
                then go r'
                else if d.writes_attributes r'.calls
                then go (called r')
                else (called r', path_threw)
          ])
      by_version none = Names-none r r' name no_path h (λ t e. cc)
      by_version (some v) = if_either (Names r name) (not v.has_attributes) (k r' h) (
          if_either (Names r name) (d.writes_attributes r'.calls) (k (called r') once)
            (Names-none r (called r') name path_threw once (λ t e. cc)))

  enter_directory-Names :
      (e : Entry) (out current : Text) (go : Restoring → Restoring × PathResult) (r r' : Restoring)
      → Same r r'
      → NamesAfter r go
      → Names r name (enter_directory d e out current go r')
  unfolding enter_directory
  enter_directory-Names e out current go r r' h k =
      let node = find (λ i. text_eq i.full_path current) (upwards e) in
      let once : Same r (called r') = record {
        fetched = h.fetched;
        files = h.files;
        bytes = h.bytes;
      } in
      let twice : Same r (called (called r')) = record {
        fetched = h.fetched;
        files = h.files;
        bytes = h.bytes;
      } in
      if_either (Names r name) (d.is_there r'.calls out)
        (apply_attributes-Names node go r (called r') once k)
        (if_either (Names r name) (not (d.succeeds (r'.calls + 1)))
          (Names-none r (called (called r')) name no_path twice (λ t e. cc))
          (apply_attributes-Names node go r (called (called r')) twice k))

chop-at_slash :
    (out component : Text) (x : ℕ) (xs : Text) (c : ℕ) (cs : Text)
    → component ≡ x ∷ xs
    → c ≡ b'/'
    → chop (out ++ (b'/' ∷ (component ++ (c ∷ cs))))
      ≡ chop (below_name out component ++ (b'/' ∷ cs))
chop-at_slash out component x xs c cs p q =
    rw (p, q) (ap chop (sym (append_assoc out (b'/' ∷ x ∷ xs) (b'/' ∷ cs))))

make_directories-Names :
    (d : Disc) (e : Entry) (out current component text : Text) (r r' : Restoring)
    → Same r r'
    → Component component
    → Names r
        (chop (out ++ (b'/' ∷ (component ++ text))))
        (make_directories d e out current component text r')
unfolding make_directories
make_directories-Names d e out current component [] r r' h k = record {
  same = h;
  named = λ t p.
      let whole : chop (out ++ (b'/' ∷ (component ++ []))) ≡ below_name out component =
        ap (λ xs. chop (out ++ (b'/' ∷ xs))) (append-nil component)
        ∙ sym (chop-below_name out component k) in
      sym (whole ∙ a_path-injective p);
}
make_directories-Names d e out current component (c ∷ cs) r r' h k =
    let name = chop (out ++ (b'/' ∷ (component ++ (c ∷ cs)))) in
    if_known (Names r name) (not (c == b'/'))
      (λ q. rw (sym (append_assoc component (c ∷ []) cs)) (
        make_directories-Names d e out current (component ++ (c ∷ [])) cs r r' h
          (Component-append component c (ground arith))))
      (λ q. at_slash component _ (λ x xs p.
        rw (chop-at_slash out component x xs c cs p (ground arith)) (
          enter_directory-Names d _ e (below_name out component) (current ++ (b'/' ∷ component)) _ r
            r' h
            (λ r'' h'.
              make_directories-Names d e (below_name out component) (current ++ (b'/' ∷ component))
                [] cs r r'' h' refl))))
  where
    at_slash :
        (xs : Text) (into : Restoring × PathResult)
        → ((y : ℕ) (ys : Text)
            → xs ≡ y ∷ ys
            → Names r (chop (out ++ (b'/' ∷ (component ++ (c ∷ cs))))) into)
        → Names r
            (chop (out ++ (b'/' ∷ (component ++ (c ∷ cs)))))
            (elim xs [ [] ↦ (r', no_path) | _ ∷ _ ↦ into ])
    at_slash [] into k' = Names-none r r' _ no_path h (λ t e. cc)
    at_slash (x ∷ xs) into k' = k' x xs refl

-- The name that an entry is restored to is the destination followed by the entry's path, less a
-- slash at its end.
pub make_local_path-Names :
    (d : Disc) (base : Text) (e : Entry) (r : Restoring)
    → Names r (chop (base ++ entry_path e)) (make_local_path d base e r)
unfolding make_local_path
make_local_path-Names d base e r = by_path (entry_path e)
  where
    by_path :
        (path : Text)
        → Names r (chop (base ++ path)) (elim path [
          | [] ↦ (r, no_path)
          | c ∷ cs ↦ if c == b'/' then make_directories d e base [] [] cs r else (r, no_path)
        ])
    by_path [] = Names-none r r _ no_path (Same-refl r) (λ t p. cc)
    by_path (c ∷ cs) =
        if_known (Names r (chop (base ++ (c ∷ cs)))) (c == b'/')
          (λ q.
            let slash : c ≡ b'/' = ground arith in
            rw slash (make_directories-Names d e base [] [] cs r r (Same-refl r) refl))
          (λ q. Names-none r r _ no_path (Same-refl r) (λ t p. cc))
