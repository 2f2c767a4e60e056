-- ===== src/RestoreFiles/Counted.antt =====
-- Counting, where no stop is requested, counts what is selected.
use boxi.Prelude.{
  ℕ, ◌+◌, ◌≡◌, refl, sym, ◌∙◌, ◌==◌, ◌&&◌, not, Bool, true, false, Option, none, some, List, [],
  ◌∷◌, ◌++◌, if◌then◌else◌, length, length-append, if_both, if_either, arith,
}
use boxi.Prelude.Text.{Text}
use boxi.RestoreFiles.Cache.{
  Version, Info, Node, Nodes, listed, unlisted, no_nodes, a_node, info, get_version_to_restore,
}
use boxi.RestoreFiles.Spec.{Entry, address, remove_spec_entry}
use boxi.RestoreFiles.Count.{
  Counting, polled, check_entries, notify_more_files_counted, Job, count_version, count_at,
  count_files_recursive, count_children,
}
use boxi.RestoreFiles.Fetch.{child_name}
use boxi.RestoreFiles.Kept.{Fewer, Fewer-refl, Fewer-trans, remove_spec_entry-Fewer}
use boxi.RestoreFiles.Selected.{
  Planned, bytes_of, bytes_of-append, excludes, plan_version, plan_at, plan, plan_all,
  remove-excludes,
}

-- The specification excludes what it excluded before.
abbrev pub Excludes : (ℕ → Bool) → Counting → Type 0
Excludes ex c = (a : ℕ) → excludes c.entries a ≡ ex a

-- The loop over the entries tells of the exclusion, and removes nothing that excludes.
module _ (root current : ℕ) where
  abbrev without : Entry → Counting → Counting
  without e c = record c { entries = remove_spec_entry e c.entries }

  check_entries-flag :
      (es : List Entry) (c : Counting) → (check_entries root current es c).1 ≡ excludes es current
  unfolding check_entries
  check_entries-flag [] c = refl
  check_entries-flag (e ∷ es) c =
      ground (arith, check_entries-flag es c, check_entries-flag es (without e c))

  check_entries-files :
      (es : List Entry) (c : Counting)
      → ((check_entries root current es c).0.files ≡ c.files)
        × ((check_entries root current es c).0.bytes ≡ c.bytes)
  unfolding check_entries
  check_entries-files [] c = (refl, refl)
  check_entries-files (e ∷ es) c =
      ground (arith, check_entries-files es c, check_entries-files es (without e c))

  check_entries-excludes :
      (es : List Entry) (c : Counting) (a : ℕ)
      → excludes (check_entries root current es c).0.entries a ≡ excludes c.entries a
  unfolding check_entries
  check_entries-excludes [] c a = refl
  check_entries-excludes (e ∷ es) c a = ground (
    arith,
    check_entries-excludes es c a,
    check_entries-excludes es (without e c) a,
    remove-excludes e c.entries a,
  )

  check_entries-Fewer :
      (es : List Entry) (c : Counting) → Fewer (check_entries root current es c).0.entries c.entries
  unfolding check_entries
  check_entries-Fewer [] c = Fewer-refl c.entries
  check_entries-Fewer (e ∷ es) c =
      let P = λ (o : Counting × Bool). Fewer o.0.entries c.entries in
      let rest = check_entries-Fewer es c in
      let removed =
        Fewer-trans (check_entries-Fewer es (without e c)) (remove_spec_entry-Fewer e c.entries) in
      if_either P (not (address e == current)) rest (
        if_either P (e.is_include && not (current == root)) removed
          (if_either P (not e.is_include) (Fewer-refl c.entries) rest))

-- A count went up by what is planned.
pub record CountedAs (j : Job) (ex : ℕ → Bool) (ps : List Planned) (c c' : Counting) : Type 0 where
  pub files : c'.files ≡ c.files + length ps
  pub bytes : c'.bytes ≡ c.bytes + bytes_of j.block_size ps
  pub same : Excludes ex c'
  pub fewer : Fewer c'.entries c.entries

module _ (j : Job) (ex : ℕ → Bool) where
  CountedAs-nothing : (c : Counting) → Excludes ex c → CountedAs j ex [] c (polled c)
  CountedAs-nothing c h = record {
    files = omega arith;
    bytes = omega arith;
    same = h;
    fewer = Fewer-refl c.entries;
  }

  CountedAs-still : (c : Counting) → Excludes ex c → CountedAs j ex [] c c
  CountedAs-still c h = record {
    files = omega arith;
    bytes = omega arith;
    same = h;
    fewer = Fewer-refl c.entries;
  }

  CountedAs-append :
      (ps qs : List Planned) (c c' c'' : Counting)
      → CountedAs j ex ps c c'
      → CountedAs j ex qs c' c''
      → CountedAs j ex (ps ++ qs) c c''
  CountedAs-append ps qs c c' c'' h k = record {
    files = omega (arith, h.files, k.files, length-append ps qs);
    bytes = omega (arith, h.bytes, k.bytes, bytes_of-append j.block_size ps qs);
    same = k.same;
    fewer = Fewer-trans k.fewer h.fewer;
  }

  CountedAs-from :
      (ps : List Planned) (c c' c'' : Counting)
      → c'.files ≡ c.files
      → c'.bytes ≡ c.bytes
      → Fewer c'.entries c.entries
      → CountedAs j ex ps c' c''
      → CountedAs j ex ps c c''
  CountedAs-from ps c c' c'' f b l h = record {
    files = omega (arith, h.files, f);
    bytes = omega (arith, h.bytes, b);
    same = h.same;
    fewer = Fewer-trans h.fewer l;
  }

  CountedAs-excluded :
      (v : Version) (below : Counting → Counting) (c c' : Counting)
      → Excludes ex c'
      → c'.files ≡ c.files
      → c'.bytes ≡ c.bytes
      → Fewer c'.entries c.entries
      → CountedAs j ex [] c (count_version j v below (c', true))
  unfolding count_version
  CountedAs-excluded v below c c' s f b l = record {
    files = omega (arith, f);
    bytes = omega (arith, b);
    same = s;
    fewer = l;
  }

  -- What counting a directory's children has to give.
  abbrev Below : (ℕ → List Planned) → (Counting → Counting) → Type 0
  Below ps below = (id : ℕ) (c : Counting) → Excludes ex c → CountedAs j ex (ps id) c (below c)

  count_version-CountedAs :
      (v : Version) (parent : ℕ) (local : Text) (ps : ℕ → List Planned)
      (below : Counting → Counting) (c : Counting)
      → Excludes ex c
      → Below ps below
      → CountedAs j ex (plan_version v parent local ps) c (count_version j v below (c, false))
  unfolding count_version notify_more_files_counted
  count_version-CountedAs v parent local ps below c h k =
      let R = λ (qs : List Planned) (c' : Counting). CountedAs j ex qs c c' in
      if_both R v.is_deleted (CountedAs-still c h) (
        if_both R v.is_directory (k v.box_file_id c h)
          (record { files = refl; bytes = omega arith; same = h; fewer = Fewer-refl c.entries }))

  count_at-CountedAs :
      (root : ℕ) (i : Info) (parent : ℕ) (local : Text) (ps : ℕ → List Planned)
      (below : Counting → Counting) (c : Counting)
      → ((k : ℕ) → j.stops k ≡ false)
      → Excludes ex c
      → Below ps below
      → CountedAs j ex (plan_at ex j.epoch i parent local ps) c (count_at j root i below c)
  unfolding count_at
  count_at-CountedAs root i parent local ps below c calm h k =
      let checked = check_entries root i.address c.entries (polled c) in
      let flag : checked.1 ≡ ex i.address =
        check_entries-flag root i.address c.entries (polled c) ∙ h i.address in
      let kept : Excludes ex checked.0 =
        λ a. check_entries-excludes root i.address c.entries (polled c) a ∙ h a in
      let (files, bytes) = check_entries-files root i.address c.entries (polled c) in
      let fewer : Fewer checked.0.entries c.entries =
        check_entries-Fewer root i.address c.entries (polled c) in
      rw (calm c.polls)
        (by_version (get_version_to_restore j.epoch i) checked flag kept files bytes fewer)
    where
      by_version :
          (o : Option Version) (checked : Counting × Bool)
          → checked.1 ≡ ex i.address
          → Excludes ex checked.0
          → checked.0.files ≡ c.files
          → checked.0.bytes ≡ c.bytes
          → Fewer checked.0.entries c.entries
          → CountedAs j ex
              (if ex i.address
                then []
                else elim o [ none ↦ [] | some v ↦ plan_version v parent local ps ])
              c
              (elim o [ none ↦ polled c | some v ↦ count_version j v below checked ])
      by_version none (c', true) e s f b l = rw (sym e) (CountedAs-nothing c h)
      by_version none (c', false) e s f b l = rw (sym e) (CountedAs-nothing c h)
      by_version (some v) (c', true) e s f b l =
          rw (sym e) (CountedAs-excluded v below c c' s f b l)
      by_version (some v) (c', false) e s f b l = rw (sym e) (
          CountedAs-from (plan_version v parent local ps) c c' _ f b l
            (count_version-CountedAs v parent local ps below c' s k))

  -- Counting from a node, or a directory's children, comes to what is planned there.
  mutual
    unfolding count_files_recursive count_children

    pub count_files_recursive-CountedAs :
        (root : ℕ) (n : Node) (parent : ℕ) (local : Text) (c : Counting)
        → ((k : ℕ) → j.stops k ≡ false)
        → ((a : ℕ) → j.lists a ≡ true)
        → Excludes ex c
        → CountedAs j ex (plan ex j.epoch n parent local) c (count_files_recursive j root n c)
    count_files_recursive-CountedAs root (listed i ns) parent local c calm all h =
        count_at-CountedAs root i parent local (plan_all ex j.epoch ns local)
          (λ c'. if j.lists i.address then count_children j root ns c' else c') c calm h
          (λ id c' h'.
            rw (all i.address) (count_children-CountedAs root ns id local c' calm all h'))
    count_files_recursive-CountedAs root (unlisted i) parent local c calm all h =
        count_at-CountedAs root i parent local (λ id. []) (λ c'. c') c calm h
          (λ id c' h'. CountedAs-still c' h')

    pub count_children-CountedAs :
        (root : ℕ) (ns : Nodes) (id : ℕ) (local : Text) (c : Counting)
        → ((k : ℕ) → j.stops k ≡ false)
        → ((a : ℕ) → j.lists a ≡ true)
        → Excludes ex c
        → CountedAs j ex (plan_all ex j.epoch ns local id) c (count_children j root ns c)
    count_children-CountedAs root no_nodes id local c calm all h = CountedAs-still c h
    count_children-CountedAs root (a_node n ns) id local c calm all h =
        let first =
          count_files_recursive-CountedAs root n id (child_name local (info n)) c calm all h in
        let c' = count_files_recursive j root n c in
        CountedAs-append (plan ex j.epoch n id (child_name local (info n)))
          (plan_all ex j.epoch ns local id) c c' (count_children j root ns c') first
          (count_children-CountedAs root ns id local c' calm all first.same)
