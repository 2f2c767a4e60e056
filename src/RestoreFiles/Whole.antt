-- ===== src/RestoreFiles/Whole.antt =====
-- What a whole restore fetches, entry by entry.
use boxi.Prelude.{
  ℕ, refl, sym, Bool, true, false, Option, none, some, List, [], ◌∷◌, ◌++◌, if◌then◌else◌, if_both,
}
use boxi.Prelude.Text.{Text}
use boxi.RestoreFiles.Cache.{Epoch}
use boxi.RestoreFiles.Spec.{Entry, entry_path}
use boxi.RestoreFiles.Count.{Job}
use boxi.RestoreFiles.Fetch.{
  Disc, Restoring, Status, went_on, gave_up, escaped, restore_files_recursive,
}
use boxi.RestoreFiles.FetchedAs.{
  FetchedAs, FetchedAs-nothing, FetchedAs-halted, FetchedAs-from, and_then-FetchedAs, Same-refl,
}
use boxi.RestoreFiles.Fetched.{restore_files_recursive-FetchedAs}
use boxi.RestoreFiles.Selected.{Planned, excludes, plan}
use boxi.RestoreFiles.LocalPath.{
  PathResult, a_path, no_path, path_threw, path_crashed, make_local_path,
}
use boxi.RestoreFiles.LocalName.{chop, Names, make_local_path-Names}
use boxi.RestoreFiles.Panel.{
  LoopEnd, over, threw, crashed, parent_id, loop_end, restore_entry, and_next, restore_entries,
}

abbrev pub parent_or_none : Option ℕ → ℕ
parent_or_none none = 0
parent_or_none (some n) = n

-- What an entry selects, below the destination, where `es` is the specification.
abbrev pub plan_entry : List Entry → Epoch → Text → Entry → List Planned
plan_entry es t base e =
    if e.is_include
    then plan (excludes es) t e.node (parent_or_none (parent_id e.above))
        (chop (base ++ entry_path e))
    else []

abbrev pub plan_entries : List Entry → Epoch → Text → List Entry → List Planned
plan_entries es t base [] = []
plan_entries es t base (e ∷ rest) = plan_entry es t base e ++ plan_entries es t base rest

-- The end of a loop as that of one of its steps.
abbrev pub as_status : LoopEnd → Status
as_status (over true) = went_on
as_status (over false) = gave_up
as_status threw = escaped
as_status crashed = escaped

abbrev pub with_status : Restoring × LoopEnd → Restoring × Status
with_status (r, ended) = (r, as_status ended)

with_status-FetchedAs :
    (j : Job) (ps : List Planned) (r : Restoring) (o : Restoring × Status)
    → FetchedAs j ps r o
    → FetchedAs j ps r (with_status (o.0, loop_end o.1))
with_status-FetchedAs j ps r (r', went_on) h = h
with_status-FetchedAs j ps r (r', gave_up) h = h
with_status-FetchedAs j ps r (r', escaped) h = h

module _ (j : Job) (d : Disc) (es : List Entry) (base : Text) where
  restore_entry-FetchedAs :
      (e : Entry) (r : Restoring)
      → FetchedAs j
          (plan
            (excludes es)
            j.epoch
            e.node
            (parent_or_none (parent_id e.above))
            (chop (base ++ entry_path e)))
          r
          (with_status (restore_entry j d es base e r))
  unfolding restore_entry
  restore_entry-FetchedAs e r =
      by_path (make_local_path d base e r) (make_local_path-Names d base e r) (parent_id e.above)
    where
      by_path :
          (o : Restoring × PathResult)
          → Names r (chop (base ++ entry_path e)) o
          → (p : Option ℕ)
          → FetchedAs j
              (plan (excludes es) j.epoch e.node (parent_or_none p) (chop (base ++ entry_path e)))
              r
              (with_status (elim o.1 [
                | no_path ↦ (o.0, over false)
                | path_threw ↦ (o.0, threw)
                | path_crashed ↦ (o.0, crashed)
                | a_path local ↦ elim p [
                  | none ↦ (o.0, crashed)
                  | some parent ↦
                      let (r'', s) = restore_files_recursive j d es e.node parent local o.0 in
                      (r'', loop_end s)
                ]
              ]))
      by_path (r', no_path) h p = FetchedAs-halted j _ r r' gave_up h.same (λ q. cc)
      by_path (r', path_threw) h p = FetchedAs-halted j _ r r' escaped h.same (λ q. cc)
      by_path (r', path_crashed) h p = FetchedAs-halted j _ r r' escaped h.same (λ q. cc)
      by_path (r', a_path local) h none = FetchedAs-halted j _ r r' escaped h.same (λ q. cc)
      by_path (r', a_path local) h (some parent) = FetchedAs-from j _ r r' _ h.same (
          rw (sym (h.named local refl)) (
            with_status-FetchedAs j _ r' (restore_files_recursive j d es e.node parent local r')
              (restore_files_recursive-FetchedAs j d es e.node parent local r')))

  and_next-FetchedAs :
      (ps qs : List Planned) (r : Restoring) (o : Restoring × LoopEnd)
      (go : Restoring → Restoring × LoopEnd)
      → FetchedAs j ps r (with_status o)
      → ((r' : Restoring) → FetchedAs j qs r' (with_status (go r')))
      → FetchedAs j (ps ++ qs) r (with_status (and_next o go))
  and_next-FetchedAs ps qs r (r', over true) go h k =
      and_then-FetchedAs j ps qs r (r', went_on) (λ x. with_status (go x)) h k
  and_next-FetchedAs ps qs r (r', over false) go h k =
      and_then-FetchedAs j ps qs r (r', gave_up) (λ x. with_status (go x)) h k
  and_next-FetchedAs ps qs r (r', threw) go h k =
      and_then-FetchedAs j ps qs r (r', escaped) (λ x. with_status (go x)) h k
  and_next-FetchedAs ps qs r (r', crashed) go h k =
      and_then-FetchedAs j ps qs r (r', escaped) (λ x. with_status (go x)) h k

  ended-FetchedAs :
      (succeeded : Bool) (r : Restoring) → FetchedAs j [] r (with_status (r, over succeeded))
  ended-FetchedAs true r = FetchedAs-nothing j r r (Same-refl r)
  ended-FetchedAs false r = FetchedAs-halted j [] r r gave_up (Same-refl r) (λ q. cc)

  -- The loop fetches what its entries select: all of it where it ends with `succeeded`, otherwise
  -- the first part.
  pub restore_entries-FetchedAs :
      (todo : List Entry) (succeeded : Bool) (r : Restoring)
      → FetchedAs j
          (plan_entries es j.epoch base todo)
          r
          (with_status (restore_entries j d es base todo succeeded r))
  unfolding restore_entries
  restore_entries-FetchedAs [] succeeded r = ended-FetchedAs succeeded r
  restore_entries-FetchedAs (e ∷ rest) succeeded r =
      and_next-FetchedAs (plan_entry es j.epoch base e) (plan_entries es j.epoch base rest) r _
        (restore_entries j d es base rest true)
        (if_both (λ (ps : List Planned) (o : Restoring × LoopEnd). FetchedAs j ps r (with_status o))
          e.is_include (restore_entry-FetchedAs e r) (ended-FetchedAs succeeded r))
        (λ r'. restore_entries-FetchedAs rest true r')
