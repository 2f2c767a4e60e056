-- ===== src/RestoreFiles/FetchedAs.antt =====
-- How much of what is planned was fetched, and how such claims add up.
use mathlib.Core.List.{append_assoc, append-nil}
use boxi.Prelude.{
  ◌+◌, ◌≡◌, ◌≢◌, refl, ap, sym, ◌∙◌, List, [], ◌∷◌, ◌++◌, length, length-append, arith,
}
use boxi.RestoreFiles.Count.{Job}
use boxi.RestoreFiles.Fetch.{
  FetchedFile, Restoring, Status, went_on, gave_up, escaped, called, and_then,
}
use boxi.RestoreFiles.Selected.{Planned, files_of, bytes_of, bytes_of-append}

pub files_of-append : (ps qs : List Planned) → files_of (ps ++ qs) ≡ files_of ps ++ files_of qs
files_of-append [] qs = refl
files_of-append (p ∷ ps) qs = ap (p.file ∷◌) (files_of-append ps qs)

-- Nothing was fetched in between.
pub record Same (r r' : Restoring) : Type 0 where
  pub fetched : r'.fetched ≡ r.fetched
  pub files : r'.files_done ≡ r.files_done
  pub bytes : r'.bytes_done ≡ r.bytes_done

pub Same-refl : (r : Restoring) → Same r r
Same-refl r = record { fetched = refl; files = refl; bytes = refl }

pub Same-called : (r : Restoring) → Same r (called r)
Same-called r = record { fetched = refl; files = refl; bytes = refl }

-- All that is planned was fetched, in that order, and is counted.
pub record AllOf (j : Job) (ps : List Planned) (r r' : Restoring) : Type 0 where
  pub fetched : r'.fetched ≡ r.fetched ++ files_of ps
  pub files : r'.files_done ≡ r.files_done + length ps
  pub bytes : r'.bytes_done ≡ r.bytes_done + bytes_of j.block_size ps

-- The first part of what is planned was fetched.
pub record PartOf (ps : List Planned) (r r' : Restoring) : Type 0 where
  pub new : List FetchedFile
  pub left : List FetchedFile
  pub planned : files_of ps ≡ new ++ left
  pub fetched : r'.fetched ≡ r.fetched ++ new

pub record FetchedAs (j : Job) (ps : List Planned) (r : Restoring) (o : Restoring × Status)
    : Type 0 where
  pub when_done : o.1 ≡ went_on → AllOf j ps r o.0
  pub always : PartOf ps r o.0

module _ (j : Job) where
  pub FetchedAs-nothing : (r r' : Restoring) → Same r r' → FetchedAs j [] r (r', went_on)
  FetchedAs-nothing r r' h = record {
    when_done = λ e. record {
      fetched = h.fetched ∙ sym (append-nil r.fetched);
      files = omega (arith, h.files);
      bytes = omega (arith, h.bytes);
    };
    always = record {
      new = [];
      left = [];
      planned = refl;
      fetched = h.fetched ∙ sym (append-nil r.fetched);
    };
  }

  pub FetchedAs-halted :
      (ps : List Planned) (r r' : Restoring) (s : Status)
      → Same r r'
      → s ≢ went_on
      → FetchedAs j ps r (r', s)
  FetchedAs-halted ps r r' s h k = record {
    when_done = λ e. absurd (k e);
    always = record {
      new = [];
      left = files_of ps;
      planned = refl;
      fetched = h.fetched ∙ sym (append-nil r.fetched);
    };
  }

  pub FetchedAs-from :
      (ps : List Planned) (r r' : Restoring) (o : Restoring × Status)
      → Same r r'
      → FetchedAs j ps r' o
      → FetchedAs j ps r o
  FetchedAs-from ps r r' o h k = record {
    when_done = λ e.
        let d = k.when_done e in
        record {
          fetched = d.fetched ∙ ap (◌++ files_of ps) h.fetched;
          files = omega (arith, d.files, h.files);
          bytes = omega (arith, d.bytes, h.bytes);
        };
    always =
        let a = k.always in
        record {
          new = a.new;
          left = a.left;
          planned = a.planned;
          fetched = a.fetched ∙ ap (◌++ a.new) h.fetched;
        };
  }

  AllOf-append :
      (ps qs : List Planned) (r r' r'' : Restoring)
      → AllOf j ps r r'
      → AllOf j qs r' r''
      → AllOf j (ps ++ qs) r r''
  AllOf-append ps qs r r' r'' h k = record {
    fetched =
        k.fetched
        ∙ ap (◌++ files_of qs) h.fetched
        ∙ append_assoc r.fetched (files_of ps) (files_of qs)
        ∙ ap (r.fetched ++◌) (sym (files_of-append ps qs));
    files = omega (arith, h.files, k.files, length-append ps qs);
    bytes = omega (arith, h.bytes, k.bytes, bytes_of-append j.block_size ps qs);
  }

  PartOf-append :
      (ps qs : List Planned) (r r' r'' : Restoring)
      → r'.fetched ≡ r.fetched ++ files_of ps
      → PartOf qs r' r''
      → PartOf (ps ++ qs) r r''
  PartOf-append ps qs r r' r'' h k = record {
    new = files_of ps ++ k.new;
    left = k.left;
    planned =
        files_of-append ps qs
        ∙ ap (files_of ps ++◌) k.planned
        ∙ sym (append_assoc (files_of ps) k.new k.left);
    fetched = k.fetched ∙ ap (◌++ k.new) h ∙ append_assoc r.fetched (files_of ps) k.new;
  }

  PartOf-first : (ps qs : List Planned) (r r' : Restoring) → PartOf ps r r' → PartOf (ps ++ qs) r r'
  PartOf-first ps qs r r' h = record {
    new = h.new;
    left = h.left ++ files_of qs;
    planned =
        files_of-append ps qs
        ∙ ap (◌++ files_of qs) h.planned
        ∙ append_assoc h.new h.left (files_of qs);
    fetched = h.fetched;
  }

  pub and_then-FetchedAs :
      (ps qs : List Planned) (r : Restoring) (o : Restoring × Status)
      (go : Restoring → Restoring × Status)
      → FetchedAs j ps r o
      → ((r' : Restoring) → FetchedAs j qs r' (go r'))
      → FetchedAs j (ps ++ qs) r (and_then o go)
  and_then-FetchedAs ps qs r (r', went_on) go h k =
      let first = h.when_done refl in
      let next = k r' in
      record {
        when_done = λ e. AllOf-append ps qs r r' (go r').0 first (next.when_done e);
        always = PartOf-append ps qs r r' (go r').0 first.fetched next.always;
      }
  and_then-FetchedAs ps qs r (r', gave_up) go h k = record {
    when_done = λ e. cc;
    always = PartOf-first ps qs r r' h.always;
  }
  and_then-FetchedAs ps qs r (r', escaped) go h k = record {
    when_done = λ e. cc;
    always = PartOf-first ps qs r r' h.always;
  }
