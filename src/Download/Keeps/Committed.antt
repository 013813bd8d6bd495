-- ===== src/Download/Keeps/Committed.antt =====
-- What is committed to the database while a task is worked on.
use mathlib.Core.Path.{subst}
use file_extractor.Base.{ℕ, String, ◌≡◌, sym, ap, ◌∙◌, Option, List}
use file_extractor.Base.Exec.{Exec, Result, ok, raised, proceed, ◌>>=◌, ◌>>◌}
use file_extractor.Base.Exec.Ensures.{Post, Post-weaken, Ensures, Keeps, Ensures-bind}
use file_extractor.Uow.{with_uow, left_uow}
use file_extractor.Domain.File.{File, FileId}
use file_extractor.Domain.Hash.{FileHash}
use file_extractor.Domain.Task.{DownloadTask}
use file_extractor.Download.Ports.{World}
use file_extractor.Download.State.{Run, forget_file}
use file_extractor.Download.Loop.{process}
use file_extractor.Download.Keeps.{Kept}
use file_extractor.Download.Keeps.Whole.{process-Keeps}

-- What the statements of a transaction make of the rows of the database.
pub record Effects (R : Type 0) : Type 0 where
  pub saved : DownloadTask → R → R
  pub added : File → R → R
  pub recorded : String → String → FileHash → R → R
  pub removed : FileId → R → R
  pub unrecorded : String → String → R → R

module _ (w : World) {R : Type 0} (committed working : w.State → R) where
  -- The call leaves the rows alone.
  abbrev pub Leaves : {A : Type 0} → Exec w.State A → Type 0
  Leaves m = (s : w.State) → (committed (m s).1 ≡ committed s) × (working (m s).1 ≡ working s)

  -- The call is a statement: it commits nothing, and has its effect if it returns.
  abbrev pub Affects : {A : Type 0} → Exec w.State A → (R → R) → Type 0
  Affects m f =
      (s : w.State)
      → Post (λ _ t. (committed t ≡ committed s) × (working t ≡ f (working s)))
          (λ t. committed t ≡ committed s) (m s)

  -- What a session with transactions does: `working` are the rows that it sees. A commit that raises
  -- has committed nothing; after a roll-back, also one that raises, the session sees what is committed.
  pub record Transactions (x : Effects R) : Type 0 where
    pub commits :
        (s : w.State)
        → Post
            (λ _ t. (committed t ≡ working s) × (working t ≡ working s))
            (λ t. committed t ≡ committed s)
            (w.commit s)
    pub rolls_back :
        (s : w.State)
        → (committed (w.rollback s).1 ≡ committed s) × (working (w.rollback s).1 ≡ committed s)
    pub saves : (t : DownloadTask) → Affects (w.update_task t) (x.saved t)
    pub adds : (f : File) → Affects (w.add_file f) (x.added f)
    pub records :
        (id name : String) (h : FileHash)
        → Affects (w.record_downloaded_file id name h) (x.recorded id name h)
    pub removes : (id : FileId) → Affects (w.delete_file id) (x.removed id)
    pub unrecords :
        (id name : String) → Affects (w.delete_downloaded_file id name) (x.unrecorded id name)
    pub asks : (c : Option String) → Leaves (w.get_file_names c)
    pub marks : (batch : List String) (c : Option String) → Leaves (w.mark_downloaded batch c)
    pub uploads : (bytes : List ℕ) (key : String) (n : ℕ) → Leaves (w.upload_stream bytes key n)
    pub deletes : (key : String) → Leaves (w.delete_object key)
    pub looks : (id name : String) → Leaves (w.downloaded_file_exists id name)
    pub now_leaves :
        (s : w.State) → (committed (w.now s).1 ≡ committed s) × (working (w.now s).1 ≡ working s)
    pub uuid4_leaves :
        (s : w.State)
        → (committed (w.uuid4 s).1 ≡ committed s) × (working (w.uuid4 s).1 ≡ working s)
    pub extract_leaves :
        (batch : List String) (s : w.State)
        → (committed (w.extract batch s).1 ≡ committed s)
          × (working (w.extract batch s).1 ≡ working s)

-- `Q` is kept by each of the handler's three transactions, as a whole.
pub record WholeKeeps {R : Type 0} (x : Effects R) (Q : R → Type 0) : Type 0 where
  pub saved : (t : DownloadTask) (r : R) → Q r → Q (x.saved t r)
  pub registered :
      (id : String) (f : File) (h : FileHash) (r : R)
      → Q r
      → Q (x.recorded id f.filename h (x.added f r))
  pub forgotten :
      (id : String) (f : File) (r : R) → Q r → Q (x.unrecorded id f.filename (x.removed f.id r))

module _ {w : World} {R : Type 0} {committed working : w.State → R} {x : Effects R}
    (law : Transactions w committed working x) (Q : R → Type 0) where
  -- Nothing is open, and `Q` holds of the rows.
  abbrev Settled : w.State → Type 0
  Settled s = (working s ≡ committed s) × Q (committed s)

  Leaves-Settled :
      {A : Type 0} (m : Exec w.State A) → Leaves w committed working m → Keeps Settled m
  Leaves-Settled m h = record {
    at = λ s (same, q). ((h s).1 ∙ same ∙ sym (h s).0, subst Q (sym (h s).0) q);
  }

  -- Two statements, one behind the other.
  then-Affects :
      (m n : Exec w.State (Unit {0})) (f g : R → R)
      → Affects w committed working m f
      → Affects w committed working n g
      → Affects w committed working (m >> n) (λ r. g (f r))
  unfolding ◌>>=◌
  then-Affects m n f g hm hn s = over (m s) (hm s)
    where
      over :
          (r : Result (Unit {0}) × w.State)
          → Post
              (λ _ t. (committed t ≡ committed s) × (working t ≡ f (working s)))
              (λ t. committed t ≡ committed s)
              r
          → Post
              (λ _ t. (committed t ≡ committed s) × (working t ≡ g (f (working s))))
              (λ t. committed t ≡ committed s)
              (proceed (λ _. n) r.0 r.1)
      over (raised e, t) h = h
      over (ok _, t) (c, k) =
          Post-weaken (n t) (λ _ u (a, b). (a ∙ c, b ∙ ap g k)) (λ u a. a ∙ c) (hn t)

  -- The end of a block, from what its body makes sure of.
  ended-Settled :
      (m : Exec w.State (Unit {0}))
      → Ensures Settled m (λ _. Settled) (λ t. Q (committed t))
      → Keeps Settled (with_uow w.rollback m)
  unfolding with_uow left_uow
  ended-Settled m h = record { at = λ s p. over (m s) (h.at s p) }
    where
      over :
          (r : Result (Unit {0}) × w.State)
          → Post (λ _. Settled) (λ t. Q (committed t)) r
          → Settled (left_uow w.rollback r.0 r.1).1
      over (ok _, t) p = p
      over (raised e, t) q =
          let (same, seen) = law.rolls_back t in (seen ∙ sym same, subst Q (sym same) q)

  -- A transaction that makes `f` of the rows, from a settled state: committed is all or nothing.
  block-Settled :
      (f : R → R) (m : Exec w.State (Unit {0}))
      → ((r : R) → Q r → Q (f r))
      → Affects w committed working m f
      → Keeps Settled (with_uow w.rollback (m >> w.commit))
  block-Settled f m keeps affects = ended-Settled (m >> w.commit) (
      Ensures-bind {Q = λ _ t. Q (committed t) × Q (working t)} m (λ _. w.commit)
        (record {
          at = λ s (same, q).
              Post-weaken (m s)
                (λ _ t (c, k).
                  (subst Q (sym c) q, subst Q (sym (k ∙ ap f same)) (keeps (committed s) q)))
                (λ t c. subst Q (sym c) q) (affects s);
        })
        λ _. record {
          at = λ t (q, p).
              Post-weaken (w.commit t) (λ _ u (c, k). (k ∙ sym c, subst Q (sym c) p))
                (λ u c. subst Q (sym c) q) (law.commits t);
        })

  Settled-Kept : WholeKeeps x Q → Kept w Settled
  unfolding forget_file
  Settled-Kept whole = record {
    now = λ s (same, q). let (c, k) = law.now_leaves s in (k ∙ same ∙ sym c, subst Q (sym c) q);
    uuid4 = λ s (same, q). let (c, k) = law.uuid4_leaves s in (k ∙ same ∙ sym c, subst Q (sym c) q);
    extract = λ batch s (same, q).
        let (c, k) = law.extract_leaves batch s in (k ∙ same ∙ sym c, subst Q (sym c) q);
    mark_downloaded = λ batch c. Leaves-Settled _ (law.marks batch c);
    upload_stream = λ bytes key n. Leaves-Settled _ (law.uploads bytes key n);
    delete_object = λ key. Leaves-Settled _ (law.deletes key);
    downloaded_file_exists = λ id name. Leaves-Settled _ (law.looks id name);
    saves = λ t. block-Settled (x.saved t) (w.update_task t) (whole.saved t) (law.saves t);
    registers = λ id f h.
        block-Settled (λ r. x.recorded id f.filename h (x.added f r))
          (w.add_file f >> w.record_downloaded_file id f.filename h) (whole.registered id f h)
          (then-Affects _ _ (x.added f) (x.recorded id f.filename h) (law.adds f)
            (law.records id f.filename h));
    forgets = λ id f.
        block-Settled (λ r. x.unrecorded id f.filename (x.removed f.id r))
          (w.delete_file f.id >> w.delete_downloaded_file id f.filename) (whole.forgotten id f)
          (then-Affects _ _ (x.removed f.id) (x.unrecorded id f.filename) (law.removes f.id)
            (law.unrecords id f.filename));
  }

-- A predicate on the rows of the database that is kept by the three transactions of the handler as
-- wholes (a saved task; a file with the record of its download; both deleted) holds of what is
-- committed after the work on a task, however that ends and with any fuel, and nothing is left
-- uncommitted, if both held before. So no failure leaves half of a transaction. The session has
-- transactions; a commit that raises has committed nothing.
pub process_commits_whole :
    (w : World) {R : Type 0} (committed working : w.State → R) (x : Effects R)
    → Transactions w committed working x
    → (Q : R → Type 0) → WholeKeeps x Q
    → (fuel : ℕ) (candidate_id : Option String) (r : Run w) → working r.world ≡ committed r.world
    → Q (committed r.world)
    → let t = (process fuel candidate_id r).1.world in (working t ≡ committed t) × Q (committed t)
process_commits_whole w committed working x law Q whole fuel candidate_id r same q =
    (process-Keeps (Settled-Kept law Q whole) (λ c. Leaves-Settled law Q _ (law.asks c)) fuel
        candidate_id).at
      r (same, q)
