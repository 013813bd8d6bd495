-- ===== src/Repositories/Pages.antt =====
-- The pages that `list_files` gives, against the whole list of the files with the condition.
use native.Mathlib.Nat.{zero-mul}
use file_extractor.Base.{
  ℕ, zero, suc, ◌+◌, ◌*◌, ◌≤◌, ◌≡◌, refl, sym, ap, ◌∙◌, Bool, Option, List, [], ◌∷◌, ◌++◌, length,
  take, drop, filter, drop-drop, drop-eq_nil, take-append-drop, arith,
}
use file_extractor.Base.Int.{pos, negsuc, ◌+ℤ◌, ◌*ℤ◌, pos-*ℤ, suc-+ℤ_pred}
use file_extractor.Base.Exec.{Exec, Result, ok, raised, pure, ◌>>=◌}
use file_extractor.Domain.File.{File}
use file_extractor.Repositories.Rows.{FileModel, file_to_domain, and_then}
use file_extractor.Repositories.Files.{FileSession, FileFilters, condition, files_of, list_files}

-- A database whose rows stand in one order, which the queries read without a change.
pub record Reads (d : FileSession) (rows : d.State → List FileModel) : Type 0 where
  pub counts :
      (p : FileModel → Bool) (s : d.State)
      → d.select_count p s ≡ (ok (length (filter p (rows s))), s)
  pub pages :
      (p : FileModel → Bool) (offset limit : ℕ) (s : d.State)
      → d.select_page p (pos offset) (pos limit) s
        ≡ (ok (take limit (drop offset (filter p (rows s)))), s)

module _ (d : FileSession) (filters : Option FileFilters) where
  -- The items of `k` pages of `n`, asked for in turn from the page behind the first `i`.
  unfoldable pub gather : ℕ → ℕ → ℕ → Exec d.State (List File)
  gather n i zero = pure []
  gather n i (suc k) = do
    p ← list_files d filters (pos (suc i)) (pos n)
    rest ← gather n (suc i) k
    pure (p.items ++ rest)

-- What is read of a list of rows is read of each cut of it, and cut alike.
module _ (d : FileSession) where
  Read : FileModel → Result File
  Read m = file_to_domain d.str_id d.uuid_of m

  read_cons :
      (r : Result File) (q : Result (List File)) (fs : List File)
      → and_then r (λ f. and_then q λ gs. ok (f ∷ gs)) ≡ ok fs
      → (f : File) × (gs : List File) × (r ≡ ok f) × (q ≡ ok gs) × (fs ≡ f ∷ gs)
  read_cons (raised e) q fs h = cc
  read_cons (ok f) (raised e) fs h = cc
  read_cons (ok f) (ok gs) fs h = (f, gs, refl, refl, cc)

  files_of-take :
      (n : ℕ) (rows : List FileModel) (fs : List File)
      → files_of d rows ≡ ok fs
      → files_of d (take n rows) ≡ ok (take n fs)
  unfolding files_of
  files_of-take zero rows fs h = refl
  files_of-take (suc n) [] [] h = refl
  files_of-take (suc n) [] (f ∷ fs) h = cc
  files_of-take (suc n) (m ∷ rows) fs h =
      let (f, gs, first, others, e) = read_cons _ (files_of d rows) fs h in
      rw (e, first, files_of-take n rows gs others) refl

  files_of-drop :
      (n : ℕ) (rows : List FileModel) (fs : List File)
      → files_of d rows ≡ ok fs
      → files_of d (drop n rows) ≡ ok (drop n fs)
  unfolding files_of
  files_of-drop zero rows fs h = h
  files_of-drop (suc n) [] [] h = refl
  files_of-drop (suc n) [] (f ∷ fs) h = cc
  files_of-drop (suc n) (m ∷ rows) fs h =
      let (f, gs, first, others, e) = read_cons _ (files_of d rows) fs h in
      rw e (files_of-drop n rows gs others)

  files_of-length :
      (rows : List FileModel) (fs : List File) → files_of d rows ≡ ok fs → length rows ≡ length fs
  unfolding files_of
  files_of-length [] [] h = refl
  files_of-length [] (f ∷ fs) h = cc
  files_of-length (m ∷ rows) fs h =
      let (f, gs, first, others, e) = read_cons _ (files_of d rows) fs h in
      omega (arith, files_of-length rows gs others, ap length e)

module _ (d : FileSession) (rows : d.State → List FileModel) (laws : Reads d rows)
    (filters : Option FileFilters) (s : d.State) (all : List File)
    (readable : files_of d (filter (condition d.contains filters) (rows s)) ≡ ok all) where
  abbrev matching : List FileModel
  matching = filter (condition d.contains filters) (rows s)

  offset : (i n : ℕ) → (pos (suc i) +ℤ negsuc 0) *ℤ pos n ≡ pos (i * n)
  offset i n = rw suc-+ℤ_pred (pos-*ℤ i n)

  -- A page.
  list_files-page :
      (i n : ℕ)
      → list_files d filters (pos (suc i)) (pos n) s ≡ (
        ok (record {
          items = take n (drop (i * n) all);
          total = length all;
          page = pos (suc i);
          per_page = pos n;
        }),
        s,
      )
  unfolding list_files ◌>>=◌
  list_files-page i n =
      let cut = files_of-drop d (i * n) matching all readable in
      rw
        (
          laws.counts (condition d.contains filters) s,
          offset i n,
          laws.pages (condition d.contains filters) (i * n) n s,
          files_of-take d n (drop (i * n) matching) (drop (i * n) all) cut,
          files_of-length d matching all readable,
        )
        refl

  gather_rest :
      (n i k : ℕ) → length all ≤ (i + k) * n → gather d filters n i k s ≡ (ok (drop (i * n) all), s)
  unfolding gather ◌>>=◌
  gather_rest n i zero h = rw (drop-eq_nil (i * n) all (omega arith)) refl
  gather_rest n i (suc k) h =
      let bound : length all ≤ (suc i + k) * n = omega arith in
      let next : drop (suc i * n) all ≡ drop n (drop (i * n) all) =
        sym (drop-drop (i * n) n all ∙ ap (λ m. drop m all) (omega arith)) in
      rw (list_files-page i n, gather_rest n (suc i) k bound, next, take-append-drop) refl

  -- If the queries read one list of rows, in one order and without a change, and all rows with the
  -- condition are files, then page `i + 1` of `n` has the files from i * n on, at most `n` of them,
  -- with the number of all files as its total; and `k` pages, asked for in turn, have all files,
  -- each once and in order, as soon as k * n is no less than that number.
  pub list_files_pages :
      (n k : ℕ)
      → length all ≤ k * n
      → (gather d filters n 0 k s ≡ (ok all, s))
        × ((i : ℕ)
            → list_files d filters (pos (suc i)) (pos n) s ≡ (
              ok (record {
                items = take n (drop (i * n) all);
                total = length all;
                page = pos (suc i);
                per_page = pos n;
              }),
              s,
            ))
  list_files_pages n k h = (
    gather_rest n 0 k (omega arith) ∙ ap (λ m. (ok (drop m all), s)) (zero-mul n),
    λ i. list_files-page i n,
  )
