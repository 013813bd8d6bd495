-- ===== src/Statistics/Totals.antt =====
-- What `CalculateStatsHandler` counts, against the digits in the texts that the store holds.
use file_extractor.Uow.{with_uow}
use text.Mathlib.Text.{◌==◌ as str_eq}
use text.Mathlib.TextEquality.{eq_iff}
use file_extractor.Base.{
  ℕ, ◌+◌, String, ◌≡◌, refl, sym, ap, ◌∙◌, Bool, true, false, Bool-cases, inl, inr, Option, none,
  some, List, [], ◌∷◌, map, arith, if◌then◌else◌, ◌==◌, ◌||◌,
}
use file_extractor.Base.Dict.{lookup, insert, get, lookup-insert, nat_key, nat_same_iff}
use file_extractor.Base.Exec.{ok, ◌>>=◌}
use file_extractor.Domain.Hash.{codes}
use file_extractor.Download.Ports.{World}
use file_extractor.Statistics.Digits.{
  ensure_in, Counts, CalculateStatsResult, is_digit, bump, count_char, count_chars, count_content,
  ensure, fill, all_digits, nothing_counted, find_files, counted, count_files, calculate_stats,
}

-- How often `d` is among the code points of a text.
unfoldable pub occurrences : ℕ → List ℕ → ℕ
occurrences d [] = 0
occurrences d (c ∷ cs) = (if c == d then 1 else 0) + occurrences d cs

abbrev pub in_content : ℕ → Option String → ℕ
in_content d none = 0
in_content d (some content) = occurrences d (codes content)

-- How often `d` is in what is fetched for all the keys that are not empty.
unfoldable pub in_files : ℕ → (String → Option String) → List (String × String) → ℕ
in_files d fetch [] = 0
in_files d fetch ((filename, key) ∷ rest) =
    (if str_eq key "" then 0 else in_content d (fetch key)) + in_files d fetch rest

abbrev or_zero : Option ℕ → ℕ
or_zero none = 0
or_zero (some n) = n

or_zero-if :
    (b : Bool) (n : ℕ) (o : Option ℕ)
    → or_zero (if b then some n else o) ≡ (if b then n else or_zero o)
or_zero-if true n o = refl
or_zero-if false n o = refl

get-or_zero : (d : ℕ) (m : Counts) → get d 0 m ≡ or_zero (lookup d m)
get-or_zero d m = elim (lookup d m) [ none ↦ refl | some n ↦ refl ]

get-insert :
    (d c n : ℕ) (m : Counts) → get d 0 (insert c n m) ≡ (if c == d then n else or_zero (lookup d m))
get-insert d c n m =
    get-or_zero d (insert c n m)
    ∙ ap or_zero (lookup-insert c d n m)
    ∙ or_zero-if (c == d) n (lookup d m)

get-bump : (d c : ℕ) (m : Counts) → get d 0 (bump c m) ≡ (if c == d then 1 else 0) + get d 0 m
unfolding bump
get-bump d c m = elim (Bool-cases (c == d)) [
  | inl e ↦
      let step = get-insert d c (get c 0 m + 1) m in
      let same : get c 0 m ≡ get d 0 m = ap (λ x. get x 0 m) ((nat_same_iff c d).0 e) in
      ground (arith, step, same)
  | inr e ↦ ground (arith, get-insert d c (get c 0 m + 1) m, get-or_zero d m)
]

no_digit-differs : (c d : ℕ) → is_digit c ≡ false → is_digit d ≡ true → (c == d) ≡ false
no_digit-differs c d h k = ground arith

count_char_total :
    (d : ℕ) (filename : String) (c : ℕ) (r : CalculateStatsResult)
    → is_digit d ≡ true
    → get d 0 (count_char filename c r).total ≡ (if c == d then 1 else 0) + get d 0 r.total
unfolding count_char
count_char_total d filename c r h = elim (Bool-cases (is_digit c)) [
  | inl e ↦ rw e (get-bump d c r.total)
  | inr e ↦ rw (e, no_digit-differs c d e h) (omega arith)
]

count_chars_total :
    (d : ℕ) (filename : String) (cs : List ℕ) (r : CalculateStatsResult)
    → is_digit d ≡ true
    → get d 0 (count_chars filename cs r).total ≡ occurrences d cs + get d 0 r.total
unfolding count_chars occurrences
count_chars_total d filename [] r h = omega arith
count_chars_total d filename (c ∷ cs) r h =
    let step = count_char_total d filename c r h in
    let rest = count_chars_total d filename cs (count_char filename c r) h in
    omega (arith, step, rest)

counted_total :
    (w : World) (d : ℕ) (filename : String) (content : Option String) (r : CalculateStatsResult)
    → is_digit d ≡ true
    → get d 0 (counted w filename content r).total ≡ in_content d content + get d 0 r.total
unfolding counted count_content occurrences
counted_total w d filename none r h = omega arith
counted_total w d filename (some content) r h = elim (Bool-cases (str_eq content "")) [
  | inl e ↦ rw (e, (eq_iff content "").0 e) (omega arith)
  | inr e ↦ rw e (count_chars_total d filename (codes content) _ h)
]

ensure_kept : (d c : ℕ) (m : Counts) → get d 0 (ensure c m) ≡ get d 0 m
unfolding ensure
ensure_kept d c m = kept (lookup c m) refl
  where
    kept :
        (o : Option ℕ)
        → lookup c m ≡ o
        → get d 0 (elim o [ none ↦ insert c 0 m | some n ↦ m ]) ≡ get d 0 m
    kept (some n) e = refl
    kept none e = elim (Bool-cases (c == d)) [
      | inl same ↦
          let at_d : or_zero (lookup d m) ≡ 0 =
            ap (λ x. or_zero (lookup x m)) (sym ((nat_same_iff c d).0 same)) ∙ ap or_zero e in
          ground (arith, get-insert d c 0 m, get-or_zero d m, at_d)
      | inr other ↦ ground (arith, get-insert d c 0 m, get-or_zero d m)
    ]

count_files_total :
    (w : World) (fetch : String → Option String) (d : ℕ) (files : List (String × String))
    (r : CalculateStatsResult) (s : w.State)
    → ((key : String) (s : w.State) → w.download key s ≡ (ok (fetch key), s))
    → is_digit d ≡ true
    → (t : CalculateStatsResult) × (count_files w files r s ≡ (ok t, s))
      × (get d 0 t.total ≡ in_files d fetch files + get d 0 r.total)
unfolding count_files in_files ◌>>=◌
count_files_total w fetch d [] r s reads h = (r, refl, omega arith)
count_files_total w fetch d ((filename, key) ∷ rest) r s reads h =
    elim (Bool-cases (str_eq key "")) [
      | inl e ↦
          let (t, run, sum) = count_files_total w fetch d rest r s reads h in
          rw e (t, run, omega (arith, sum))
      | inr e ↦
          let u = counted w filename (fetch key) r in
          let (t, run, sum) = count_files_total w fetch d rest u s reads h in
          let step = counted_total w d filename (fetch key) r h in
          rw (e, reads key s) (t, run, omega (arith, sum, step))
    ]

abbrev is_key : Option ℕ → Bool
is_key none = false
is_key (some n) = true

abbrev is_in : ℕ → List ℕ → Bool
is_in d [] = false
is_in d (c ∷ cs) = c == d || is_in d cs

ensure_key :
    (d c : ℕ) (m : Counts) → is_key (lookup d (ensure c m)) ≡ (c == d || is_key (lookup d m))
unfolding ensure
ensure_key d c m = keyed (lookup c m) refl
  where
    keyed :
        (o : Option ℕ)
        → lookup c m ≡ o
        → is_key (lookup d (elim o [ none ↦ insert c 0 m | some n ↦ m ]))
          ≡ (c == d || is_key (lookup d m))
    keyed none e = elim (Bool-cases (c == d)) [
      | inl same ↦ rw (lookup-insert c d 0 m, same) refl
      | inr other ↦ rw (lookup-insert c d 0 m, other) refl
    ]
    keyed (some n) e = elim (Bool-cases (c == d)) [
      | inl same ↦
          rw same (ap (λ x. is_key (lookup x m)) (sym ((nat_same_iff c d).0 same)) ∙ ap is_key e)
      | inr other ↦ rw other refl
    ]

fill_total :
    (d : ℕ) (ds : List ℕ) (r : CalculateStatsResult)
    → (get d 0 (fill ds r).total ≡ get d 0 r.total)
      × (is_key (lookup d (fill ds r).total) ≡ (is_in d ds || is_key (lookup d r.total)))
unfolding fill
fill_total d [] r = (refl, refl)
fill_total d (c ∷ ds) r =
    let (sum, key) =
      fill_total d ds
        (record { total = ensure c r.total; by_file = map (ensure_in c) r.by_file }) in
    (sum ∙ ensure_kept d c r.total, ground (arith, key, ensure_key d c r.total))

digit-is_in : (d : ℕ) → is_digit d ≡ true → is_in d all_digits ≡ true
digit-is_in d h = ground arith

key-lookup : (o : Option ℕ) → is_key o ≡ true → o ≡ some (or_zero o)
key-lookup none h = cc
key-lookup (some n) h = refl

none_yet : {n : ℕ} (d : ℕ) → n + get d 0 nothing_counted.total ≡ n
unfolding lookup
none_yet d = omega arith

-- If the files are found, and the store answers each download by `fetch` without a change, then
-- the handler returns; for each digit its total has a key, whose value is the number of times the
-- digit occurs in all the texts fetched, those of files of the same name included.
pub calculate_stats_total :
    (w : World) (fetch : String → Option String)
    (reads : (key : String) (s : w.State) → w.download key s ≡ (ok (fetch key), s))
    (file_ids : List String) (files : List (String × String)) (s t : w.State)
    → with_uow w.rollback (find_files w file_ids) s ≡ (ok files, t)
    → (d : ℕ) → is_digit d ≡ true
    → (r : CalculateStatsResult) × (calculate_stats w file_ids s ≡ (ok r, t))
      × (lookup d r.total ≡ some (in_files d fetch files))
unfolding calculate_stats ◌>>=◌
calculate_stats_total w fetch reads file_ids files s t found d h =
    let (r, run, sum) = count_files_total w fetch d files nothing_counted t reads h in
    let (kept, key) = fill_total d all_digits r in
    let held : is_key (lookup d (fill all_digits r).total) ≡ true =
      ground (arith, key, digit-is_in d h) in
    let last =
      key-lookup (lookup d (fill all_digits r).total) held
      ∙ ap some (sym (get-or_zero d (fill all_digits r).total) ∙ kept ∙ sum ∙ none_yet d) in
    (fill all_digits r, rw (found, run) refl, last)
