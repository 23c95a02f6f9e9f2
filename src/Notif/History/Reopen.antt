-- ===== src/Notif/History/Reopen.antt =====
-- The history in memory and the one on disk.
use mathlib.Core.List.{append-nil, append_assoc}
use nullxesos.Prelude.{
  ℕ, suc, ◌-◌, ◌≤◌, ◌≡◌, refl, sym, ap, ◌∙◌, true, false, none, some, List, [], ◌∷◌, ◌++◌, length,
  drop, arith, filter_by, ltb, All, length-append, if◌then◌else◌, length-drop, Bool-cases,
  Option-cases, inl, inr,
}
use nullxesos.Notif.{Notif}
use nullxesos.Notif.History.{
  Record, Serde, History, last_n, kept, load, open_or_create, history_cap,
}

module _ {A : Type 0} where
  last_n_short : (k : ℕ) (xs : List A) → length xs ≤ k → last_n k xs ≡ xs
  last_n_short k xs h =
      let none_dropped : length xs - k ≡ 0 = omega arith in ap (λ n. drop n xs) none_dropped

  last_n_cons : (k : ℕ) (x : A) (xs : List A) → k ≤ length xs → last_n k (x ∷ xs) ≡ last_n k xs
  last_n_cons k x xs h =
      let one_more : suc (length xs) - k ≡ suc (length xs - k) = omega arith in
      ap (λ n. drop n (x ∷ xs)) one_more

  -- What is dropped first makes no difference to what is kept in the end.
  last_n_again : (k : ℕ) (xs ys : List A) → last_n k (last_n k xs ++ ys) ≡ last_n k (xs ++ ys)
  last_n_again k [] ys = ap (λ zs. last_n k (zs ++ ys)) (last_n_short k [] (omega arith))
  last_n_again k (x ∷ xs) ys = ground (
    arith,
    last_n_again k xs ys,
    last_n_short k (x ∷ xs),
    last_n_cons k x xs,
    last_n_cons k x (xs ++ ys),
    length-append xs ys,
  )

module _ (Line : Type 0) (s : Serde Line) where
  -- The records of a file, in order.
  abbrev pub records : List Line → List Record
  records [] = []
  records (l ∷ ls) = elim (s.is_text l) [
    | false ↦ records ls
    | true ↦ elim (s.from_line l) [ none ↦ records ls | some rec ↦ rec ∷ records ls ]
  ]

  length-last_n : (k : ℕ) (xs : List Record) → length (last_n k xs) ≤ k
  length-last_n k xs = omega (arith, length-drop (length xs - k) xs)

  abbrev trimmed : List Record → Record → List Record
  trimmed cached rec =
      let pushed = cached ++ (rec ∷ []) in
      if ltb kept (length pushed) then drop 1 pushed else pushed

  trim :
      (cached : List Record) (rec : Record)
      → length cached ≤ kept
      → trimmed cached rec ≡ last_n kept (cached ++ (rec ∷ []))
  trim cached rec h =
      let pushed = cached ++ (rec ∷ []) in
      let long : length pushed ≡ suc (length cached) =
        omega (arith, length-append cached (rec ∷ [])) in
      ground (arith, long, last_n_short kept pushed)

  load-record :
      (cached : List Record) (l : Line) (ls : List Line) (rec : Record)
      → s.is_text l ≡ true
      → s.from_line l ≡ some rec
      → load Line s cached (l ∷ ls) ≡ load Line s (trimmed cached rec) ls
  unfolding load
  load-record cached l ls rec t e = ground (arith, t, e)

  records-record :
      (l : Line) (ls : List Line) (rec : Record)
      → s.is_text l ≡ true
      → s.from_line l ≡ some rec
      → records (l ∷ ls) ≡ rec ∷ records ls
  records-record l ls rec t e = ground (arith, t, e)

  load_from :
      (cached : List Record) (ls : List Line)
      → length cached ≤ kept
      → load Line s cached ls ≡ last_n kept (cached ++ records ls)
  unfolding load
  load_from cached [] h = ground (arith, append-nil cached, last_n_short kept cached h)
  load_from cached (l ∷ ls) h = elim (Bool-cases (s.is_text l)) [
    | inl t ↦ elim (Option-cases (s.from_line l)) [
      | inl e ↦ ground (arith, t, e, load_from cached ls h)
      | inr (rec, e) ↦
          let pushed : List Record = cached ++ (rec ∷ []) in
          load-record cached l ls rec t e
          ∙ ap (λ c. load Line s c ls) (trim cached rec h)
          ∙ load_from (last_n kept pushed) ls (length-last_n kept pushed)
          ∙ last_n_again kept pushed (records ls)
          ∙ ap (last_n kept) (
              append_assoc cached (rec ∷ []) (records ls)
              ∙ ap (λ rs. cached ++ rs) (sym (records-record l ls rec t e)))
    ]
    | inr t ↦ ground (arith, t, load_from cached ls h)
  ]

  -- A file that only whole records were written to.
  abbrev pub IsClean : List Line → Type 0
  IsClean ls = All (λ l. (s.is_text l ≡ true) × (rec : Record) × (s.from_line l ≡ some rec)) ls

  -- The cache holds the last 256 records of the file.
  pub record Agrees (h : History Line) : Type 0 where
    pub clean : IsClean h.current
    pub in_place : h.on_current ≡ true
    pub same : h.cached ≡ last_n kept (records h.current)

  -- A history that is opened on a readable file of whole records caches the last 256 of them, and
  -- leaves the file, and the one that was rotated out, as they were.
  pub open_or_create-Agrees :
      (current rotated : List Line)
      → IsClean current
      → let h = open_or_create Line s current rotated true in
        Agrees h
        × (h.current ≡ current)
        × (h.rotated ≡ rotated)
        × (h.cached ≡ last_n 256 (records current))
  unfolding open_or_create
  open_or_create-Agrees current rotated c =
      let loaded = load_from [] current (omega arith) in
      (record { clean = c; in_place = refl; same = loaded }, refl, refl, loaded)

  -- The file after the line is written, and after the rotation that may follow.
  abbrev grown : List Line → Line → List Line
  grown ls l =
      let ls' = ls ++ (l ∷ []) in
      if ltb history_cap (s.size ls') then last_n kept (filter_by s.is_text ls') else ls'
