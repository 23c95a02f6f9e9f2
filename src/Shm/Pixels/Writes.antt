-- ===== src/Shm/Pixels/Writes.antt =====
-- What the writes of one pixel do to each byte of the buffer.
use nullxesos.Prelude.{
  ℕ, ◌+◌, ◌-◌, ◌<◌, ◌≡◌, subst, ◌∙◌, ap, Bool, false, ◌&&◌, some, List, arith, length, length-set,
  get_elem?, set, get_elem?-set_self, get_elem?-set_ne, leb, ltb, ◌==◌, Bool-cases, inl, inr,
  if◌then◌else◌,
}
use nullxesos.Shm.Pixels.{Color, blend, byte_or_0, paint_pixel}

abbrev pub byte_at : List ℕ → ℕ → ℕ
byte_at pixels j = byte_or_0 (get_elem? pixels j)

-- What becomes of a pixel's byte: blue, green, red, and the opaque alpha.
abbrev pub painted : Color → ℕ → ℕ → ℕ
painted c old k =
    if k == 0
    then blend c.a old c.b
    else if k == 1
    then blend c.a old c.g
    else if k == 2
    then blend c.a old c.r
    else 255

set_self : (xs : List ℕ) (i v : ℕ) → i < length xs → byte_at (set xs i v) i ≡ v
set_self xs i v h = ap byte_or_0 (get_elem?-set_self xs i v h)

set_ne : (xs : List ℕ) (i j v : ℕ) → (i == j) ≡ false → byte_at (set xs i v) j ≡ byte_at xs j
set_ne xs i j v h = ap byte_or_0 (get_elem?-set_ne xs i j v (λ e. ground (arith, h, e)))

abbrev pub within : ℕ → ℕ → ℕ → Bool
within low j high = leb low j && ltb j high

set_at :
    (xs : List ℕ) (i j v : ℕ)
    → i < length xs
    → byte_at (set xs i v) j ≡ (if i == j then v else byte_at xs j)
set_at xs i j v h = elim (Bool-cases (i == j)) [
  | inl e ↦
      let same : i ≡ j = ground (arith, e) in
      ground (arith, e, subst (λ k. byte_at (set xs i v) k ≡ v) same (set_self xs i v h))
  | inr e ↦ ground (arith, e, set_ne xs i j v e)
]

four_sets :
    (xs : List ℕ) (i v0 v1 v2 v3 j : ℕ)
    → i + 3 < length xs
    → byte_at (set (set (set (set xs i v0) (i + 1) v1) (i + 2) v2) (i + 3) v3) j ≡ (
        if i + 3 == j
        then v3
        else if i + 2 == j
        then v2
        else if i + 1 == j
        then v1
        else if i == j
        then v0
        else byte_at xs j)
four_sets xs i v0 v1 v2 v3 j h =
    let p1 : List ℕ = set xs i v0 in
    let p2 : List ℕ = set p1 (i + 1) v1 in
    let p3 : List ℕ = set p2 (i + 2) v2 in
    let l1 : length p1 ≡ length xs = length-set xs i v0 in
    let l2 : length p2 ≡ length p1 = length-set p1 (i + 1) v1 in
    let l3 : length p3 ≡ length p2 = length-set p2 (i + 2) v2 in
    set_at p3 (i + 3) j v3 (omega (arith, h, l1, l2, l3))
    ∙ ap (λ r. if i + 3 == j then v3 else r)
        (set_at p2 (i + 2) j v2 (omega (arith, h, l1, l2))
          ∙ ap (λ r. if i + 2 == j then v2 else r)
              (set_at p1 (i + 1) j v1 (omega (arith, h, l1))
                ∙ ap (λ r. if i + 1 == j then v1 else r) (set_at xs i j v0 (omega (arith, h)))))

-- The byte at `i + k` of the new values, and the old ones elsewhere.
abbrev chosen : ℕ → ℕ → ℕ → ℕ → ℕ → ℕ → ℕ → ℕ
chosen i j v0 v1 v2 v3 old =
    if i + 3 == j
    then v3
    else if i + 2 == j
    then v2
    else if i + 1 == j
    then v1
    else if i == j
    then v0
    else old

chosen_lem :
    (mix : ℕ → ℕ → ℕ) (u : ℕ → ℕ) (b g r i j : ℕ)
    → chosen i j (mix (u i) b) (mix (u (i + 1)) g) (mix (u (i + 2)) r) 255 (u j) ≡ (
        if within i j (i + 4)
        then if j - i == 0
          then mix (u j) b
          else if j - i == 1
          then mix (u j) g
          else if j - i == 2
          then mix (u j) r
          else 255
        else u j)
chosen_lem mix u b g r i j = elim (Bool-cases (i + 3 == j)) [
  | inl e ↦ ground (arith, e)
  | inr e3 ↦ elim (Bool-cases (i + 2 == j)) [
    | inl e ↦
        let at : i + 2 ≡ j = ground (arith, e) in ground (arith, e, e3, ap (λ k. mix (u k) r) at)
    | inr e2 ↦ elim (Bool-cases (i + 1 == j)) [
      | inl e ↦
          let at : i + 1 ≡ j = ground (arith, e) in
          ground (arith, e, e2, e3, ap (λ k. mix (u k) g) at)
      | inr e1 ↦ elim (Bool-cases (i == j)) [
        | inl e ↦
            let at : i ≡ j = ground (arith, e) in
            ground (arith, e, e1, e2, e3, ap (λ k. mix (u k) b) at)
        | inr e0 ↦ ground (arith, e0, e1, e2, e3)
      ]
    ]
  ]
]

-- A pixel is four bytes.
pub paint_pixel_lem :
    (c : Color) (pixels : List ℕ) (i : ℕ)
    → i + 3 < length pixels
    → (after : List ℕ) × (paint_pixel c pixels i ≡ some after)
      × (length after ≡ length pixels)
      × ((j : ℕ)
          → byte_at after j ≡ (
              if within i j (i + 4)
              then painted c (byte_at pixels j) (j - i)
              else byte_at pixels j))
unfolding paint_pixel
paint_pixel_lem c pixels i h =
    let p1 : List ℕ = set pixels i (blend c.a (byte_at pixels i) c.b) in
    let p2 : List ℕ = set p1 (i + 1) (blend c.a (byte_at pixels (i + 1)) c.g) in
    let p3 : List ℕ = set p2 (i + 2) (blend c.a (byte_at pixels (i + 2)) c.r) in
    (
      set p3 (i + 3) 255,
      ground (arith, h),
      length-set p3 (i + 3) 255
          ∙ length-set p2 (i + 2) (blend c.a (byte_at pixels (i + 2)) c.r)
          ∙ length-set p1 (i + 1) (blend c.a (byte_at pixels (i + 1)) c.g)
          ∙ length-set pixels i (blend c.a (byte_at pixels i) c.b),
      λ j.
          four_sets pixels i (blend c.a (byte_at pixels i) c.b)
            (blend c.a (byte_at pixels (i + 1)) c.g) (blend c.a (byte_at pixels (i + 2)) c.r) 255 j
            h
          ∙ chosen_lem (blend c.a) (byte_at pixels) c.b c.g c.r i j,
    )
