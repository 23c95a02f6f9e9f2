-- ===== src/Shm/Sizes.antt =====
-- The sizes of the buffers of a pool.
use nullxesos.Prelude.{
  ℕ, zero, suc, ◌≡◌, refl, sym, subst, ◌⊎◌, Bool, false, some, List, [], ◌∷◌, ◌++◌, ap₂, arith, All,
  set, get_elem?, length, Bool-cases, Option-cases, inl, inr, position_from, if_lem, ◌==◌, ◌&&◌,
  leb,
}
use nullxesos.Shm.{
  Buffer, ShmDoubleBuffer, ClientError, Result, ok, err, size_of, is_free, max_buffers,
  allocate_one, allocate_two, new, resize, find_free_or_grow, draw, release_in, mark_released,
}

-- The buffer has this width and height, and the memory for them.
abbrev pub SizedAs : ℕ → ℕ → Buffer → Type 0
SizedAs w h b = (b.w ≡ w) × (b.h ≡ h) × (b.bytes ≡ size_of w h)

-- The pool makes buffers of this size, and all that it has are of it.
abbrev pub PoolIs : ℕ → ℕ → ShmDoubleBuffer → Type 0
PoolIs w h s = (s.w ≡ w) × (s.h ≡ h) × All (SizedAs w h) s.buffers

-- A pool of one size is of its own.
pub own-PoolIs : (w h : ℕ) (s : ShmDoubleBuffer) → PoolIs w h s → PoolIs s.w s.h s
own-PoolIs w h s (ew, eh, all) = (
  refl,
  refl,
  subst (λ k. All (SizedAs s.w k) s.buffers) (sym eh)
      (subst (λ k. All (SizedAs k h) s.buffers) (sym ew) all),
)

append-SizedAs :
    (w h : ℕ) (bs : List Buffer) (b : Buffer)
    → All (SizedAs w h) bs
    → SizedAs w h b
    → All (SizedAs w h) (bs ++ (b ∷ []))
append-SizedAs w h [] b all one = (one, tt)
append-SizedAs w h (c ∷ bs) b (c_is, all) one = (c_is, append-SizedAs w h bs b all one)

pub result-cases :
    {A : Type 0} (r : Result A) → ((e : ClientError) × (r ≡ err e)) ⊎ ((a : A) × (r ≡ ok a))
result-cases (err e) = inl (e, refl)
result-cases (ok a) = inr (a, refl)

set-SizedAs :
    (w h : ℕ) (bs : List Buffer) (i : ℕ) (b : Buffer) (free : Bool)
    → All (SizedAs w h) bs
    → get_elem? bs i ≡ some b
    → All (SizedAs w h) (set bs i (record b { released = free }))
set-SizedAs w h [] i b free all e = tt
set-SizedAs w h (c ∷ bs) zero b free (c_is, all) e = (ground (arith, c_is, e), all)
set-SizedAs w h (c ∷ bs) (suc i) b free (c_is, all) e = (c_is, set-SizedAs w h bs i b free all e)

module _ (memory : ℕ → ℕ → Bool) (w h : ℕ) where
  release_in-SizedAs :
      (n : ℕ) (bs : List Buffer) → All (SizedAs w h) bs → All (SizedAs w h) (release_in memory n bs)
  release_in-SizedAs n [] all = tt
  release_in-SizedAs n (b ∷ bs) (b_is, all) =
      (if_lem (SizedAs w h) (b.number == n) b_is b_is, release_in-SizedAs n bs all)

  allocate_one-PoolIs : (s : ShmDoubleBuffer) → PoolIs w h s → PoolIs w h (allocate_one memory s).0
  unfolding allocate_one
  allocate_one-PoolIs s (ew, eh, all) =
      let P : ShmDoubleBuffer × Result ℕ → Type 0 = λ r. PoolIs w h r.0 in
      if_lem P (leb max_buffers (length s.buffers)) (ew, eh, all)
        (if_lem P (memory s.next (size_of s.w s.h))
          (ew, eh, append-SizedAs w h s.buffers _ all (ew, eh, ap₂ size_of ew eh)) (ew, eh, all))

  allocate_two-PoolIs : (s : ShmDoubleBuffer) → PoolIs w h s → PoolIs w h (allocate_two memory s).0
  unfolding allocate_two
  allocate_two-PoolIs s is =
      let one = allocate_one-PoolIs s is in
      let two = allocate_one-PoolIs (allocate_one memory s).0 one in
      elim (result-cases (allocate_one memory s).1) [
        | inl (e, bad) ↦
            let same : (allocate_one memory s).0 ≡ (allocate_two memory s).0 =
              ground (arith, bad) in
            subst (PoolIs w h) same one
        | inr (i, good) ↦ elim (result-cases (allocate_one memory (allocate_one memory s).0).1) [
          | inl (e, bad) ↦
              let same : (allocate_one memory (allocate_one memory s).0).0
                  ≡ (allocate_two memory s).0 =
                ground (arith, good, bad) in
              subst (PoolIs w h) same two
          | inr (k, good') ↦
              let same : (allocate_one memory (allocate_one memory s).0).0
                  ≡ (allocate_two memory s).0 =
                ground (arith, good, good') in
              subst (PoolIs w h) same two
        ]
      ]

  pub new-PoolIs : PoolIs w h (new memory w h).0
  unfolding new
  new-PoolIs =
      allocate_two-PoolIs (record { buffers = []; w = w; h = h; next = 0 }) (refl, refl, tt)

  -- A new size drops the buffers of the old one.
  pub resize-PoolIs : (s : ShmDoubleBuffer) → PoolIs s.w s.h s → PoolIs w h (resize memory s w h).0
  unfolding resize
  resize-PoolIs s is = elim (Bool-cases ((w == s.w) && (h == s.h))) [
    | inl e ↦
        let ew : w ≡ s.w = ground (arith, e) in
        let eh : h ≡ s.h = ground (arith, e) in
        let same : s ≡ (resize memory s w h).0 = ground (arith, e) in
        subst (PoolIs w h) same
          (subst (λ k. PoolIs w k s) (sym eh) (subst (λ k. PoolIs k s.h s) (sym ew) is))
    | inr e ↦
        let fresh : ShmDoubleBuffer = record s { buffers = []; w = w; h = h } in
        let same : (allocate_two memory fresh).0 ≡ (resize memory s w h).0 = ground (arith, e) in
        subst (PoolIs w h) same (allocate_two-PoolIs fresh (refl, refl, tt))
  ]

  find-PoolIs : (s : ShmDoubleBuffer) → PoolIs w h s → PoolIs w h (find_free_or_grow memory s).0
  unfolding find_free_or_grow
  find-PoolIs s is = elim (Option-cases (position_from 0 is_free s.buffers)) [
    | inl e ↦
        let same : (allocate_one memory s).0 ≡ (find_free_or_grow memory s).0 = ground (arith, e) in
        subst (PoolIs w h) same (allocate_one-PoolIs s is)
    | inr (i, e) ↦
        let same : s ≡ (find_free_or_grow memory s).0 = ground (arith, e) in
        subst (PoolIs w h) same is
  ]

  pub draw-PoolIs : (s : ShmDoubleBuffer) → PoolIs w h s → PoolIs w h (draw memory s).0
  unfolding draw
  draw-PoolIs s is =
      let s' : ShmDoubleBuffer = (find_free_or_grow memory s).0 in
      let found = find-PoolIs s is in
      elim (result-cases (find_free_or_grow memory s).1) [
        | inl (e, bad) ↦
            let same : s' ≡ (draw memory s).0 = ground (arith, bad) in subst (PoolIs w h) same found
        | inr (i, good) ↦ elim (Option-cases (get_elem? s'.buffers i)) [
          | inl e ↦
              let same : s' ≡ (draw memory s).0 = ground (arith, good, e) in
              subst (PoolIs w h) same found
          | inr (b, e) ↦
              let same : record s' { buffers = set s'.buffers i (record b { released = false }) }
                  ≡ (draw memory s).0 =
                ground (arith, good, e) in
              subst (PoolIs w h) same
                (found.0, found.1, set-SizedAs w h s'.buffers i b false found.2 e)
        ]
      ]

  pub mark_released-PoolIs :
      (s : ShmDoubleBuffer) (n : ℕ) → PoolIs w h s → PoolIs w h (mark_released memory s n)
  unfolding mark_released
  mark_released-PoolIs s n (ew, eh, all) = (ew, eh, release_in-SizedAs n s.buffers all)
