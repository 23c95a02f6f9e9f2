-- ===== src/Shm.antt =====
-- The buffers that a client draws to: crates/wlcommon/src/shm.rs. Whether the operating system gives
-- memory for a new buffer is asked of `memory`, by the buffer's number and its size in bytes.
pub mod Pool
pub mod Pixels
pub mod Sizes
mod Tests
use nullxesos.Prelude.{
  ℕ, suc, ◌+◌, ◌-◌, ◌*◌, ◌%◌, ◌^◌, Bool, true, false, ◌&&◌, Option, none, some, List, [], ◌∷◌, ◌++◌,
  min, length, ltb, leb, ◌==◌, if◌then◌else◌, position_from, get_elem?, set,
}

abbrev pub max_buffers : ℕ
max_buffers = 4

-- `number` tells the buffers apart; `bytes` is the length of the mapping.
pub record Buffer : Type 0 where
  pub number : ℕ
  pub bytes : ℕ
  pub released : Bool
  pub w : ℕ
  pub h : ℕ

pub record ShmDoubleBuffer : Type 0 where
  pub buffers : List Buffer
  pub w : ℕ
  pub h : ℕ
  pub next : ℕ

pub data ClientError : Type 0 where
  buffer_pool_exhausted shm : ClientError

pub data Result (A : Type 0) : Type 0 where
  ok : A → Result A
  err : ClientError → Result A

-- `(w * 4) as i32 as usize`: the product is a `u32` that wraps.
abbrev pub stride_of : ℕ → ℕ
stride_of w =
    let stride = (w * 4) % 2 ^ 32 in
    if ltb stride (2 ^ 31) then stride else stride + (2 ^ 64 - 2 ^ 32)

-- `saturating_mul` on 64 bits.
abbrev pub size_of : ℕ → ℕ → ℕ
size_of w h = min (stride_of w * h) (2 ^ 64 - 1)

abbrev pub is_free : Buffer → Bool
is_free b = b.released

module _ (memory : ℕ → ℕ → Bool) where
  -- The index of the new buffer.
  unfoldable pub allocate_one : ShmDoubleBuffer → ShmDoubleBuffer × Result ℕ
  allocate_one s =
      let fresh : Buffer = record {
        number = s.next;
        bytes = size_of s.w s.h;
        released = true;
        w = s.w;
        h = s.h;
      } in
      if leb max_buffers (length s.buffers)
      then (s, err buffer_pool_exhausted)
      else if memory s.next (size_of s.w s.h)
      then (
        record s { buffers = s.buffers ++ (fresh ∷ []); next = suc s.next },
        ok (length s.buffers),
      )
      else (s, err shm)

  -- `allocate_one()?` twice.
  unfoldable pub allocate_two : ShmDoubleBuffer → ShmDoubleBuffer × Result Unit
  allocate_two s =
      let first = allocate_one s in
      let second = allocate_one first.0 in
      elim first.1 [
        | err e ↦ (first.0, err e)
        | ok _ ↦ elim second.1 [ err e ↦ (second.0, err e) | ok _ ↦ (second.0, ok tt) ]
      ]

  -- Where `new` fails the buffers are dropped.
  unfoldable pub new : ℕ → ℕ → ShmDoubleBuffer × Result Unit
  new w h = allocate_two (record { buffers = []; w = w; h = h; next = 0 })

  unfoldable pub resize : ShmDoubleBuffer → ℕ → ℕ → ShmDoubleBuffer × Result Unit
  resize s w h =
      if (w == s.w) && (h == s.h)
      then (s, ok tt)
      else allocate_two (record s { buffers = []; w = w; h = h })

  unfoldable pub find_free_or_grow : ShmDoubleBuffer → ShmDoubleBuffer × Result ℕ
  find_free_or_grow s = elim (position_from 0 is_free s.buffers) [
    | some i ↦ (s, ok i)
    | none ↦ allocate_one s
  ]

  abbrev pub set_released : Bool → Buffer → Buffer
  set_released b buf = record buf { released = b }

  -- The buffer that was painted, as it was before; from now on it is busy.
  unfoldable pub draw : ShmDoubleBuffer → ShmDoubleBuffer × Result (Option Buffer)
  draw s =
      let (s', found) = find_free_or_grow s in
      elim found [
        | err e ↦ (s', err e)
        | ok i ↦ elim (get_elem? s'.buffers i) [
          | none ↦ (s', ok none)
          | some b ↦ (
            record s' { buffers = set s'.buffers i (record b { released = false }) },
            ok (some b),
          )
        ]
      ]

  -- The release of the buffer with this number, if it is still there.
  abbrev pub release_in : ℕ → List Buffer → List Buffer
  release_in n [] = []
  release_in n (b ∷ bs) =
      (if b.number == n then record b { released = true } else b) ∷ release_in n bs

  unfoldable pub mark_released : ShmDoubleBuffer → ℕ → ShmDoubleBuffer
  mark_released s n = record s { buffers = release_in n s.buffers }
