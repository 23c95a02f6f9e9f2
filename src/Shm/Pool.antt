-- ===== src/Shm/Pool.antt =====
-- The pool of buffers.
use nullxesos.Prelude.{
  ℕ, suc, ◌+◌, ◌≤◌, ◌≡◌, refl, ◌⊎◌, inl, inr, true, false, Option, none, some, List, [], ◌∷◌, arith,
  length, position_from, get_elem?, set, if◌then◌else◌,
}
use nullxesos.Shm.{Buffer, ShmDoubleBuffer, ClientError, Result, ok, err, is_free, size_of}

pub Result-cases :
    {A : Type 0} (r : Result (Option A))
    → ((e : ClientError) × (r ≡ err e)) ⊎ ((r ≡ ok none) ⊎ ((a : A) × (r ≡ ok (some a))))
Result-cases (err e) = inl (e, refl)
Result-cases (ok none) = inr (inl refl)
Result-cases (ok (some a)) = inr (inr (a, refl))

-- How many buffers the compositor still holds.
abbrev pub busy : List Buffer → ℕ
busy [] = 0
busy (b ∷ bs) = let rest = busy bs in if b.released then rest else suc rest

busy-le : (bs : List Buffer) → busy bs ≤ length bs
busy-le [] = omega arith
busy-le (b ∷ bs) = ground (arith, busy-le bs)

abbrev taken : Buffer → Buffer
taken b = record b { released = false }

-- The first free buffer, and what its taking does; or none is free.
abbrev FreeAt : ℕ → List Buffer → Type 0
FreeAt k bs =
    ((position_from k is_free bs ≡ none) × (busy bs ≡ length bs))
    ⊎ ((i : ℕ) × (b : Buffer) × (position_from k is_free bs ≡ some (k + i))
        × (get_elem? bs i ≡ some b)
        × (b.released ≡ true)
        × (busy (set bs i (taken b)) ≡ suc (busy bs)))

abbrev fresh : ShmDoubleBuffer → Buffer
fresh s = record { number = s.next; bytes = size_of s.w s.h; released = true; w = s.w; h = s.h }
