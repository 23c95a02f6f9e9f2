-- ===== src/Notif/Dbus/Ids.antt =====
-- The identifiers that the daemon gives.
use nullxesos.Prelude.{
  ℕ, suc, ◌+◌, ◌^◌, ◌≤◌, ◌<◌, ◌≡◌, refl, List, [], ◌∷◌, arith, All, ◌∙◌, ap, ap₂,
}
use nullxesos.Notif.History.{Serde}
use nullxesos.Notif.Dbus.{Call, ServerInner, Outside, notify}

module _ (Line : Type 0) (serde : Serde Line) where
  -- The identifiers that a row of calls is given.
  abbrev pub ids : ServerInner Line → List (Call × Outside Line) → List ℕ
  ids s [] = []
  ids s ((c, out) ∷ calls) =
      let answered = notify Line serde s c out in answered.1 ∷ ids answered.0 calls

  abbrev pub IsId : ℕ → Type 0
  IsId n = (1 ≤ n) × (n < 2 ^ 32)

  -- The call's identifier is the one that it names, if it names one, and else a new one.
  notify-IsId :
      (s : ServerInner Line) (c : Call) (out : Outside Line)
      → IsId s.next_id
      → c.replaces_id < 2 ^ 32
      → IsId (notify Line serde s c out).1 × IsId (notify Line serde s c out).0.next_id
  unfolding notify
  notify-IsId s c out v h = ground arith

  -- Where the next identifier is not 0 and fits a `u32`, and the identifiers that calls name fit
  -- one, each call is given an identifier that is not 0 and fits a `u32`.
  pub ids_valid :
      (s : ServerInner Line) (calls : List (Call × Outside Line))
      → IsId s.next_id
      → All (λ c. c.0.replaces_id < 2 ^ 32) calls
      → All IsId (ids s calls)
  ids_valid s [] v h = tt
  ids_valid s ((c, out) ∷ calls) v (h, hs) =
      let valid = notify-IsId s c out v h in
      (valid.0, ids_valid (notify Line serde s c out).0 calls valid.1 hs)

  -- From `k` on, in order.
  abbrev pub upward : ℕ → List (Call × Outside Line) → List ℕ
  upward k [] = []
  upward k (c ∷ cs) = k ∷ upward (k + 1) cs

  abbrev pub count : List (Call × Outside Line) → ℕ
  count [] = 0
  count (c ∷ cs) = suc (count cs)

  next_up :
      (s : ServerInner Line) (c : Call) (out : Outside Line)
      → c.replaces_id ≡ 0
      → s.next_id + 1 < 2 ^ 32
      → ((notify Line serde s c out).1 ≡ s.next_id)
        × ((notify Line serde s c out).0.next_id ≡ s.next_id + 1)
  unfolding notify
  next_up s c out z h = ground arith

  -- Calls that name no identifier are given consecutive ones, each of them once, until the `u32` is
  -- used up.
  pub ids_ascend :
      (s : ServerInner Line) (calls : List (Call × Outside Line))
      → All (λ c. c.0.replaces_id ≡ 0) calls
      → s.next_id + count calls < 2 ^ 32
      → ids s calls ≡ upward s.next_id calls
  ids_ascend s [] z h = refl
  ids_ascend s ((c, out) ∷ calls) (z, zs) h =
      let next = next_up s c out z (omega arith) in
      ap₂ (λ i is. i ∷ is) next.0
        (ids_ascend (notify Line serde s c out).0 calls zs (omega (arith, next.1))
          ∙ ap (λ k. upward k calls) next.1)
