-- ===== src/Frame/System/Interleaving.antt =====
-- The two listeners of crates/frame/src/system side by side, and the range of what they write.
use nullxesos.Prelude.{
  ℕ, ◌≤◌, ◌≡◌, refl, sym, ◌∙◌, Bool, true, false, not, Option, none, some, List, [], ◌∷◌, filter_by,
  arith, Option-cases, Bool-cases, inl, inr, ◌>>=◌, if_lem, subst,
}
use nullxesos.Prelude.Int.{pos, negsuc}
use nullxesos.Frame.Panel.Modules.{ModuleSnapshot}
use nullxesos.Frame.System.{
  Listeners, Event, UPower, upower_starts, percentage_changed, on_battery_changed, upower_ends,
  nm_starts, nm_state_changed, nm_ends, step, run, upower_run, update_once, clamp_percent,
  pick_battery, Rounded,
}

abbrev pub from_upower : Event → Bool
from_upower (upower_starts u) = true
from_upower (percentage_changed change) = true
from_upower (on_battery_changed ac) = true
from_upower upower_ends = true
from_upower (nm_starts proxy nm subscribed) = false
from_upower (nm_state_changed nm) = false
from_upower nm_ends = false

-- Two states that agree on what UPower's listener writes, on what the one of NetworkManager writes,
-- and on what neither does.
abbrev pub SamePower : Listeners → Listeners → Type 0
SamePower l k =
    (l.snapshot.battery_pct ≡ k.snapshot.battery_pct)
    × (l.snapshot.on_ac ≡ k.snapshot.on_ac)
    × (l.upower_watching ≡ k.upower_watching)

abbrev pub SameNet : Listeners → Listeners → Type 0
SameNet l k = (l.snapshot.network ≡ k.snapshot.network) × (l.nm_watching ≡ k.nm_watching)

abbrev pub SameVolume : Listeners → Listeners → Type 0
SameVolume l k =
    (l.snapshot.volume_pct ≡ k.snapshot.volume_pct)
    × (l.snapshot.volume_mute ≡ k.snapshot.volume_mute)

-- An event of the one listener leaves the part of the other.
step-net : (l : Listeners) (e : Event) → from_upower e ≡ true → SameNet (step l e) l
unfolding step upower_run
step-net l (upower_starts u) t =
    (ground (arith, Bool-cases u.proxy, Option-cases (u.devices >>= pick_battery)), refl)
step-net l (percentage_changed none) t = (refl, refl)
step-net l (percentage_changed (some v)) t = ground (arith, Bool-cases l.upower_watching)
step-net l (on_battery_changed none) t = (refl, refl)
step-net l (on_battery_changed (some b)) t = ground (arith, Bool-cases l.upower_watching)
step-net l upower_ends t = (refl, refl)
step-net l (nm_starts proxy nm subscribed) t = ground (arith, t)
step-net l (nm_state_changed nm) t = ground (arith, t)
step-net l nm_ends t = ground (arith, t)

step-power : (l : Listeners) (e : Event) → from_upower e ≡ false → SamePower (step l e) l
unfolding step update_once
step-power l (upower_starts u) t = ground (arith, t)
step-power l (percentage_changed change) t = ground (arith, t)
step-power l (on_battery_changed ac) t = ground (arith, t)
step-power l upower_ends t = ground (arith, t)
step-power l (nm_starts true nm subscribed) t = (refl, refl, refl)
step-power l (nm_starts false nm subscribed) t = (refl, refl, refl)
step-power l (nm_state_changed nm) t = ground (arith, Bool-cases l.nm_watching)
step-power l nm_ends t = (refl, refl, refl)

step-volume : (l : Listeners) (e : Event) → SameVolume (step l e) l
unfolding step update_once upower_run
step-volume l (upower_starts u) =
    ground (arith, Bool-cases u.proxy, Option-cases (u.devices >>= pick_battery))
step-volume l (percentage_changed none) = (refl, refl)
step-volume l (percentage_changed (some v)) = ground (arith, Bool-cases l.upower_watching)
step-volume l (on_battery_changed none) = (refl, refl)
step-volume l (on_battery_changed (some b)) = ground (arith, Bool-cases l.upower_watching)
step-volume l upower_ends = (refl, refl)
step-volume l (nm_starts true nm subscribed) = (refl, refl)
step-volume l (nm_starts false nm subscribed) = (refl, refl)
step-volume l (nm_state_changed nm) = ground (arith, Bool-cases l.nm_watching)
step-volume l nm_ends = (refl, refl)

-- The part of a listener after an event depends on its part before only.
step-net-nm :
    (l k : Listeners) (e : Event)
    → from_upower e ≡ false
    → SameNet l k
    → SameNet (step l e) (step k e)
unfolding step update_once
step-net-nm l k (upower_starts u) t same = ground (arith, t)
step-net-nm l k (percentage_changed change) t same = ground (arith, t)
step-net-nm l k (on_battery_changed ac) t same = ground (arith, t)
step-net-nm l k upower_ends t same = ground (arith, t)
step-net-nm l k (nm_starts true nm subscribed) t same = (refl, refl)
step-net-nm l k (nm_starts false nm subscribed) t same = same
step-net-nm l k (nm_state_changed nm) t same = ground (arith, Bool-cases l.nm_watching, same)
step-net-nm l k nm_ends t same = (same.0, refl)

step-net-own : (l k : Listeners) (e : Event) → SameNet l k → SameNet (step l e) (step k e)
unfolding step update_once upower_run
step-net-own l k e same = elim (Bool-cases (from_upower e)) [
  | inl t ↦
      let a = step-net l e t in
      let b = step-net k e t in (a.0 ∙ same.0 ∙ sym b.0, a.1 ∙ same.1 ∙ sym b.1)
  | inr f ↦ step-net-nm l k e f same
]

step-power-upower :
    (l k : Listeners) (e : Event)
    → from_upower e ≡ true
    → SamePower l k
    → SamePower (step l e) (step k e)
unfolding step upower_run
step-power-upower l k (upower_starts u) t same =
    ground (arith, same, Bool-cases u.proxy, Option-cases (u.devices >>= pick_battery))
step-power-upower l k (percentage_changed none) t same = same
step-power-upower l k (percentage_changed (some v)) t same =
    ground (arith, same, Bool-cases l.upower_watching)
step-power-upower l k (on_battery_changed none) t same = same
step-power-upower l k (on_battery_changed (some b)) t same =
    ground (arith, same, Bool-cases l.upower_watching)
step-power-upower l k upower_ends t same = (same.0, same.1, refl)
step-power-upower l k (nm_starts proxy nm subscribed) t same = ground (arith, t)
step-power-upower l k (nm_state_changed nm) t same = ground (arith, t)
step-power-upower l k nm_ends t same = ground (arith, t)

step-power-own : (l k : Listeners) (e : Event) → SamePower l k → SamePower (step l e) (step k e)
step-power-own l k e same = elim (Bool-cases (from_upower e)) [
  | inr f ↦
      let a = step-power l e f in
      let b = step-power k e f in
      (a.0 ∙ same.0 ∙ sym b.0, a.1 ∙ same.1 ∙ sym b.1, a.2 ∙ same.2 ∙ sym b.2)
  | inl t ↦ step-power-upower l k e t same
]

run-power :
    (es : List Event) (l k : Listeners)
    → SamePower l k
    → SamePower (run l es) (run k (filter_by from_upower es))
unfolding run
run-power [] l k same = same
run-power (e ∷ es) l k same =
    let rest = filter_by from_upower es in
    let Goal : Bool → Type 0 =
      λ b. SamePower (run (step l e) es) (run k (elim b [ true ↦ e ∷ rest | false ↦ rest ])) in
    elim (Bool-cases (from_upower e)) [
      | inl t ↦ subst Goal (sym t) (run-power es (step l e) (step k e) (step-power-own l k e same))
      | inr f ↦
          let a = step-power l e f in
          subst Goal (sym f) (run-power es (step l e) k (a.0 ∙ same.0, a.1 ∙ same.1, a.2 ∙ same.2))
    ]

run-net :
    (es : List Event) (l k : Listeners)
    → SameNet l k
    → SameNet (run l es) (run k (filter_by (λ e. not (from_upower e)) es))
unfolding run
run-net [] l k same = same
run-net (e ∷ es) l k same =
    let rest = filter_by (λ d. not (from_upower d)) es in
    let Goal : Bool → Type 0 =
      λ b. SameNet (run (step l e) es) (run k (elim (not b) [ true ↦ e ∷ rest | false ↦ rest ])) in
    elim (Bool-cases (from_upower e)) [
      | inr f ↦ subst Goal (sym f) (run-net es (step l e) (step k e) (step-net-own l k e same))
      | inl t ↦
          let a = step-net l e t in
          subst Goal (sym t) (run-net es (step l e) k (a.0 ∙ same.0, a.1 ∙ same.1))
    ]

run-volume : (es : List Event) (l : Listeners) → SameVolume (run l es) l
unfolding run
run-volume [] l = (refl, refl)
run-volume (e ∷ es) l =
    let a = run-volume es (step l e) in let b = step-volume l e in (a.0 ∙ b.0, a.1 ∙ b.1)

-- However the messages to the two listeners interleave, the battery and the power supply are as the
-- messages of UPower alone make them, the network as those of NetworkManager alone, each in their
-- own order, and the volume stays as it was.
pub run_interleaves :
    (l : Listeners) (es : List Event)
    → SamePower (run l es) (run l (filter_by from_upower es))
      × SameNet (run l es) (run l (filter_by (λ e. not (from_upower e)) es))
      × SameVolume (run l es) l
run_interleaves l es =
    (run-power es l l (refl, refl, refl), run-net es l l (refl, refl), run-volume es l)

-- A battery is at 100 percent at most.
abbrev pub InRange : Option ℕ → Type 0
InRange none = Unit
InRange (some pct) = pct ≤ 100

clamp_percent-le : (v : Rounded) → clamp_percent v ≤ 100
unfolding clamp_percent
clamp_percent-le none = omega arith
clamp_percent-le (some (pos n)) = ground arith
clamp_percent-le (some (negsuc n)) = omega arith

abbrev Sound : Listeners → Type 0
Sound k = InRange k.snapshot.battery_pct

upower_run-InRange :
    (u : UPower) (s : ModuleSnapshot)
    → InRange s.battery_pct
    → InRange (upower_run u s).0.battery_pct
unfolding upower_run
upower_run-InRange u s r =
    let P : ModuleSnapshot × Bool → Type 0 = λ q. InRange q.0.battery_pct in
    if_lem P (not u.proxy) r (elim (Option-cases (u.devices >>= pick_battery)) [
      | inl e ↦ rw (e) r
      | inr (dev, e) ↦ rw (e) (if_lem P (not dev.rebuilt) r (clamp_percent-le _))
    ])

step-InRange : (l : Listeners) (e : Event) → Sound l → Sound (step l e)
unfolding step update_once
step-InRange l (upower_starts u) r = upower_run-InRange u l.snapshot r
step-InRange l (percentage_changed none) r = r
step-InRange l (percentage_changed (some v)) r =
    if_lem Sound l.upower_watching (clamp_percent-le v) r
step-InRange l (on_battery_changed none) r = r
step-InRange l (on_battery_changed (some b)) r = if_lem Sound l.upower_watching r r
step-InRange l upower_ends r = r
step-InRange l (nm_starts true nm subscribed) r = r
step-InRange l (nm_starts false nm subscribed) r = r
step-InRange l (nm_state_changed nm) r = if_lem Sound l.nm_watching r r
step-InRange l nm_ends r = r

-- Whatever UPower reports, a NaN included, the panel gets at most 100 percent to draw.
pub run-InRange :
    (l : Listeners) (es : List Event)
    → InRange l.snapshot.battery_pct
    → InRange (run l es).snapshot.battery_pct
unfolding run
run-InRange l [] r = r
run-InRange l (e ∷ es) r = run-InRange (step l e) es (step-InRange l e r)
