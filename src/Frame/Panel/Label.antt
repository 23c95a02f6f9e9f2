-- ===== src/Frame/Panel/Label.antt =====
-- The name of a network in the panel.
use nullxesos.Prelude.{
  ℕ, zero, suc, ◌+◌, ◌-◌, ◌≤◌, ◌<◌, ◌≡◌, refl, ◌∙◌, ap, inl, inr, none, some, List, [], ◌∷◌, ◌++◌,
  arith, length, length-append, All, take, length-take-le, ltb, ltb→lt, Bool-cases, if◌then◌else◌,
}
use nullxesos.Shm.Pixels.{Color}
use nullxesos.Theme.{text_secondary, text_disabled}
use nullxesos.Prelude.Text.{codes}
use nullxesos.Frame.Panel.Modules.{
  wireless, ModuleSnapshot, char_len, byte_len, slice_to, shorten, network_label,
}

abbrev pub IsAscii : ℕ → Type 0
IsAscii c = c < 128

-- A character that UTF-8 writes in two bytes: a Greek, Cyrillic or Hebrew letter, for one.
abbrev pub IsTwoByte : ℕ → Type 0
IsTwoByte c = (128 ≤ c) × (c < 2048)

slice_to-odd : (k : ℕ) (s : List ℕ) → All IsTwoByte s → slice_to (suc (k + k)) s ≡ none
unfolding slice_to
slice_to-odd k [] all = refl
slice_to-odd zero (c ∷ s) (two, all) = ground (arith, two)
slice_to-odd (suc k) (c ∷ s) (two, all) =
    let len : char_len c ≡ 2 = ground (arith, two) in
    let less : suc (suc k + suc k) - 2 ≡ suc (k + k) = omega arith in
    let rest : slice_to (suc (suc k + suc k) - 2) s ≡ none =
      ap (λ m. slice_to m s) less ∙ slice_to-odd k s all in
    ground (arith, len, rest)

byte_len-two : (s : List ℕ) → All IsTwoByte s → byte_len s ≡ length s + length s
byte_len-two [] all = refl
byte_len-two (c ∷ s) (two, all) = ground (arith, two, byte_len-two s all)

byte_len-ascii : (s : List ℕ) → All IsAscii s → byte_len s ≡ length s
byte_len-ascii [] all = refl
byte_len-ascii (c ∷ s) (low, all) = ground (arith, low, byte_len-ascii s all)

slice_to-ascii :
    (n : ℕ) (s : List ℕ) → All IsAscii s → n ≤ length s → slice_to n s ≡ some (take n s)
unfolding slice_to
slice_to-ascii zero s all h = refl
slice_to-ascii (suc n) [] all h = absurd (omega (arith, h))
slice_to-ascii (suc n) (c ∷ s) (low, all) h =
    let len : char_len c ≡ 1 = ground (arith, low) in
    let rest : slice_to (suc n - 1) s ≡ some (take n s) =
      ap (λ m. slice_to m s) (omega arith) ∙ slice_to-ascii n s all (omega (arith, h)) in
    ground (arith, len, rest)

-- A wireless network whose name consists of letters of two bytes, nine of them or more, ends the
-- compositor: the name is cut inside a letter, and that panics.
pub network_label_panics :
    (snap : ModuleSnapshot) (name : List ℕ)
    → snap.network.kind ≡ wireless
    → snap.network.ssid ≡ some name
    → All IsTwoByte name
    → 9 ≤ length name
    → network_label snap ≡ none
unfolding network_label shorten
network_label_panics snap name kind ssid all long =
    ground (arith, kind, ssid, long, byte_len-two name all, slice_to-odd 7 name all)

shorten-ascii : (s : List ℕ) → All IsAscii s → (t : List ℕ) × (shorten s ≡ some t) × (length t ≤ 16)
unfolding shorten
shorten-ascii s all = elim (Bool-cases (ltb 16 (byte_len s))) [
  | inl e ↦
      let same = byte_len-ascii s all in
      let cut = slice_to-ascii 15 s all (omega (arith, ltb→lt 16 (byte_len s) e, same)) in
      (
        take 15 s ++ codes "…",
        ground (arith, e, cut),
        omega (arith, length-append (take 15 s) (codes "…"), length-take-le 15 s),
      )
  | inr e ↦ (s, ground (arith, e), ground (arith, e, byte_len-ascii s all))
]

-- An ASCII name of a wireless network is shown without a panic, and in at most sixteen characters.
pub network_label_ascii :
    (snap : ModuleSnapshot) (c : ℕ) (name : List ℕ)
    → snap.network.kind ≡ wireless
    → snap.network.ssid ≡ some (c ∷ name)
    → All IsAscii (c ∷ name)
    → (label : List ℕ) × (color : Color) × (network_label snap ≡ some (some (label, color)))
      × (length label ≤ 16)
unfolding network_label
network_label_ascii snap c name kind ssid all =
    let (t, e, short) = shorten-ascii (c ∷ name) all in
    (
      t,
      if snap.network.connected then text_secondary else text_disabled,
      ground (arith, kind, ssid, e),
      short,
    )
