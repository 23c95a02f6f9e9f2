-- ===== src/Settings/Conf/Atomic.antt =====
-- A configuration is replaced as a whole.
use nullxesos.Prelude.{
  ℕ, ◌≡◌, refl, ◌⊎◌, inl, inr, Bool, true, false, Option, none, some, List, arith, Bool-cases,
  Option-cases, ◌≢◌,
}
use nullxesos.Settings.Conf.{
  FrameConfFile, Disk, Writing, written, write_failed, Calls, saved, io_error, write_atomic,
  load_frame, save_frame,
}

-- Where the write reports success, the file holds the new contents and nothing is left beside it;
-- where it reports an error, the file holds the old ones.
write_atomic_lem :
    (disk : Disk) (bytes : List ℕ) (writing : Writing) (renamed : Bool)
    → let (after, result) = write_atomic disk bytes writing renamed in
      ((result ≡ saved) × (after.target ≡ some bytes) × (after.tmp ≡ none))
      ⊎ ((result ≡ io_error) × (after.target ≡ disk.target))
unfolding write_atomic
write_atomic_lem disk bytes (write_failed left) renamed = inr (refl, refl)
write_atomic_lem disk bytes written true = inl (refl, refl, refl)
write_atomic_lem disk bytes written false = inr (refl, refl)

module _ {F64 : Type 0} (zero_f64 : F64) (to_toml : FrameConfFile F64 → Option (List ℕ))
    (from_toml : List ℕ → Option (FrameConfFile F64)) where
  -- When the text that TOML gives for a configuration reads back as that configuration: what is saved
  -- is what is loaded next, and a save that reports an error leaves what was loaded before.
  pub save_frame-load_frame :
      (disk : Disk) (cfg : FrameConfFile F64) (calls : Calls)
      (reads_back : (text : List ℕ) → to_toml cfg ≡ some text → from_toml text ≡ some cfg)
      → let (after, result) = save_frame zero_f64 to_toml from_toml disk cfg calls in
        ((result ≡ saved) × (load_frame zero_f64 to_toml from_toml after ≡ cfg))
        ⊎ ((result ≢ saved)
            × (load_frame zero_f64 to_toml from_toml after
                ≡ load_frame zero_f64 to_toml from_toml disk))
  unfolding save_frame load_frame
  save_frame-load_frame disk cfg calls reads_back = elim (Bool-cases calls.directory_made) [
    | inr d ↦ inr (ground (arith, d), ground (arith, d))
    | inl d ↦ elim (Option-cases (to_toml cfg)) [
      | inl t ↦ inr (ground (arith, d, t), ground (arith, d, t))
      | inr (text, t) ↦ elim (write_atomic_lem disk text calls.writing calls.renamed) [
        | inl (done, target, _) ↦
            inl (ground (arith, d, t, done), ground (arith, d, t, target, reads_back text t))
        | inr (failed, target) ↦ inr (ground (arith, d, t, failed), ground (arith, d, t, target))
      ]
    ]
  ]
