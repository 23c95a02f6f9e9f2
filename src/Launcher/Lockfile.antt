-- ===== src/Launcher/Lockfile.antt =====
-- The lock file of the launcher: crates/launcher/src/main.rs, with several launchers that make their
-- calls in any order. A file is named by the number of its inode. Whether `flock` gives the lock is the
-- system's, by the launchers and the inode; `Grants` is what flock(2) documents of it.
pub mod Race
use nullxesos.Prelude.{
  ℕ, ◌+◌, ◌≡◌, Bool, true, false, Option, none, some, List, [], ◌∷◌, any, set, get_elem?, replicate,
  ◌==◌, if◌then◌else◌,
}

-- Where a launcher is: before `acquire_lock`, with the file open, with its lock, without a lock file
-- after an error, after the removal of the file, and at its end.
pub data Phase : Type 0 where
  starting : Phase
  opened : (inode : ℕ) → Phase
  running : (inode : ℕ) → Phase
  lockless : Phase
  removed : (inode : ℕ) → Phase
  exited : Phase

-- The file that the path names, the number of the next new one, and the launchers.
pub record System : Type 0 where
  pub entry : Option ℕ
  pub next : ℕ
  pub launchers : List Phase

-- The descriptor with the lock of this file is open.
abbrev pub locks : ℕ → Phase → Bool
locks i (running k) = i == k
locks i (removed k) = i == k
locks i _ = false

-- `O_CREAT`: the file is made where there is none.
abbrev pub open_at : System → ℕ → System
open_at s l = elim s.entry [
  | some i ↦ record s { launchers = set s.launchers l (opened i) }
  | none ↦ record s {
    entry = some s.next;
    next = 1 + s.next;
    launchers = set s.launchers l (opened s.next);
  }
]

-- A file that no launcher has locked is given.
abbrev pub Grants : (List Phase → ℕ → Bool) → Type 0
Grants flock = (ps : List Phase) (i : ℕ) → any (locks i) ps ≡ false → flock ps i ≡ true

module _ (flock : List Phase → ℕ → Bool) where
  -- `flock(LOCK_EX | LOCK_NB)`, after which a launcher without the lock ends.
  abbrev pub flock_at : System → ℕ → ℕ → System
  flock_at s l i =
      if flock s.launchers i
      then record s { launchers = set s.launchers l (running i) }
      else record s { launchers = set s.launchers l exited }

  -- One call of the launcher with this position: of `acquire_lock`, and, when the program is over, of
  -- the guard's `drop` and then of its fields'. `fails` says that the file cannot be opened.
  abbrev pub act : System → ℕ → (fails : Bool) → Phase → System
  act s l fails starting =
      if fails then record s { launchers = set s.launchers l lockless } else open_at s l
  act s l fails (opened i) = flock_at s l i
  act s l fails (running i) = record s { entry = none; launchers = set s.launchers l (removed i) }
  act s l fails lockless = record s { launchers = set s.launchers l exited }
  act s l fails (removed i) = record s { launchers = set s.launchers l exited }
  act s l fails exited = s

  unfoldable pub step : System → ℕ → (fails : Bool) → System
  step s l fails = elim (get_elem? s.launchers l) [ some p ↦ act s l fails p | none ↦ s ]

  unfoldable pub run : System → List (ℕ × Bool) → System
  run s [] = s
  run s ((l, fails) ∷ es) = run (step s l fails) es

abbrev pub boot : ℕ → System
boot n = record { entry = none; next = 0; launchers = replicate n starting }
