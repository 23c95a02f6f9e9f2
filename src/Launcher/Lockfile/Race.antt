-- ===== src/Launcher/Lockfile/Race.antt =====
-- The end of a launcher and the lock file of crates/launcher/src/main.rs.
use nullxesos.Prelude.{
  ℕ, zero, suc, ◌+◌, ◌≡◌, refl, sym, subst, ◌≢◌, ◌∙◌, ap, Bool, true, false, none, some, List, [],
  ◌∷◌, any, set, get_elem?, arith, ◌==◌,
}
use nullxesos.Launcher.Lockfile.{
  Phase, starting, opened, running, removed, exited, System, locks, Grants, flock_at, act, step,
  run,
}

get-set :
    (ps : List Phase) (l a : ℕ) (new : Phase) → a ≢ l → get_elem? (set ps l new) a ≡ get_elem? ps a
get-set [] l a new d = refl
get-set (p ∷ ps) zero zero new d = absurd (d refl)
get-set (p ∷ ps) zero (suc a) new d = refl
get-set (p ∷ ps) (suc l) zero new d = refl
get-set (p ∷ ps) (suc l) (suc a) new d = get-set ps l a new (λ e. d (ap suc e))

set-get :
    (ps : List Phase) (l : ℕ) (old new : Phase)
    → get_elem? ps l ≡ some old
    → get_elem? (set ps l new) l ≡ some new
set-get [] l old new e = ground (arith, e)
set-get (p ∷ ps) zero old new e = refl
set-get (p ∷ ps) (suc l) old new e = set-get ps l old new e

set-set : (ps : List Phase) (l : ℕ) (old new : Phase) → set (set ps l old) l new ≡ set ps l new
set-set [] l old new = refl
set-set (p ∷ ps) zero old new = refl
set-set (p ∷ ps) (suc l) old new = ap (λ qs. p ∷ qs) (set-set ps l old new)

-- A launcher that does not lock the file changes nothing of its being free.
any-set :
    (i : ℕ) (ps : List Phase) (l : ℕ) (new : Phase)
    → locks i new ≡ false
    → any (locks i) ps ≡ false
    → any (locks i) (set ps l new) ≡ false
any-set i [] l new n h = refl
any-set i (p ∷ ps) zero new n h = ground (arith, n, h)
any-set i (p ∷ ps) (suc l) new n h = ground (arith, h, any-set i ps l new n)

any-get :
    (i : ℕ) (ps : List Phase) (l : ℕ) (p : Phase)
    → any (locks i) ps ≡ false
    → get_elem? ps l ≡ some p
    → locks i p ≡ false
any-get i [] l p h e = ground (arith, e)
any-get i (q ∷ ps) zero p h e = ground (arith, h, e)
any-get i (q ∷ ps) (suc l) p h e = any-get i ps l p (ground (arith, h)) e

module _ (flock : List Phase → ℕ → Bool) where
  step-act :
      (s : System) (l : ℕ) (p : Phase)
      → get_elem? s.launchers l ≡ some p
      → step flock s l false ≡ act flock s l false p
  unfolding step
  step-act s l p e = ground (arith, e)

  flock_at_lem :
      (s : System) (l i : ℕ)
      → flock s.launchers i ≡ true
      → flock_at flock s l i ≡ record s { launchers = set s.launchers l (running i) }
  flock_at_lem s l i e = ground (arith, e)

  -- With a lock that flock(2) gives where nobody has it: one launcher runs, with the lock of a file
  -- that nobody else has locked; a second one has opened that file; a third one has not begun. The
  -- first one ends, and removes the file from the path on its way; then the second one asks for the
  -- lock, and the third one opens the path and asks. Both run, each with a file of its own.
  pub two_run :
      (grants : Grants flock) (s : System) (a b c i : ℕ)
      → a ≢ b
      → a ≢ c
      → b ≢ c
      → get_elem? s.launchers a ≡ some (running i)
      → get_elem? s.launchers b ≡ some (opened i)
      → get_elem? s.launchers c ≡ some starting
      → any (locks i) (set s.launchers a exited) ≡ false
      → any (locks s.next) s.launchers ≡ false
      → let t = run flock s ((a, false) ∷ (a, false) ∷ (b, false) ∷ (c, false) ∷ (c, false) ∷ []) in
        (get_elem? t.launchers b ≡ some (running i))
        × (get_elem? t.launchers c ≡ some (running s.next))
        × ((s.next == i) ≡ false)
  unfolding run
  two_run grants s a b c i ab ac bc ra ob sc alone fresh =
      let other : (s.next == i) ≡ false = any-get s.next s.launchers a (running i) fresh ra in
      let ls1 = set s.launchers a (removed i) in
      let ls2 = set ls1 a exited in
      let ls3 = set ls2 b (running i) in
      let ls4 = set ls3 c (opened s.next) in
      let ls5 = set ls4 c (running s.next) in
      let s1 : System = record s { entry = none; launchers = ls1 } in
      let s2 : System = record s1 { launchers = ls2 } in
      let s3 : System = record s2 { launchers = ls3 } in
      let s4 : System = record { entry = some s.next; next = 1 + s.next; launchers = ls4 } in
      let s5 : System = record s4 { launchers = ls5 } in
      let e1 : step flock s a false ≡ s1 = step-act s a (running i) ra in
      let e2 : step flock s1 a false ≡ s2 =
        step-act s1 a (removed i) (set-get s.launchers a (running i) (removed i) ra) in
      let b2 : get_elem? ls2 b ≡ some (opened i) =
        get-set ls1 a b exited (λ e. ab (sym e))
        ∙ get-set s.launchers a b (removed i) (λ e. ab (sym e))
        ∙ ob in
      let free2 : any (locks i) ls2 ≡ false =
        ap (any (locks i)) (set-set s.launchers a (removed i) exited) ∙ alone in
      let e3 : step flock s2 b false ≡ s3 =
        step-act s2 b (opened i) b2 ∙ flock_at_lem s2 b i (grants ls2 i free2) in
      let c3 : get_elem? ls3 c ≡ some starting =
        get-set ls2 b c (running i) (λ e. bc (sym e))
        ∙ get-set ls1 a c exited (λ e. ac (sym e))
        ∙ get-set s.launchers a c (removed i) (λ e. ac (sym e))
        ∙ sc in
      let e4 : step flock s3 c false ≡ s4 = step-act s3 c starting c3 in
      let c4 : get_elem? ls4 c ≡ some (opened s.next) = set-get ls3 c starting (opened s.next) c3 in
      let free4 : any (locks s.next) ls4 ≡ false = any-set s.next ls3 c (opened s.next) refl (
        any-set s.next ls2 b (running i) other (
          any-set s.next ls1 a exited refl
            (any-set s.next s.launchers a (removed i) other fresh))) in
      let e5 : step flock s4 c false ≡ s5 =
        step-act s4 c (opened s.next) c4 ∙ flock_at_lem s4 c s.next (grants ls4 s.next free4) in
      subst
        (λ t.
          (get_elem? t.launchers b ≡ some (running i))
          × (get_elem? t.launchers c ≡ some (running s.next))
          × ((s.next == i) ≡ false))
        (sym (
          ap
            (λ t.
              step flock (step flock (step flock (step flock t a false) b false) c false) c false)
            e1
          ∙ ap (λ t. step flock (step flock (step flock t b false) c false) c false) e2
          ∙ ap (λ t. step flock (step flock t c false) c false) e3
          ∙ ap (λ t. step flock t c false) e4
          ∙ e5))
        (
          get-set ls4 c b (running s.next) bc
              ∙ get-set ls3 c b (opened s.next) bc
              ∙ set-get ls2 b (opened i) (running i) b2,
          set-get ls4 c (opened s.next) (running s.next) c4,
          other,
        )
