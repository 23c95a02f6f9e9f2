-- ===== src/Lock/Guard.antt =====
-- What the lock screen guarantees.
use nullxesos.Prelude.{
  ℕ, ◌+◌, ◌≤◌, ◌≡◌, refl, ◌⊎◌, inl, inr, Bool, true, false, List, [], ◌∷◌, arith, length,
  length-append, any, any-append, if◌then◌else◌,
}
use nullxesos.Keymap.{Action, action, text, enter, backspace, escape}
use nullxesos.Lock.{
  Password, LockState, engaged, Event, key_pressed, submit_password, handle_action, handle_text,
  take_result, poll_auth, work, event, Step, dispatch, poll, worker, step, run,
}

abbrev once : Bool → ℕ
once b = if b then 1 else 0

module _ (accepts : Password → Bool) (can_draw : ℕ → Bool) where
  -- PAM has accepted one of the passwords that were handed over.
  abbrev pub some_accepted : LockState → Bool
  some_accepted st = any accepts st.sent

  pub record Guarded (st : LockState) : Type 0 where
    pub one_at_a_time : length st.requests + length st.results ≡ once st.pending
    pub blank : st.pending ≡ true → st.password ≡ []
    pub asked : any accepts st.requests ≡ true → some_accepted st ≡ true
    pub passed : any (λ r. r) st.results ≡ true → some_accepted st ≡ true
    pub opened : st.unlocked ≡ true → some_accepted st ≡ true

  engaged-Guarded : Guarded engaged
  engaged-Guarded = ground arith

  action-Guarded :
      (st : LockState) (a : Action) → Guarded st → Guarded (handle_action accepts can_draw st a)
  unfolding handle_action submit_password
  action-Guarded st enter g = ground (
    arith,
    length-append st.requests (st.password ∷ []),
    any-append accepts st.requests (st.password ∷ []),
    any-append accepts st.sent (st.password ∷ []),
  )
  action-Guarded st backspace g = ground arith
  action-Guarded st escape g = ground arith
  action-Guarded st _ g = ground arith

  text-Guarded :
      (st : LockState) (s : List ℕ) → Guarded st → Guarded (handle_text accepts can_draw st s)
  unfolding handle_text
  text-Guarded st s g = ground arith

  requests-cases :
      (qs : List Password)
      → (qs ≡ []) ⊎ ((pw : Password) × (rest : List Password) × (qs ≡ pw ∷ rest))
  requests-cases [] = inl refl
  requests-cases (pw ∷ rest) = inr (pw, rest, refl)

  work-Guarded : (st : LockState) → Guarded st → Guarded (work accepts can_draw st)
  unfolding work
  work-Guarded st g = elim (requests-cases st.requests) [
    | inl e ↦ ground (arith, e)
    | inr (pw, rest, e) ↦ ground (
      arith,
      e,
      length-append st.results (accepts pw ∷ []),
      any-append (λ r. r) st.results (accepts pw ∷ []),
    )
  ]

  results-cases :
      (rs : List Bool) → length rs ≤ 1 → (rs ≡ []) ⊎ ((rs ≡ true ∷ []) ⊎ (rs ≡ false ∷ []))
  results-cases [] h = inl refl
  results-cases (true ∷ []) h = inr (inl refl)
  results-cases (false ∷ []) h = inr (inr refl)
  results-cases (r ∷ r' ∷ rs) h = absurd (omega arith)

  one_left : (st : LockState) → Guarded st → length st.results ≤ 1
  one_left st g = ground arith

  poll-Guarded : (st : LockState) → Guarded st → Guarded (poll_auth accepts can_draw st)
  unfolding poll_auth take_result
  poll-Guarded st g = elim (results-cases st.results (one_left st g)) [
    | inl e ↦ ground (arith, e)
    | inr (inl e) ↦ ground (arith, e)
    | inr (inr e) ↦ ground (arith, e)
  ]

  event-Guarded : (st : LockState) (e : Event) → Guarded st → Guarded (event accepts can_draw st e)
  unfolding event
  event-Guarded st (key_pressed (action a)) g = action-Guarded st a g
  event-Guarded st (key_pressed (text s)) g = text-Guarded st s g
  event-Guarded st _ g = ground arith

  step-Guarded : (st : LockState) (s : Step) → Guarded st → Guarded (step accepts can_draw st s)
  unfolding step
  step-Guarded st (dispatch e) g = event-Guarded st e g
  step-Guarded st poll g = poll-Guarded st g
  step-Guarded st worker g = work-Guarded st g

  run-Guarded :
      (st : LockState) (ss : List Step) → Guarded st → Guarded (run accepts can_draw st ss)
  unfolding run
  run-Guarded st [] g = g
  run-Guarded st (s ∷ ss) g = run-Guarded (step accepts can_draw st s) ss (step-Guarded st s g)

  -- From the start of the lock screen, in any interleaving of the display's events, of the two
  -- threads and of keys: at most one password is with PAM at a time; while one is, the field is
  -- empty; and the session is unlocked only when PAM has accepted a password that was handed over.
  pub unlock_needs_password :
      (ss : List Step)
      → let st = run accepts can_draw engaged ss in
        (length st.requests + length st.results ≤ 1)
        × ((st.pending ≡ false) ⊎ (st.password ≡ []))
        × ((st.unlocked ≡ false) ⊎ (some_accepted st ≡ true))
  unlock_needs_password ss = let g = run-Guarded engaged ss engaged-Guarded in ground (arith, g)
