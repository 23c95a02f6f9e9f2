-- ===== src/Lock/Tests.antt =====
-- Runs of the lock screen.
use nullxesos.Prelude.{ℕ, ◌+◌, ◌≤◌, ◌≡◌, ◌⊎◌, true, false, Bool, List, [], ◌∷◌, length, ◌==◌}
use nullxesos.Keymap.{enter, action, text}
use nullxesos.Lock.{
  Password, engaged, locked_event, mode_event, key_pressed, Step, dispatch, poll, worker, run,
}
use nullxesos.Lock.Guard.{some_accepted, unlock_needs_password}

-- The password has two characters.
abbrev right : Password → Bool
right pw = length pw == 2

abbrev all : ℕ → Bool
all o = true

abbrev session : List Step
session =
    dispatch (mode_event 4 800 600)
    ∷ dispatch locked_event
    ∷ dispatch (mode_event 5 640 480)
    ∷ dispatch (key_pressed (text (97 ∷ 98 ∷ [])))
    ∷ dispatch (key_pressed (action enter))
    ∷ worker
    ∷ poll
    ∷ []

unlock_needs_password_example :
    let st = run right all engaged session in
    (length st.requests + length st.results ≤ 1)
    × ((st.pending ≡ false) ⊎ (st.password ≡ []))
    × ((st.unlocked ≡ false) ⊎ (some_accepted right all st ≡ true))
unlock_needs_password_example = unlock_needs_password right all session

-- The user types the password into a session that is locked.
abbrev blind : List Step
blind =
    dispatch locked_event
    ∷ dispatch (key_pressed (text (97 ∷ 98 ∷ [])))
    ∷ dispatch (key_pressed (action enter))
    ∷ worker
    ∷ []
