-- ===== src/Greet/Tests.antt =====
-- A dialogue of the greeter.
use nullxesos.Prelude.{ℕ, ◌≡◌, Bool, true, Option, none, some, List, [], ◌∷◌, ◌==◌}
use nullxesos.Keymap.{KeySymbol, action, text, enter}
use nullxesos.Greet.{Response, auth_message, success, error, Outside, new, run}
use nullxesos.Greet.Dialogue.{in_order, dialogue_in_order}

abbrev says : Option Response → Outside
says reply = record { reachable = true; reply = reply; reply_next = none }

-- A wrong password, then the right one.
abbrev keys : List (KeySymbol × Outside)
keys =
    (text (97 ∷ []), says none)
    ∷ (action enter, says none)
    ∷ (action enter, says (some (auth_message [])))
    ∷ (text (98 ∷ []), says none)
    ∷ (action enter, says (some (error true [])))
    ∷ (action enter, says (some (auth_message [])))
    ∷ (text (99 ∷ []), says none)
    ∷ (action enter, says (some success))
    ∷ []

abbrev white : ℕ → Bool
white c = c == 32

dialogue_in_order_example : in_order (run white new keys).sent ≡ true
dialogue_in_order_example = dialogue_in_order white keys
