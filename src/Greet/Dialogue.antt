-- ===== src/Greet/Dialogue.antt =====
-- The order of the greeter's requests.
use nullxesos.Prelude.{
  ℕ, ◌≡◌, refl, Bool, true, false, not, ◌&&◌, ◌||◌, Option, some, List, [], ◌∷◌, arith,
}
use nullxesos.Keymap.{enter, KeySymbol, action, text, nothing}
use nullxesos.Greet.{
  Request, create_session, post_auth_response, start_session, cancel, Response, success,
  auth_message, error, classify, GreetState, new, Outside, conclude, exchange, submit,
  handle_action, handle_text, press, run,
}

-- Whether greetd waits for the answer to a prompt, after these exchanges (the newest first): it has
-- asked, and nothing has ended the session since.
abbrev pub prompted : List (Request × Option Response) → Bool
prompted [] = false
prompted ((create_session u, some (auth_message m)) ∷ sent) = true
prompted ((post_auth_response r, some (auth_message m)) ∷ sent) = true
prompted ((post_auth_response r, some (error a d)) ∷ sent) = false
prompted ((cancel, reply) ∷ sent) = false
prompted (_ ∷ sent) = prompted sent

abbrev pub succeeded_last : List (Request × Option Response) → Bool
succeeded_last ((create_session u, some success) ∷ sent) = true
succeeded_last ((post_auth_response r, some success) ∷ sent) = true
succeeded_last _ = false

-- A password is sent only to a prompt, a session created only when there is none, and the session
-- started only right after greetd has reported success.
abbrev pub in_order : List (Request × Option Response) → Bool
in_order [] = true
in_order ((create_session u, reply) ∷ sent) = not (prompted sent) && in_order sent
in_order ((post_auth_response r, reply) ∷ sent) = prompted sent && in_order sent
in_order ((start_session, reply) ∷ sent) = succeeded_last sent && in_order sent
in_order ((cancel, reply) ∷ sent) = in_order sent

pub record Orderly (st : GreetState) : Type 0 where
  pub follows : prompted st.sent ≡ st.awaiting_response
  pub ordered : in_order st.sent ≡ true
  pub connected : (not st.awaiting_response || st.greetd) ≡ true

module _ (is_white : ℕ → Bool) where
  exchange-Orderly :
      (st : GreetState) (out : Outside) → st.greetd ≡ true → Orderly st → Orderly (exchange st out)
  unfolding exchange conclude classify
  exchange-Orderly st out c o = ground arith

  submit-Orderly : (st : GreetState) (out : Outside) → Orderly st → Orderly (submit is_white st out)
  unfolding submit
  submit-Orderly st out o = ground (
    arith,
    exchange-Orderly (record st { greetd = true }) out refl
        (record { follows = o.follows; ordered = o.ordered; connected = ground arith }),
  )

  press-Orderly :
      (st : GreetState) (k : KeySymbol) (out : Outside)
      → Orderly st
      → Orderly (press is_white st k out)
  unfolding press handle_action handle_text
  press-Orderly st (action enter) out o = ground (arith, submit-Orderly st out o)
  press-Orderly st (action a) out o = ground arith
  press-Orderly st (text s) out o = ground arith
  press-Orderly st nothing out o = o

  run-Orderly :
      (st : GreetState) (ks : List (KeySymbol × Outside))
      → Orderly st
      → Orderly (run is_white st ks)
  unfolding run
  run-Orderly st [] o = o
  run-Orderly st ((k, out) ∷ ks) o =
      run-Orderly (press is_white st k out) ks (press-Orderly st k out o)

  -- Whatever keys come and whatever greetd answers, also when an exchange fails: a password is sent
  -- only in answer to a prompt of a session that has not ended since, a session is created only when
  -- there is no such prompt, and the desktop is started only right after greetd has reported success.
  pub dialogue_in_order :
      (ks : List (KeySymbol × Outside)) → in_order (run is_white new ks).sent ≡ true
  dialogue_in_order ks =
      (run-Orderly new ks (record { follows = refl; ordered = refl; connected = refl })).ordered
