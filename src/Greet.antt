-- ===== src/Greet.antt =====
-- The greeter: crates/nx-greet/src/{state,ipc}.rs. What greetd answers is an argument; the drawing is
-- left out. Texts are lists of characters by their numbers.
pub mod Render
pub mod Dialogue
mod Tests
use nullxesos.Prelude.{
  ℕ, Bool, true, false, not, ◌&&◌, ◌||◌, Option, none, some, List, [], ◌∷◌, ◌++◌, if◌then◌else◌,
  any, is_some,
}
use nullxesos.Keymap.{Action, tab, backspace, enter, escape, KeySymbol, action, text, nothing}

abbrev pub Text : Type 0
Text = List ℕ

pub data Request : Type 0 where
  create_session : Text → Request
  post_auth_response : Option Text → Request
  start_session cancel : Request

-- An error says whether it is an authentication error.
pub data Response : Type 0 where
  success : Response
  auth_message : Text → Response
  error : Bool → Text → Response

pub data FlowOutcome : Type 0 where
  prompt : Text → FlowOutcome
  succeeded : FlowOutcome
  failure : Bool → Text → FlowOutcome
  cancelled : FlowOutcome

unfoldable pub classify : Response → FlowOutcome
classify success = succeeded
classify (auth_message message) = prompt message
classify (error auth description) = failure auth description

pub data FocusedField : Type 0 where
  username_field password_field : FocusedField

-- What the error line says.
pub data Problem : Type 0 where
  username_required unreachable protocol_error : Problem
  failed : Bool → Text → Problem

-- `greetd` says that the socket is connected; `sent` are the requests with their answers (`none` where
-- the exchange fails), the newest first.
pub record GreetState : Type 0 where
  pub should_close : Bool
  pub greetd : Bool
  pub username : Text
  pub password : Text
  pub prompt_text : Option Text
  pub problem : Option Problem
  pub focus : FocusedField
  pub pending : Bool
  pub awaiting_response : Bool
  pub sent : List (Request × Option Response)

abbrev pub new : GreetState
new = record {
  should_close = false;
  greetd = false;
  username = [];
  password = [];
  prompt_text = none;
  problem = none;
  focus = username_field;
  pending = false;
  awaiting_response = false;
  sent = [];
}

-- What the outside does: whether the socket can be connected, how greetd answers the request, and how
-- the one that may follow it. A character is white space or not.
pub record Outside : Type 0 where
  pub reachable : Bool
  pub reply : Option Response
  pub reply_next : Option Response

abbrev pub optional : Text → Option Text
optional [] = none
optional (c ∷ s) = some (c ∷ s)

abbrev pub pop : Text → Text
pop [] = []
pop (c ∷ []) = []
pop (c ∷ d ∷ s) = c ∷ pop (d ∷ s)

abbrev pub is_username : FocusedField → Bool
is_username username_field = true
is_username password_field = false

abbrev pub log : Request → Option Response → GreetState → GreetState
log req reply st = record st { sent = (req, reply) ∷ st.sent }

-- The match on the outcome.
unfoldable pub conclude : GreetState → Option FlowOutcome → Option Response → GreetState
conclude st none next = record st { problem = some protocol_error; pending = false }
conclude st (some (prompt message)) next = record st {
  prompt_text = some message;
  awaiting_response = true;
  focus = password_field;
  problem = none;
  pending = false;
}
conclude st (some succeeded) next = record (log start_session next st) { should_close = true }
conclude st (some (failure auth description)) next = record (log cancel next st) {
  problem = some (failed auth description);
  password = [];
  awaiting_response = false;
  focus = password_field;
  pending = false;
}
conclude st (some cancelled) next = record st { pending = false }

abbrev pub outcome : Option Response → Option FlowOutcome
outcome none = none
outcome (some r) = some (classify r)

-- The request of a submission, once greetd is connected.
unfoldable pub exchange : GreetState → Outside → GreetState
exchange st out =
    let asked : GreetState = record st { pending = true } in
    let created = log (create_session st.username) out.reply asked in
    let posted : GreetState =
      record (log (post_auth_response (optional st.password)) out.reply asked) { password = [] } in
    conclude (if st.awaiting_response then posted else created) (outcome out.reply) out.reply_next

module _ (is_white : ℕ → Bool) where
  -- `username.trim().is_empty()`
  abbrev pub is_blank : Text → Bool
  is_blank s = not (any (λ c. not (is_white c)) s)

  unfoldable pub submit : GreetState → Outside → GreetState
  submit st out =
      if st.pending
      then st
      else if is_blank st.username && is_username st.focus
      then record st { problem = some username_required }
      else if not (st.greetd || out.reachable)
      then record st { problem = some unreachable }
      else exchange (record st { greetd = true }) out

  unfoldable pub handle_action : GreetState → Action → Outside → GreetState
  handle_action st tab out = record st {
    focus = if is_username st.focus then password_field else username_field;
  }
  handle_action st backspace out =
      if is_username st.focus
      then record st { username = pop st.username }
      else record st { password = pop st.password }
  handle_action st enter out =
      if is_username st.focus && not st.awaiting_response
      then record st { focus = password_field }
      else submit st out
  handle_action st escape out =
      let cleared : GreetState = record st {
        username = [];
        password = [];
        awaiting_response = false;
        problem = none;
      } in
      if st.greetd then log cancel out.reply cleared else cleared
  handle_action st _ out = st

  unfoldable pub handle_text : GreetState → Text → GreetState
  handle_text st s =
      if st.pending
      then st
      else if is_username st.focus
      then record st { username = st.username ++ s }
      else record st { password = st.password ++ s }

  unfoldable pub press : GreetState → KeySymbol → Outside → GreetState
  press st (action a) out = handle_action st a out
  press st (text s) out = handle_text st s
  press st nothing out = st

  unfoldable pub run : GreetState → List (KeySymbol × Outside) → GreetState
  run st [] = st
  run st ((k, out) ∷ ks) = run (press st k out) ks
