-- ===== src/Lock.antt =====
-- The lock screen: crates/nx-lock/src/{state,pam_auth}.rs. PAM is `accepts`, and `can_draw` says
-- whether an output's buffer can be had and drawn.
pub mod Render
pub mod Guard
pub mod Uncovered
mod Tests
use nullxesos.Prelude.{
  ℕ, suc, ◌+◌, ◌-◌, ◌%◌, ◌^◌, Bool, true, false, not, ◌&&◌, ◌||◌, Option, none, some, List, [], ◌∷◌,
  ◌++◌, map, max, length, ltb, ◌==◌, if◌then◌else◌, any,
}
use nullxesos.Keymap.{Action, enter, backspace, escape, KeySymbol, action, text, nothing}

-- The characters of a password, by their numbers.
abbrev pub Password : Type 0
Password = List ℕ

-- `String::len`: the bytes of UTF-8.
abbrev pub char_len : ℕ → ℕ
char_len c = if ltb c 128 then 1 else if ltb c 2048 then 2 else if ltb c 65536 then 3 else 4

abbrev pub byte_len : Password → ℕ
byte_len [] = 0
byte_len (c ∷ s) = char_len c + byte_len s

-- What the password field shows.
pub record Shown : Type 0 where
  pub password_len : ℕ
  pub fail_count : ℕ
  pub pending : Bool

-- `lock_surface` names the lock surface, which is made together with its `wl_surface`.
pub record LockOutput : Type 0 where
  pub output : ℕ
  pub width : ℕ
  pub height : ℕ
  pub lock_surface : Option ℕ
  pub configured : Bool
  pub shown : Option Shown

-- `requests` and `results` are the two channels to the thread that asks PAM, the oldest first;
-- `unlocked` says that `unlock_and_destroy` was sent. `sent` holds all passwords that were handed over.
pub record LockState : Type 0 where
  pub lock : Bool
  pub locked : Bool
  pub outputs : List LockOutput
  pub next_surface : ℕ
  pub keyboard : Bool
  pub password : Password
  pub fail_count : ℕ
  pub pending : Bool
  pub requests : List Password
  pub results : List Bool
  pub unlocked : Bool
  pub should_quit : Bool
  pub exit_code : ℕ
  pub sent : List Password

-- `LockState::new` and `engage`.
abbrev pub engaged : LockState
engaged = record {
  lock = true;
  locked = false;
  outputs = [];
  next_surface = 0;
  keyboard = false;
  password = [];
  fail_count = 0;
  pending = false;
  requests = [];
  results = [];
  unlocked = false;
  should_quit = false;
  exit_code = 0;
  sent = [];
}

-- `String::pop`
abbrev pub pop : Password → Password
pop [] = []
pop (c ∷ []) = []
pop (c ∷ d ∷ s) = c ∷ pop (d ∷ s)

-- What the display sends, as far as there are handlers for it. `mode_event` comes for a `wl_output`
-- that is bound, and `run` binds none.
pub data Event : Type 0 where
  locked_event finished_event : Event
  configure_event : ℕ → ℕ → ℕ → Event
  mode_event : ℕ → ℕ → ℕ → Event
  capabilities_event : Bool → Event
  key_pressed : KeySymbol → Event

-- The two threads, in any order. The loop of `run` ends when `should_quit` is set; here it goes on.
pub data Step : Type 0 where
  dispatch : Event → Step
  poll worker : Step

module _ (accepts : Password → Bool) (can_draw : ℕ → Bool) where
  abbrev pub shown_by : LockState → Shown
  shown_by st = record {
    password_len = byte_len st.password;
    fail_count = st.fail_count;
    pending = st.pending;
  }

  abbrev pub repaint_output : Shown → LockOutput → LockOutput
  repaint_output now o =
      if o.configured && can_draw o.output then record o { shown = some now } else o

  abbrev pub repaint_all : LockState → LockState
  repaint_all st = record st { outputs = map (λ o. repaint_output (shown_by st) o) st.outputs }

  unfoldable pub submit_password : LockState → LockState
  submit_password st = elim st.password [
    | [] ↦ st
    | c ∷ cs ↦ if st.pending then st else record (repaint_all (record st { pending = true })) {
      requests = st.requests ++ ((c ∷ cs) ∷ []);
      sent = st.sent ++ ((c ∷ cs) ∷ []);
      password = [];
    }
  ]

  unfoldable pub handle_action : LockState → Action → LockState
  unfolding submit_password
  handle_action st enter = submit_password st
  handle_action st backspace = repaint_all (record st { password = pop st.password })
  handle_action st escape = repaint_all (record st { password = [] })
  handle_action st _ = st

  unfoldable pub handle_text : LockState → List ℕ → LockState
  handle_text st s =
      if not st.pending then repaint_all (record st { password = st.password ++ s }) else st

  -- The answer of PAM; the thread sleeps after a refusal. `fail_count` is a `u32`.
  unfoldable pub take_result : LockState → Bool → LockState
  take_result st true = record st {
    pending = false;
    unlocked = st.unlocked || st.lock;
    should_quit = true;
    exit_code = 0;
  }
  take_result st false =
      repaint_all
        (record st { pending = false; fail_count = (st.fail_count + 1) % 2 ^ 32; password = [] })

  abbrev pub take_results : LockState → List Bool → LockState
  take_results st [] = st
  take_results st (r ∷ rs) = take_results (take_result st r) rs

  unfoldable pub poll_auth : LockState → LockState
  poll_auth st = take_results (record st { results = [] }) st.results

  -- One turn of `worker_loop`.
  unfoldable pub work : LockState → LockState
  work st = elim st.requests [
    | [] ↦ st
    | pw ∷ rest ↦ record st { requests = rest; results = st.results ++ (accepts pw ∷ []) }
  ]

  -- The surface of an output that has none.
  abbrev pub give_surface : ℕ → LockOutput → LockOutput
  give_surface n o = elim o.lock_surface [ none ↦ record o { lock_surface = some n } | some s ↦ o ]

  abbrev pub give_surfaces : ℕ → List LockOutput → List LockOutput
  give_surfaces n [] = []
  give_surfaces n (o ∷ os) = give_surface n o ∷ give_surfaces (suc n) os

  abbrev pub give_last : ℕ → List LockOutput → List LockOutput
  give_last n [] = []
  give_last n (o ∷ []) = give_surface n o ∷ []
  give_last n (o ∷ o' ∷ os) = o ∷ give_last n (o' ∷ os)

  -- Find or insert.
  abbrev pub set_mode : ℕ → ℕ → ℕ → List LockOutput → List LockOutput
  set_mode output w h [] =
      record {
        output = output;
        width = w;
        height = h;
        lock_surface = none;
        configured = false;
        shown = none;
      }
      ∷ []
  set_mode output w h (o ∷ os) = elim (o.output == output) [
    | true ↦ record o { width = w; height = h } ∷ os
    | false ↦ o ∷ set_mode output w h os
  ]

  abbrev pub has_surface : ℕ → LockOutput → Bool
  has_surface n o = elim o.lock_surface [ none ↦ false | some s ↦ s == n ]

  abbrev pub configure : Shown → ℕ → ℕ → ℕ → List LockOutput → List LockOutput
  configure now n w h [] = []
  configure now n w h (o ∷ os) = elim (has_surface n o) [
    | true ↦
        repaint_output now (record o { width = max w 1; height = max h 1; configured = true }) ∷ os
    | false ↦ o ∷ configure now n w h os
  ]

  unfoldable pub event : LockState → Event → LockState
  unfolding handle_action handle_text
  event st locked_event = record st {
    locked = true;
    outputs = give_surfaces st.next_surface st.outputs;
    next_surface = st.next_surface + length st.outputs;
  }
  event st finished_event = record st { should_quit = true; exit_code = 1 }
  event st (configure_event n w h) = record st {
    outputs = configure (shown_by st) n w h st.outputs;
  }
  event st (mode_event output w h) =
      let outputs' = set_mode output w h st.outputs in
      record st {
        outputs = if st.locked && st.lock then give_last st.next_surface outputs' else outputs';
        next_surface = st.next_surface + 1;
      }
  event st (capabilities_event has_keyboard) = record st { keyboard = st.keyboard || has_keyboard }
  event st (key_pressed (action a)) = handle_action st a
  event st (key_pressed (text s)) = handle_text st s
  event st (key_pressed nothing) = st

  unfoldable pub step : LockState → Step → LockState
  step st (dispatch e) = event st e
  step st poll = poll_auth st
  step st worker = work st

  unfoldable pub run : LockState → List Step → LockState
  run st [] = st
  run st (s ∷ ss) = run (step st s) ss
