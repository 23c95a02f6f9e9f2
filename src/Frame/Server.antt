-- ===== src/Frame/Server.antt =====
-- The server of the control protocol: crates/frame/src/ipc_server.rs.
use nullxesos.Prelude.{
  ℕ, suc, Bool, true, false, not, Option, none, some, List, [], ◌∷◌, ◌==◌, if◌then◌else◌,
}
use nullxesos.Workspace
use nullxesos.Ipc.{
  Piece, lit, num, message, Request, switch_workspace, move_focused, reload_config, get_state,
  spawn_launcher, session_lock, quit, StateSnapshot, version_mismatch, invalid_request, internal,
  Response, ok, err, request, response, Envelope, protocol_version, response_envelope,
}
use nullxesos.Frame.Config.{FrameConfig}
use nullxesos.Frame.Platform.{Platform, Window}
use nullxesos.Frame.State.{State, spawn, stop_loop, emit}
use nullxesos.Frame.Keybind.{move_window_between_workspaces}

abbrev pub is_occupied : List Window → Bool
is_occupied [] = false
is_occupied (w ∷ ws) = true

-- What becomes of a command that the connection's task hands to the main loop: the channel is
-- closed, the reply is dropped, or the main loop handles it.
pub data Fate : Type 0 where
  not_listening reply_dropped handled : Fate

module _ (p : Platform) where
  -- `Workspaces::occupied`: the indices, from `i` on, of the spaces that hold a window.
  unfoldable pub occupied_from : ℕ → List p.Space → List ℕ
  occupied_from i [] = []
  occupied_from i (s ∷ ss) =
      let rest = occupied_from (suc i) ss in if is_occupied (p.elements s) then i ∷ rest else rest

  unfoldable pub snapshot : State p → StateSnapshot
  snapshot st = record {
    workspace_count = st.mgr.count;
    active_workspace = st.mgr.active;
    occupied = occupied_from 0 st.spaces;
    xwayland_ready = st.xwm_ready;
  }

  -- `loaded` is what `FrameConfig::load` returns at this moment.
  unfoldable pub handle_request_on_main : State p → FrameConfig p.F64 → Request → State p × Response
  handle_request_on_main st loaded (switch_workspace idx) =
      let (mgr', switched) = Workspace.switch_to st.mgr idx in
      (
        record st { mgr = mgr' },
        if switched
            then ok none
            else err (
                invalid_request
                  (lit "workspace " ∷ num idx ∷ lit " out of range or inactive" ∷ [])),
      )
  handle_request_on_main st loaded (move_focused target) =
      let (mgr', planned) = Workspace.plan_move_focused st.mgr target in
      let st' : State p = record st { mgr = mgr' } in
      elim planned [
        | none ↦ (st', err (invalid_request (message "no focused window or invalid target")))
        | some (src, tgt, id) ↦ (move_window_between_workspaces p st' src tgt id, ok none)
      ]
  handle_request_on_main st loaded reload_config = (record st { config = loaded }, ok none)
  handle_request_on_main st loaded get_state = (st, ok (some (snapshot st)))
  handle_request_on_main st loaded spawn_launcher =
      (emit p st (spawn st.config.keybindings.launcher_binary), ok none)
  handle_request_on_main st loaded session_lock =
      (emit p st (spawn st.config.keybindings.lock_binary), ok none)
  handle_request_on_main st loaded quit = (emit p st stop_loop, ok none)

  unfoldable pub dispatch : State p → FrameConfig p.F64 → Fate → Request → State p × Response
  dispatch st loaded not_listening req = (st, err (internal (message "compositor not listening")))
  dispatch st loaded reply_dropped req =
      (st, err (internal (message "compositor dropped reply channel")))
  dispatch st loaded handled req = handle_request_on_main st loaded req

  -- What a read on the connection gives: an error, the end of the stream, or a line, which serde
  -- decodes to an envelope or refuses with a message; with it the fate of its command, the
  -- configuration on disk, and whether the answer can be written.
  pub record Incoming : Type 0 where
    pub envelope : Option Envelope
    pub refusal : List Piece
    pub fate : Fate
    pub loaded : FrameConfig p.F64
    pub writable : Bool

  pub data Reading : Type 0 where
    read_error hangup : Reading
    line : Incoming → Reading

  unfoldable pub answer : State p → Incoming → State p × Response
  answer st inc = elim inc.envelope [
    | none ↦ (st, err (invalid_request (lit "decode: " ∷ inc.refusal)))
    | some env ↦
        if not (env.v == protocol_version)
        then (st, err (version_mismatch (protocol_version ∷ [])))
        else elim env.direction [
          | request req ↦ dispatch st inc.loaded inc.fate req
          | response _ ↦ (st, err (invalid_request (message "response on request socket")))
        ]
  ]

  -- The second decoding of the line, for the identifier alone.
  abbrev pub correlation_id : Incoming → ℕ
  correlation_id inc = elim inc.envelope [ none ↦ 0 | some env ↦ env.id ]

  -- One connection, over what its reads give. The loop ends at the first error or at the end of the
  -- stream, or when an answer cannot be written.
  unfoldable pub client_loop : State p → List Reading → State p × List Envelope
  client_loop st [] = (st, [])
  client_loop st (read_error ∷ reads) = (st, [])
  client_loop st (hangup ∷ reads) = (st, [])
  client_loop st (line inc ∷ reads) =
      let (st', resp) = answer st inc in
      let (st'', written) = client_loop st' reads in
      if inc.writable
      then (st'', response_envelope (correlation_id inc) resp ∷ written)
      else (st', [])
