-- ===== src/Ipc.antt =====
-- The messages of the control protocol: crates/ipc/src/{envelope,request,response}.rs. Their JSON
-- form is serde's, and enters where lines are read and written.
pub mod Client
pub mod Path
use nullxesos.Prelude.{ℕ, Bool, String, Option, none, some, List, [], ◌∷◌}

-- What `format!` puts together.
pub data Piece : Type 0 where
  lit : String → Piece
  num : ℕ → Piece

abbrev pub Message : Type 0
Message = List Piece

abbrev pub message : String → Message
message s = lit s ∷ []

pub data Request : Type 0 where
  switch_workspace : ℕ → Request
  move_focused : ℕ → Request
  reload_config get_state spawn_launcher session_lock quit : Request

pub record StateSnapshot : Type 0 where
  pub workspace_count : ℕ
  pub active_workspace : ℕ
  pub occupied : List ℕ
  pub xwayland_ready : Bool

pub data IpcError : Type 0 where
  version_mismatch : List ℕ → IpcError
  busy : IpcError
  invalid_request : Message → IpcError
  unknown_kind : IpcError
  internal : Message → IpcError
  not_implemented : IpcError

pub data Response : Type 0 where
  ok : Option StateSnapshot → Response
  err : IpcError → Response

pub data Direction : Type 0 where
  request : Request → Direction
  response : Response → Direction

pub record Envelope : Type 0 where
  pub v : ℕ
  pub id : ℕ
  pub direction : Direction

abbrev pub protocol_version : ℕ
protocol_version = 1

-- `Envelope::request` and `Envelope::response`
abbrev pub request_envelope : ℕ → Request → Envelope
request_envelope id req = record { v = protocol_version; id = id; direction = request req }

abbrev pub response_envelope : ℕ → Response → Envelope
response_envelope id resp = record { v = protocol_version; id = id; direction = response resp }
