-- ===== src/Ipc/Client.antt =====
-- The client of the control protocol: crates/ipc/src/client.rs. A connection attempt is an answer of
-- the operating system; a request is one line out and one line in.
mod Backoff
mod Tests
use nullxesos.Prelude.{
  ℕ, zero, suc, ◌+◌, ◌*◌, ◌%◌, ◌^◌, Bool, true, false, String, Option, none, some, List, [], ◌∷◌,
  min, ◌==◌, if◌then◌else◌,
}
use nullxesos.Ipc.{
  Request, Response, IpcError, Direction, Envelope, request, response, request_envelope,
}

abbrev pub reconnect_initial_ms : ℕ
reconnect_initial_ms = 100

abbrev pub reconnect_cap_ms : ℕ
reconnect_cap_ms = 5000

abbrev pub reconnect_max_tries : ℕ
reconnect_max_tries = 32

pub data ClientError : Type 0 where
  io decode hangup misframed : ClientError
  server : IpcError → ClientError
  reconnect_exhausted : ℕ → ClientError

-- How `connect` ends, and the sleeps on the way, in order.
pub record Attempt : Type 0 where
  pub connected : Bool
  pub sleeps : List ℕ

-- The loop, over the tries that are left; `answers i` says whether the socket accepts the next try
-- but `i`. The product cannot overflow a u64: `delay` is at most the cap.
unfoldable pub connect_loop : ℕ → (ℕ → Bool) → ℕ → Attempt
connect_loop zero answers delay = record { connected = false; sleeps = [] }
connect_loop (suc tries) answers delay =
    let rest = connect_loop tries (λ i. answers (suc i)) (min (delay * 2) reconnect_cap_ms) in
    elim (answers 0) [
      | true ↦ record { connected = true; sleeps = [] }
      | false ↦ record { connected = rest.connected; sleeps = delay ∷ rest.sleeps }
    ]

unfoldable pub connect : (ℕ → Bool) → Attempt
unfolding connect_loop
connect answers = connect_loop reconnect_max_tries answers reconnect_initial_ms

-- What the read of the answering line gives: a failure, the end of the stream, or a line that serde
-- decodes or not.
pub data Reading : Type 0 where
  failed hung_up undecodable : Reading
  decoded : Envelope → Reading

pub data Outcome : Type 0 where
  answered : Response → Outcome
  error : ClientError → Outcome

unfoldable pub read_response : Reading → Outcome
read_response failed = error io
read_response hung_up = error hangup
read_response undecodable = error decode
read_response (decoded env) = elim env.direction [
  | response r ↦ answered r
  | request _ ↦ error misframed
]

-- A request takes the next identifier (a `u64` that wraps), whether or not it succeeds. `sent` says
-- whether the line could be written.
unfoldable pub send_request : ℕ → Request → Bool → Reading → ℕ × Envelope × Outcome
unfolding read_response
send_request next_id req sent reading = (
  (next_id + 1) % 2 ^ 64,
  request_envelope next_id req,
  if sent then read_response reading else error io,
)
