-- ===== src/Ipc/Client/Backoff.antt =====
-- The retries of a connecting client, and what it makes of an answer.
use nullxesos.Prelude.{
  ℕ, zero, suc, ◌*◌, ◌≤◌, ◌≡◌, refl, sym, subst, ◌↔◌, ap, ◌∙◌, Bool, true, false, ◌||◌, List, [],
  ◌∷◌, arith, min, length, All,
}
use nullxesos.Ipc.{Request, Response, Envelope, Direction, request, response}
use nullxesos.Ipc.Client.{
  reconnect_cap_ms, connect_loop, connect, Reading, answered, send_request, decoded, failed,
  hung_up, undecodable, error, misframed, read_response,
}

-- Whether one of the first tries is accepted, and how many are refused before it.
abbrev pub accepted : ℕ → (ℕ → Bool) → Bool
accepted zero answers = false
accepted (suc n) answers = answers 0 || accepted n (λ i. answers (suc i))

abbrev pub refusals : ℕ → (ℕ → Bool) → ℕ
refusals zero answers = 0
refusals (suc n) answers =
    let rest = refusals n (λ i. answers (suc i)) in elim (answers 0) [ true ↦ 0 | false ↦ suc rest ]

-- `n` delays from `d` on, each the double of the one before, up to the cap.
abbrev pub doubling : ℕ → ℕ → List ℕ
doubling zero d = []
doubling (suc n) d = d ∷ doubling n (min (d * 2) reconnect_cap_ms)

loop_lem :
    (tries : ℕ) (answers : ℕ → Bool) (d : ℕ)
    → ((connect_loop tries answers d).connected ≡ accepted tries answers)
      × ((connect_loop tries answers d).sleeps ≡ doubling (refusals tries answers) d)
unfolding connect_loop
loop_lem zero answers d = (refl, refl)
loop_lem (suc n) answers d =
    ground (arith, loop_lem n (λ i. answers (suc i)) (min (d * 2) reconnect_cap_ms))

refusals-le : (n : ℕ) (answers : ℕ → Bool) → refusals n answers ≤ n
refusals-le zero answers = omega arith
refusals-le (suc n) answers = ground (arith, refusals-le n (λ i. answers (suc i)))

doubling-bounds :
    (n d : ℕ) → d ≤ reconnect_cap_ms → All (λ ms. ms ≤ reconnect_cap_ms) (doubling n d)
doubling-bounds zero d h = tt
doubling-bounds (suc n) d h = (h, doubling-bounds n (min (d * 2) reconnect_cap_ms) (omega arith))

length-doubling : (n d : ℕ) → length (doubling n d) ≡ n
length-doubling zero d = refl
length-doubling (suc n) d = ap suc (length-doubling n (min (d * 2) reconnect_cap_ms))

-- The client connects exactly when the socket accepts one of the first 32 tries. It sleeps once for
-- each refusal before that, at most 32 times, 100 milliseconds and then each time twice as long, but
-- never longer than five seconds.
pub connect_lem :
    (answers : ℕ → Bool)
    → ((connect answers).connected ≡ accepted 32 answers)
      × ((connect answers).sleeps ≡ doubling (refusals 32 answers) 100)
      × (length (connect answers).sleeps ≤ 32)
      × All (λ ms. ms ≤ 5000) (connect answers).sleeps
unfolding connect
connect_lem answers =
    let loop = loop_lem 32 answers 100 in
    (
      loop.0,
      loop.1,
      ground (arith, loop.1, length-doubling (refusals 32 answers) 100, refusals-le 32 answers),
      subst (All (λ ms. ms ≤ 5000)) (sym loop.1)
          (doubling-bounds (refusals 32 answers) 100 (omega arith)),
    )

response-answered :
    (d : Direction) (resp : Response)
    → (elim d [ response r ↦ answered r | request _ ↦ error misframed ]) ≡ answered resp
    → d ≡ response resp
response-answered (response r) resp e = ground (arith, e)
response-answered (request r) resp e = ground (arith, e)

read_response-answered :
    (reading : Reading) (resp : Response)
    → read_response reading ≡ answered resp
    → (env : Envelope) × (reading ≡ decoded env) × (env.direction ≡ response resp)
unfolding read_response
read_response-answered failed resp e = ground (arith, e)
read_response-answered hung_up resp e = ground (arith, e)
read_response-answered undecodable resp e = ground (arith, e)
read_response-answered (decoded env) resp e = (env, refl, response-answered env.direction resp e)

answered-response :
    (env : Envelope) (resp : Response)
    → env.direction ≡ response resp
    → read_response (decoded env) ≡ answered resp
unfolding read_response
answered-response env resp d = ground (arith, d)

-- A request comes back answered exactly when its line could be written and the line read is a
-- response, whatever identifier that carries.
pub send_request_lem :
    (next_id : ℕ) (req : Request) (sent : Bool) (reading : Reading) (resp : Response)
    → ((send_request next_id req sent reading).2 ≡ answered resp) ↔ (
        (sent ≡ true)
        × (env : Envelope) × (reading ≡ decoded env)
        × (env.direction ≡ response resp))
unfolding send_request
send_request_lem next_id req true reading resp = (
  λ e. let r = read_response-answered reading resp e in (refl, r.0, r.1, r.2),
  λ (_, env, r, d). ap read_response r ∙ answered-response env resp d,
)
send_request_lem next_id req false reading resp =
    (λ e. ground (arith, e), λ (f, _, _, _). ground (arith, f))
