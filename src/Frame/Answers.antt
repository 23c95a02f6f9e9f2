-- ===== src/Frame/Answers.antt =====
-- What a client of the control protocol can rely on.
pub mod Served
pub mod Snapshot
use nullxesos.Prelude.{
  ℕ, zero, suc, ◌+◌, sym, subst, ◌≤◌, ◌<◌, ◌≡◌, refl, ap, ◌≢◌, ◌⊎◌, inl, inr, Bool, true, false,
  Option, none, some, List, [], ◌∷◌, arith, map, All, any, ◌==◌, ==→eq, Bool-cases, get_elem?,
  Option-cases, if_lem, unwrap_or, ◌∙◌, if◌then◌else◌, ◌↔◌, ◌++◌,
}
use Prim.Native.String.{len}
use nullxesos.Workspace
use nullxesos.Ipc.{
  lit, message, Request, Response, ok, err, IpcError, Envelope, Direction, request, response,
  response_envelope, protocol_version, version_mismatch, invalid_request,
}
use nullxesos.Ipc
use nullxesos.Frame.Config.{FrameConfig}
use nullxesos.Frame.Platform.{Platform}
use nullxesos.Frame.State.{State, IsCoherent}
use nullxesos.Frame.Server.{
  is_occupied, occupied_from, snapshot, handle_request_on_main, dispatch, Incoming, Reading, line,
  read_error, hangup, answer, correlation_id, client_loop, Fate, not_listening, reply_dropped,
  handled,
}

direction-cases :
    (d : Direction) → ((q : Request) × (d ≡ request q)) ⊎ ((r : Response) × (d ≡ response r))
direction-cases (request q) = inl (q, refl)
direction-cases (response r) = inr (r, refl)

module _ (p : Platform) where
  -- A request that the server takes up: a line that decodes, of this version, with a request.
  abbrev pub TakenUp : Incoming p → Request → Type 0
  TakenUp inc req =
      (env : Envelope) × (inc.envelope ≡ some env)
      × (env.v ≡ protocol_version)
      × (env.direction ≡ request req)

  -- A line of another version, and a line with a response.
  abbrev pub OtherVersion : Incoming p → Type 0
  OtherVersion inc = (env : Envelope) × (inc.envelope ≡ some env) × (env.v ≢ protocol_version)

  abbrev pub IsReply : Incoming p → Type 0
  IsReply inc =
      (env : Envelope) × (inc.envelope ≡ some env)
      × (env.v ≡ protocol_version)
      × ((r : Response) × (env.direction ≡ response r))

  -- What a line is, and what it is answered.
  data Line (st : State p) (inc : Incoming p) : Type 0 where
    garbled :
        inc.envelope ≡ none
        → answer p st inc ≡ (st, err (invalid_request (lit "decode: " ∷ inc.refusal)))
        → Line st inc
    foreign :
        OtherVersion inc
        → answer p st inc ≡ (st, err (version_mismatch (protocol_version ∷ [])))
        → Line st inc
    reply :
        IsReply inc
        → answer p st inc ≡ (st, err (invalid_request (message "response on request socket")))
        → Line st inc
    taken :
        (req : Request)
        → TakenUp inc req
        → answer p st inc ≡ dispatch p st inc.loaded inc.fate req
        → Line st inc

  line-cases : (st : State p) (inc : Incoming p) → Line st inc
  unfolding answer
  line-cases st inc = elim (Option-cases inc.envelope) [
    | inl e ↦ garbled e (ground (arith, e))
    | inr (env, e) ↦ elim (Bool-cases (env.v == protocol_version)) [
      | inl v ↦ elim (direction-cases env.direction) [
        | inl (req, d) ↦
            taken req (env, e, ==→eq env.v protocol_version v, d) (ground (arith, e, v, d))
        | inr (r, d) ↦
            reply (env, e, ==→eq env.v protocol_version v, (r, d)) (ground (arith, e, v, d))
      ]
      | inr v ↦ foreign (env, e, λ a. ground arith) (ground (arith, e, v))
    ]
  ]

  -- Which of the three reports of a line a response is, by its kind and the length of its text.
  abbrev reported : Response → ℕ
  reported (err (version_mismatch vs)) = 2
  reported (err (invalid_request (lit s ∷ m))) =
      if len s == 8 then 1 else if len s == 26 then 3 else 0
  reported _ = 0

  -- The handlers give none of them.
  dispatch-reported :
      (st : State p) (loaded : FrameConfig p.F64) (fate : Fate) (req : Request)
      → reported (dispatch p st loaded fate req).1 ≡ 0
  unfolding dispatch handle_request_on_main
  dispatch-reported st loaded not_listening req = refl
  dispatch-reported st loaded reply_dropped req = refl
  dispatch-reported st loaded handled (Ipc.switch_workspace i) =
      if_lem (λ r. reported r ≡ 0) (Workspace.switch_to st.mgr i).1 refl refl
  dispatch-reported st loaded handled (Ipc.move_focused t) =
      elim (Option-cases (Workspace.plan_move_focused st.mgr t).1) [
        | inl e ↦ ground (arith, e)
        | inr (plan, e) ↦ ground (arith, e)
      ]
  dispatch-reported st loaded handled _ = refl

  -- The line of a response is of one kind only.
  clash :
      {C : Type 0} (a b : Response) {r : Response}
      → r ≡ a
      → r ≡ b
      → (reported a == reported b) ≡ false
      → C
  clash a b e f d =
      let same : reported a ≡ reported b = ap reported (sym e ∙ f) in
      absurd (ground (arith, same, d))

  same_envelope :
      (inc : Incoming p) (env env' : Envelope)
      → inc.envelope ≡ some env
      → inc.envelope ≡ some env'
      → env ≡ env'
  same_envelope inc env env' e f = ap (λ o. unwrap_or o env) (sym e ∙ f)

  not_none :
      {C : Type 0} (inc : Incoming p) (env : Envelope)
      → inc.envelope ≡ none
      → inc.envelope ≡ some env
      → C
  not_none inc env e f = absurd (ground (arith, e, f))

  unreported :
      {C : Type 0} (b : Response) {r : Response}
      → reported r ≡ 0
      → r ≡ b
      → (reported b == 0) ≡ false
      → C
  unreported b z e d =
      let same : reported b ≡ 0 = ap reported (sym e) ∙ z in absurd (ground (arith, same, d))

  abbrev asks : Direction → Bool
  asks (request q) = true
  asks (response r) = false

  request_not_reply :
      {C : Type 0} (inc : Incoming p) (env : Envelope) (req : Request)
      → IsReply inc
      → inc.envelope ≡ some env
      → env.direction ≡ request req
      → C
  request_not_reply inc env req (env', f, v, (r, d)) e d' =
      let same : true ≡ false =
        ap asks (sym d' ∙ ap (λ x. x.direction) (same_envelope inc env env' e f) ∙ d) in
      absurd (ground (arith, same))

  -- A report in the answer to a line tells what was wrong with it: "decode", with the decoder's words,
  -- exactly when it did not decode; the version mismatch, with the server's version, exactly when it
  -- has another version; and "response on request socket" exactly when it is a response of this
  -- version. No request is answered so, whatever becomes of it, and only a request of this version
  -- can change the compositor.
  pub answer_lem :
      (st : State p) (inc : Incoming p)
      → let after = answer p st inc in
        ((after.1 ≡ err (invalid_request (lit "decode: " ∷ inc.refusal))) ↔ (inc.envelope ≡ none))
        × ((after.1 ≡ err (version_mismatch (protocol_version ∷ []))) ↔ OtherVersion inc)
        × ((after.1 ≡ err (invalid_request (message "response on request socket"))) ↔ IsReply inc)
        × ((after.0 ≡ st) ⊎ ((req : Request) × TakenUp inc req))
  answer_lem st inc =
      let decode = err (invalid_request (lit "decode: " ∷ inc.refusal)) in
      let mismatch = err (version_mismatch (protocol_version ∷ [])) in
      let not_request = err (invalid_request (message "response on request socket")) in
      elim (line-cases st inc) [
        | garbled e a ↦
            let r = ap (λ q. q.1) a in
            (
              (λ _. e, λ _. r),
              (λ h. clash decode mismatch r h refl, λ o. not_none inc o.0 e o.1),
              (λ h. clash decode not_request r h refl, λ o. not_none inc o.0 e o.1),
              inl (ap (λ q. q.0) a),
            )
        | foreign (env, e, v) a ↦
            let r = ap (λ q. q.1) a in
            (
              (λ h. clash mismatch decode r h refl, λ n. not_none inc env n e),
              (λ _. (env, e, v), λ _. r),
              (
                λ h. clash mismatch not_request r h refl,
                λ o. absurd (v (ap (λ x. x.v) (same_envelope inc env o.0 e o.1) ∙ o.2)),
              ),
              inl (ap (λ q. q.0) a),
            )
        | reply (env, e, v, d) a ↦
            let r = ap (λ q. q.1) a in
            (
              (λ h. clash not_request decode r h refl, λ n. not_none inc env n e),
              (
                λ h. clash not_request mismatch r h refl,
                λ o. absurd (o.2 (ap (λ x. x.v) (same_envelope inc o.0 env o.1 e) ∙ v)),
              ),
              (λ _. (env, e, v, d), λ _. r),
              inl (ap (λ q. q.0) a),
            )
        | taken req (env, e, v, d) a ↦
            let r : reported (answer p st inc).1 ≡ 0 =
              ap (λ q. reported q.1) a ∙ dispatch-reported st inc.loaded inc.fate req in
            (
              (λ h. unreported decode r h refl, λ n. not_none inc env n e),
              (
                λ h. unreported mismatch r h refl,
                λ o. absurd (o.2 (ap (λ x. x.v) (same_envelope inc o.0 env o.1 e) ∙ v)),
              ),
              (
                λ h. unreported not_request r h refl,
                λ o. absurd (request_not_reply inc env req o e d),
              ),
              inr (req, (env, e, v, d)),
            )
      ]
