-- ===== src/Frame/Answers/Served.antt =====
-- What one connection of the control protocol is answered, line by line.
use nullxesos.Prelude.{
  sym, subst, ◌≡◌, refl, true, none, some, List, [], ◌∷◌, arith, map, All, ◌++◌,
}
use nullxesos.Ipc.{Envelope, response, response_envelope}
use nullxesos.Frame.Platform.{Platform}
use nullxesos.Frame.State.{State}
use nullxesos.Frame.Server.{
  Incoming, Reading, line, read_error, hangup, answer, correlation_id, client_loop,
}

module _ (p : Platform) where
  abbrev pub lines : List (Incoming p) → List (Reading p)
  lines = map line

  -- The connection has no further line: nothing comes, its reading fails, or it hangs up.
  abbrev pub Ends : List (Reading p) → Type 0
  Ends [] = Unit
  Ends (read_error ∷ reads) = Unit
  Ends (hangup ∷ reads) = Unit
  Ends (line inc ∷ reads) = ⊥

  -- One envelope for each line, in their order: of the server's version, with the identifier of the
  -- line, 0 where it does not decode, and with the response that the line is answered in the state
  -- which the lines before it leave; the last state is the one given.
  abbrev pub Served : State p → List (Incoming p) → List Envelope → State p → Type 0
  Served st [] [] end = st ≡ end
  Served st (inc ∷ incs) (env ∷ written) end =
      (env.v ≡ 1)
      × (env.id ≡ elim inc.envelope [ none ↦ 0 | some asked ↦ asked.id ])
      × (env.direction ≡ response (answer p st inc).1)
      × Served (answer p st inc).0 incs written end
  Served st _ _ end = ⊥

  client_loop-line :
      (st : State p) (inc : Incoming p) (reads : List (Reading p))
      → inc.writable ≡ true
      → client_loop p st (line inc ∷ reads) ≡ (
          let rest = client_loop p (answer p st inc).0 reads in
          (rest.0, response_envelope (correlation_id p inc) (answer p st inc).1 ∷ rest.1))
  unfolding client_loop
  client_loop-line st inc reads w = ground (arith, w)

  ends_lem :
      (st : State p) (reads : List (Reading p)) → Ends reads → client_loop p st reads ≡ (st, [])
  unfolding client_loop
  ends_lem st [] e = refl
  ends_lem st (read_error ∷ reads) e = refl
  ends_lem st (hangup ∷ reads) e = refl
  ends_lem st (line inc ∷ reads) e = elim e [ ]

  -- As long as each answer can be written, the lines of a connection are served one by one up to its
  -- end: the answer to each, in the state that those before it leave, goes out in the order of the
  -- lines, with the line's identifier (0 where it does not decode) and the server's version; nothing
  -- else goes out, and the state at the end is what all of them leave.
  pub client_loop_serves :
      (st : State p) (incs : List (Incoming p)) (reads : List (Reading p))
      → All (λ inc. inc.writable ≡ true) incs
      → Ends reads
      → let after = client_loop p st (lines incs ++ reads) in Served st incs after.1 after.0
  client_loop_serves st [] reads w e =
      subst (λ after. Served st [] after.1 after.0) (sym (ends_lem st reads e)) refl
  client_loop_serves st (inc ∷ incs) reads (w, ws) e =
      subst (λ after. Served st (inc ∷ incs) after.1 after.0)
        (sym (client_loop-line st inc (lines incs ++ reads) w))
        (refl, refl, refl, client_loop_serves (answer p st inc).0 incs reads ws e)
