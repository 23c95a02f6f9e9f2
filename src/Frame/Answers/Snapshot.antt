-- ===== src/Frame/Answers/Snapshot.antt =====
-- The state that a client of the control protocol asks for.
use nullxesos.Prelude.{
  ℕ, zero, suc, ◌+◌, ◌≤◌, ◌<◌, ◌≡◌, refl, Bool, false, Option, none, some, List, [], ◌∷◌, arith,
  any, ◌==◌, get_elem?,
}
use nullxesos.Ipc.{
  lit, message, Request, Response, ok, err, IpcError, Envelope, Direction, request, response,
  response_envelope, protocol_version, version_mismatch, invalid_request,
}
use nullxesos.Ipc
use nullxesos.Frame.Config.{FrameConfig}
use nullxesos.Frame.Platform.{Platform}
use nullxesos.Frame.State.{State, IsCoherent}
use nullxesos.Frame.Server.{is_occupied, occupied_from, snapshot, handle_request_on_main}

module _ (p : Platform) where
  abbrev pub is_occupied_at : Option p.Space → Bool
  is_occupied_at none = false
  is_occupied_at (some s) = is_occupied (p.elements s)

  occupied_from_ge :
      (spaces : List p.Space) (k j : ℕ)
      → j < k
      → any (λ i. i == j) (occupied_from p k spaces) ≡ false
  unfolding occupied_from
  occupied_from_ge [] k j h = refl
  occupied_from_ge (s ∷ ss) k j h = ground (arith, occupied_from_ge ss (suc k) j)

  occupied_from_lem :
      (spaces : List p.Space) (k i : ℕ)
      → any (λ j. j == k + i) (occupied_from p k spaces) ≡ is_occupied_at (get_elem? spaces i)
  unfolding occupied_from
  occupied_from_lem [] k i = ground arith
  occupied_from_lem (s ∷ ss) k zero = ground (arith, occupied_from_ge ss (suc k) k)
  occupied_from_lem (s ∷ ss) k (suc i) = ground (arith, occupied_from_lem ss (suc k) i)

  -- The state that a client asks for: of a coherent compositor the active workspace is one of the
  -- `workspace_count`, which lies between 1 and 9, and `occupied` lists exactly the indices of the
  -- workspaces that hold a window; asking changes nothing.
  pub get_state_lem :
      (st : State p) (loaded : FrameConfig p.F64)
      → IsCoherent p st
      → (handle_request_on_main p st loaded Ipc.get_state ≡ (st, ok (some (snapshot p st))))
        × ((snapshot p st).active_workspace < (snapshot p st).workspace_count)
        × (1 ≤ (snapshot p st).workspace_count)
        × ((snapshot p st).workspace_count ≤ 9)
        × ((i : ℕ)
            → any (λ j. j == i) (snapshot p st).occupied ≡ is_occupied_at (get_elem? st.spaces i))
  unfolding handle_request_on_main snapshot
  get_state_lem st loaded c = (
    refl,
    c.manager.active_in,
    c.manager.some_workspace,
    c.manager.at_most_nine,
    λ i. ground (arith, occupied_from_lem st.spaces 0 i),
  )
