-- ===== src/Ipc/Client/Tests.antt =====
-- Runs of the client.
use nullxesos.Prelude.{◌≡◌, ◌≤◌, true, ◌==◌, [], ◌∷◌, length, All}
use nullxesos.Ipc.Client.{connect}
use nullxesos.Ipc.Client.Backoff.{connect_lem}

-- The third try is accepted.
connect_lem_example :
    ((connect (λ i. i == 2)).connected ≡ true)
    × ((connect (λ i. i == 2)).sleeps ≡ 100 ∷ 200 ∷ [])
    × (length (connect (λ i. i == 2)).sleeps ≤ 32)
    × All (λ ms. ms ≤ 5000) (connect (λ i. i == 2)).sleeps
connect_lem_example = connect_lem (λ i. i == 2)
