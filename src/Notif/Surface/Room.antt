-- ===== src/Notif/Surface/Room.antt =====
-- The room for toasts.
use mathlib.Core.List.{append-nil, append_assoc}
use nullxesos.Prelude.{
  sym, map-append, ℕ, zero, suc, ◌+◌, ◌-◌, ◌≤◌, ◌≡◌, refl, ◌⊎◌, inr, Bool, List, [], ◌∷◌, ◌++◌, map,
  arith, take, drop, length, length-append, filter_by, ◌==◌, not, leb,
}
use nullxesos.Notif.{Notif}
use nullxesos.Notif.Surface.{
  WaylandThreadState, VisibleToast, Turn, LayerEvent, configure_event, closed_event, pump_from,
  pump_visible, enqueue, toast, replace, configure, remove_first, layer_event, layer_events,
  tick_timeouts, receive, receive_all, turn, wayland_thread, max_visible,
}

abbrev pub HasRoom : WaylandThreadState → Type 0
HasRoom st = length st.visible ≤ max_visible

length-filter_by : {A : Type 0} (p : A → Bool) (xs : List A) → length (filter_by p xs) ≤ length xs
length-filter_by p [] = omega arith
length-filter_by p (x ∷ xs) = ground (arith, length-filter_by p xs)

pub length-replace :
    (n : Notif) (now : ℕ) (ts : List VisibleToast) → length (replace n now ts) ≡ length ts
length-replace n now [] = refl
length-replace n now (t ∷ ts) = ground (arith, length-replace n now ts)

pub length-configure :
    (l : ℕ) (how : _) (ts : List VisibleToast) → length (configure l how ts) ≡ length ts
length-configure l how [] = refl
length-configure l how (t ∷ ts) = ground (arith, length-configure l how ts)

pub length-remove_first :
    (p : VisibleToast → Bool) (ts : List VisibleToast)
    → length (remove_first p ts).0 + length (remove_first p ts).1 ≡ length ts
length-remove_first p [] = omega arith
length-remove_first p (t ∷ ts) = ground (arith, length-remove_first p ts)

length-pump_from :
    (visible : List VisibleToast) (layer : ℕ) (queue : List Notif) (now : ℕ)
    → length visible ≤ max_visible
    → length (pump_from visible layer queue now).0 ≤ max_visible
unfolding pump_from
length-pump_from visible layer [] now h = h
length-pump_from visible layer (n ∷ queue) now h = ground (
  arith,
  length-append visible (toast n layer (length visible) now ∷ []),
  length-pump_from (visible ++ (toast n layer (length visible) now ∷ [])) (suc layer) queue now,
)

-- The queue gives as many as there is room for, from the front, in order, below the toasts there.
pump_from_lem :
    (room : ℕ) (visible : List VisibleToast) (layer : ℕ) (queue : List Notif) (now : ℕ)
    → max_visible - length visible ≡ room
    → (map (λ t. t.notif) (pump_from visible layer queue now).0
        ≡ map (λ t. t.notif) visible ++ take room queue)
      × ((pump_from visible layer queue now).2 ≡ drop room queue)
unfolding pump_from
pump_from_lem zero visible layer [] now h = (sym (append-nil _), refl)
pump_from_lem (suc r) visible layer [] now h = (sym (append-nil _), refl)
pump_from_lem zero visible layer (n ∷ queue) now h =
    ground (arith, append-nil (map (λ t. t.notif) visible))
pump_from_lem (suc r) visible layer (n ∷ queue) now h =
    let below : List VisibleToast = toast n layer (length visible) now ∷ [] in
    let rest =
      pump_from_lem r (visible ++ below) (suc layer) queue now
        (ground (arith, length-append visible below)) in
    ground (
      arith,
      rest.0,
      rest.1,
      map-append (λ t. t.notif) visible below,
      append_assoc (map (λ t. t.notif) visible) (n ∷ []) (take r queue),
    )

pump_from-full :
    (visible : List VisibleToast) (layer : ℕ) (queue : List Notif) (now : ℕ)
    → length visible ≤ max_visible
    → let pumped = pump_from visible layer queue now in
      (length pumped.0 ≡ max_visible) ⊎ (pumped.2 ≡ [])
unfolding pump_from
pump_from-full visible layer [] now h = inr refl
pump_from-full visible layer (n ∷ queue) now h =
    let below : List VisibleToast = toast n layer (length visible) now ∷ [] in
    ground
      (arith, length-append visible below, pump_from-full (visible ++ below) (suc layer) queue now)

-- Where at most five toasts are shown, `pump_visible` leaves them, and shows below them as many of
-- the waiting notifications as there is room for, from the front of the queue and in order; the
-- others wait. Afterwards there is no room left, or nothing waits. No closing is announced.
pub pump_visible_lem :
    (st : WaylandThreadState) (now : ℕ)
    → HasRoom st
    → let after = pump_visible st now in
      let room = max_visible - length st.visible in
      (map (λ t. t.notif) after.visible ≡ map (λ t. t.notif) st.visible ++ take room st.queue)
      × (after.queue ≡ drop room st.queue)
      × ((length after.visible ≡ max_visible) ⊎ (after.queue ≡ []))
      × (after.closed ≡ st.closed)
unfolding pump_visible
pump_visible_lem st now h =
    let pumped =
      pump_from_lem (max_visible - length st.visible) st.visible st.next_layer st.queue now refl in
    (pumped.0, pumped.1, pump_from-full st.visible st.next_layer st.queue now h, refl)

receive-HasRoom :
    (st : WaylandThreadState) (n : Notif) (now : ℕ) → HasRoom st → HasRoom (receive st n now)
unfolding receive enqueue pump_visible
receive-HasRoom st n now h = ground (
  arith,
  length-remove_first (λ t. t.notif.id == n.id) st.visible,
  length-replace n now st.visible,
  length-pump_from st.visible st.next_layer (st.queue ++ (n ∷ [])) now,
)

receive_all-HasRoom :
    (st : WaylandThreadState) (ns : List Notif) (now : ℕ)
    → HasRoom st
    → HasRoom (receive_all st ns now)
receive_all-HasRoom st [] now h = h
receive_all-HasRoom st (n ∷ ns) now h =
    receive_all-HasRoom (receive st n now) ns now (receive-HasRoom st n now h)

layer_event-HasRoom :
    (st : WaylandThreadState) (e : LayerEvent) → HasRoom st → HasRoom (layer_event st e)
unfolding layer_event
layer_event-HasRoom st (configure_event l how) h = omega (arith, length-configure l how st.visible)
layer_event-HasRoom st (closed_event l) h =
    omega (arith, length-remove_first (λ t. t.layer == l) st.visible)

layer_events-HasRoom :
    (st : WaylandThreadState) (es : List LayerEvent) → HasRoom st → HasRoom (layer_events st es)
layer_events-HasRoom st [] h = h
layer_events-HasRoom st (e ∷ es) h =
    layer_events-HasRoom (layer_event st e) es (layer_event-HasRoom st e h)

turn-HasRoom : (st : WaylandThreadState) (t : Turn) → HasRoom st → HasRoom (turn st t)
unfolding turn tick_timeouts
turn-HasRoom st t h =
    let before = layer_events (receive_all st t.received t.now) t.events in
    let fits =
      layer_events-HasRoom (receive_all st t.received t.now) t.events
        (receive_all-HasRoom st t.received t.now h) in
    omega (arith, fits, length-filter_by (λ t'. not (leb t'.expires_at t.later)) before.visible)

-- However long the thread runs, whatever arrives and whatever the display says: where at most five
-- toasts are shown at first, at most five are shown afterwards.
pub at_most_five :
    (st : WaylandThreadState) (turns : List Turn) → HasRoom st → HasRoom (wayland_thread st turns)
unfolding wayland_thread
at_most_five st [] h = h
at_most_five st (t ∷ ts) h = at_most_five (turn st t) ts (turn-HasRoom st t h)
