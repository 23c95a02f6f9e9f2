-- ===== src/Notif/Surface/Closing.antt =====
-- What becomes of each notification.
use nullxesos.Prelude.{
  ℕ, suc, ◌+◌, ◌≡◌, refl, ◌∙◌, Bool, not, List, [], ◌∷◌, ◌++◌, map, arith, length, length-append,
  length-map, filter_by, if◌then◌else◌, ◌==◌, leb,
}
use nullxesos.Notif.{Notif}
use nullxesos.Notif.Surface.{
  WaylandThreadState, VisibleToast, Turn, LayerEvent, configure_event, closed_event, pump_from,
  pump_visible, enqueue, toast, remove_first, close_first, layer_event, layer_events, tick_timeouts,
  receive, receive_all, turn, shows, is_close,
}
use nullxesos.Notif.Surface.Room.{length-replace, length-configure, length-remove_first}

-- The toasts shown, the notifications that wait, and the closings announced, together.
abbrev pub total : WaylandThreadState → ℕ
total st = length st.visible + length st.queue + length st.closed

-- A notification is new when it neither closes nor replaces one that is shown.
abbrev pub newcomers : WaylandThreadState → List Notif → ℕ → ℕ
newcomers st [] now = 0
newcomers st (n ∷ ns) now =
    let rest = newcomers (receive st n now) ns now in
    if is_close n then rest else (if shows n.id st.visible then rest else suc rest)

length-pump_from :
    (visible : List VisibleToast) (layer : ℕ) (queue : List Notif) (now : ℕ)
    → length (pump_from visible layer queue now).0 + length (pump_from visible layer queue now).2
      ≡ length visible + length queue
unfolding pump_from
length-pump_from visible layer [] now = refl
length-pump_from visible layer (n ∷ queue) now =
    let below : List VisibleToast = toast n layer (length visible) now ∷ [] in
    ground (
      arith,
      length-append visible below,
      length-pump_from (visible ++ below) (suc layer) queue now,
    )

total-close_first :
    (p : VisibleToast → Bool) (st : WaylandThreadState) → total (close_first p st) ≡ total st
total-close_first p st =
    omega (
      arith,
      length-remove_first p st.visible,
      length-append st.closed (remove_first p st.visible).1,
    )

total-receive :
    (st : WaylandThreadState) (n : Notif) (now : ℕ)
    → total (receive st n now) ≡ newcomers st (n ∷ []) now + total st
unfolding receive enqueue pump_visible
total-receive st n now = ground (
  arith,
  total-close_first (λ t. t.notif.id == n.id) st,
  length-replace n now st.visible,
  length-append st.queue (n ∷ []),
  length-pump_from st.visible st.next_layer (st.queue ++ (n ∷ [])) now,
)

total-receive_all :
    (st : WaylandThreadState) (ns : List Notif) (now : ℕ)
    → total (receive_all st ns now) ≡ newcomers st ns now + total st
total-receive_all st [] now = omega arith
total-receive_all st (n ∷ ns) now =
    ground (arith, total-receive st n now, total-receive_all (receive st n now) ns now)

total-layer_events :
    (st : WaylandThreadState) (es : List LayerEvent) → total (layer_events st es) ≡ total st
unfolding layer_event
total-layer_events st [] = refl
total-layer_events st (configure_event l how ∷ es) = omega (
  arith,
  length-configure l how st.visible,
  total-layer_events (layer_event st (configure_event l how)) es,
)
total-layer_events st (closed_event l ∷ es) = omega (
  arith,
  total-close_first (λ t. t.layer == l) st,
  total-layer_events (layer_event st (closed_event l)) es,
)

length-split :
    (p : VisibleToast → Bool) (ts : List VisibleToast)
    → length (filter_by (λ t. not (p t)) ts) + length (filter_by p ts) ≡ length ts
length-split p [] = refl
length-split p (t ∷ ts) = ground (arith, length-split p ts)

total-tick_timeouts : (st : WaylandThreadState) (now : ℕ) → total (tick_timeouts st now) ≡ total st
unfolding tick_timeouts
total-tick_timeouts st now =
    let expired = filter_by (λ t. leb t.expires_at now) st.visible in
    omega (
      arith,
      length-split (λ t. leb t.expires_at now) st.visible,
      length-append st.closed (map (λ t. t.notif.id) expired),
      length-map (λ t. t.notif.id) expired,
    )

-- In one turn of the loop no notification is lost and none is counted twice: the toasts shown, the
-- notifications that wait and the closings announced grow together by the number of newcomers.
pub all_accounted :
    (st : WaylandThreadState) (t : Turn)
    → total (turn st t) ≡ newcomers st t.received t.now + total st
unfolding turn
all_accounted st t =
    let received = receive_all st t.received t.now in
    total-tick_timeouts (layer_events received t.events) t.later
    ∙ total-layer_events received t.events
    ∙ total-receive_all st t.received t.now
