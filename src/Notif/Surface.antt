-- ===== src/Notif/Surface.antt =====
-- The thread that shows the notifications: crates/nx-notif/src/surface.rs. Instants are counted in
-- milliseconds.
pub mod Room
pub mod Closing
pub mod Waiting
use nullxesos.Prelude.{
  ℕ, suc, ◌+◌, ◌≡◌, Bool, true, false, not, ◌&&◌, String, Option, none, some, List, [], ◌∷◌, ◌++◌,
  map, max, ltb, leb, ◌==◌, if◌then◌else◌, length, any, filter_by, is_empty,
}
use nullxesos.Notif.{Notif}

abbrev pub max_visible : ℕ
max_visible = 5

-- `layer` names the layer surface. `slot` is the number of toasts above it when it was placed, which
-- sets its margin for good. `painted` is the notification that its last drawing shows; `buffer` says
-- that it has a buffer to draw to.
pub record VisibleToast : Type 0 where
  pub notif : Notif
  pub layer : ℕ
  pub slot : ℕ
  pub buffer : Bool
  pub configured : Bool
  pub painted : Option Notif
  pub expires_at : ℕ

-- `next_layer` names the next layer surface; `closed` is what `tx_closed` was sent, the newest last.
pub record WaylandThreadState : Type 0 where
  pub visible : List VisibleToast
  pub queue : List Notif
  pub next_layer : ℕ
  pub closed : List ℕ

abbrev pub new : WaylandThreadState
new = record { visible = []; queue = []; next_layer = 0; closed = [] }

abbrev pub expiry : Notif → ℕ → ℕ
expiry n now = now + max n.timeout_ms 1

-- `find` and the assignment through it: the first toast of this identifier.
abbrev pub replace : Notif → ℕ → List VisibleToast → List VisibleToast
replace n now [] = []
replace n now (t ∷ ts) = elim (t.notif.id == n.id) [
  | true ↦ record t { notif = n; expires_at = expiry n now; buffer = false } ∷ ts
  | false ↦ t ∷ replace n now ts
]

abbrev pub shows : ℕ → List VisibleToast → Bool
shows id ts = any (λ t. t.notif.id == id) ts

abbrev pub toast : Notif → ℕ → ℕ → ℕ → VisibleToast
toast n layer slot now = record {
  notif = n;
  layer = layer;
  slot = slot;
  buffer = false;
  configured = false;
  painted = none;
  expires_at = expiry n now;
}

-- The loop of `pump_visible`, over the queue.
unfoldable pub pump_from :
    List VisibleToast → ℕ → List Notif → ℕ → List VisibleToast × ℕ × List Notif
pump_from visible layer [] now = (visible, layer, [])
pump_from visible layer (n ∷ queue) now =
    let pumped =
      pump_from (visible ++ (toast n layer (length visible) now ∷ [])) (suc layer) queue now in
    if ltb (length visible) max_visible then pumped else (visible, layer, n ∷ queue)

unfoldable pub pump_visible : WaylandThreadState → ℕ → WaylandThreadState
pump_visible st now =
    let (visible', layer', queue') = pump_from st.visible st.next_layer st.queue now in
    record st { visible = visible'; next_layer = layer'; queue = queue' }

unfoldable pub enqueue : WaylandThreadState → Notif → ℕ → WaylandThreadState
enqueue st n now =
    if shows n.id st.visible
    then record st { visible = replace n now st.visible }
    else pump_visible (record st { queue = st.queue ++ (n ∷ []) }) now

-- What becomes of a drawing: no buffer can be had, the drawing fails, or it is attached.
pub data Drawing : Type 0 where
  no_buffer not_drawn drawn : Drawing

abbrev pub redraw : Drawing → VisibleToast → VisibleToast
redraw how t = if not t.configured then t else elim how [
  | no_buffer ↦ t
  | not_drawn ↦ record t { buffer = true }
  | drawn ↦ record t { buffer = true; painted = some t.notif }
]

-- The first toast on this layer surface is configured and drawn.
abbrev pub configure : ℕ → Drawing → List VisibleToast → List VisibleToast
configure layer how [] = []
configure layer how (t ∷ ts) = elim (t.layer == layer) [
  | true ↦ redraw how (record t { configured = true }) ∷ ts
  | false ↦ t ∷ configure layer how ts
]

-- The first toast that passes the test is taken out, and its identifier sent.
abbrev pub remove_first : (VisibleToast → Bool) → List VisibleToast → List VisibleToast × List ℕ
remove_first p [] = ([], [])
remove_first p (t ∷ ts) =
    let rest = remove_first p ts in if p t then (ts, t.notif.id ∷ []) else (t ∷ rest.0, rest.1)

abbrev pub close_first : (VisibleToast → Bool) → WaylandThreadState → WaylandThreadState
close_first p st =
    let (visible', ids) = remove_first p st.visible in
    record st { visible = visible'; closed = st.closed ++ ids }

pub data LayerEvent : Type 0 where
  configure_event : ℕ → Drawing → LayerEvent
  closed_event : ℕ → LayerEvent

unfoldable pub layer_event : WaylandThreadState → LayerEvent → WaylandThreadState
layer_event st (configure_event layer how) = record st { visible = configure layer how st.visible }
layer_event st (closed_event layer) = close_first (λ t. t.layer == layer) st

unfoldable pub tick_timeouts : WaylandThreadState → ℕ → WaylandThreadState
tick_timeouts st now = record st {
  visible = filter_by (λ t. not (leb t.expires_at now)) st.visible;
  closed = st.closed ++ map (λ t. t.notif.id) (filter_by (λ t. leb t.expires_at now) st.visible);
}

-- The notifications that `rx.try_recv` gives. An empty text with a timeout of at most 1 closes.
abbrev pub is_close : Notif → Bool
is_close n = is_empty n.summary && is_empty n.body && leb n.timeout_ms 1

unfoldable pub receive : WaylandThreadState → Notif → ℕ → WaylandThreadState
receive st n now =
    let closed = close_first (λ t. t.notif.id == n.id) st in
    let queued = enqueue st n now in if is_close n then closed else queued

abbrev pub receive_all : WaylandThreadState → List Notif → ℕ → WaylandThreadState
receive_all st [] now = st
receive_all st (n ∷ ns) now = receive_all (receive st n now) ns now

abbrev pub layer_events : WaylandThreadState → List LayerEvent → WaylandThreadState
layer_events st [] = st
layer_events st (e ∷ es) = layer_events (layer_event st e) es

-- One turn of the loop of `wayland_thread`: what arrived, at the instant `now`, which stands for the
-- instants at which the source looks for each; the events of the display; and the instant after the
-- sleep.
pub record Turn : Type 0 where
  pub received : List Notif
  pub now : ℕ
  pub events : List LayerEvent
  pub later : ℕ

unfoldable pub turn : WaylandThreadState → Turn → WaylandThreadState
turn st t = tick_timeouts (layer_events (receive_all st t.received t.now) t.events) t.later

unfoldable pub wayland_thread : WaylandThreadState → List Turn → WaylandThreadState
wayland_thread st [] = st
wayland_thread st (t ∷ ts) = wayland_thread (turn st t) ts
