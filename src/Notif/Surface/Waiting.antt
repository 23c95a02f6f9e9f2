-- ===== src/Notif/Surface/Waiting.antt =====
-- Where a notification is not shown, or not closed, when its sender expects it.
use mathlib.Core.List.{append-nil, append_assoc}
use nullxesos.Prelude.{
  ℕ, ◌≤◌, ◌<◌, ◌≡◌, refl, ap, ◌∙◌, ◌≢◌, Bool, true, false, not, List, [], ◌∷◌, ◌++◌, map,
  map-append, arith, length, filter_by, ◌==◌, leb, All,
}
use nullxesos.Notif.{Notif, close_for}
use nullxesos.Notif.Surface.{
  WaylandThreadState, VisibleToast, Turn, LayerEvent, configure_event, closed_event, pump_visible,
  pump_from, enqueue, toast, replace, layer_event, layer_events, tick_timeouts, receive,
  receive_all, turn, wayland_thread, shows, max_visible, remove_first,
}

queue-layer_events :
    (st : WaylandThreadState) (es : List LayerEvent) → (layer_events st es).queue ≡ st.queue
unfolding layer_event
queue-layer_events st [] = refl
queue-layer_events st (configure_event l how ∷ es) =
    queue-layer_events (layer_event st (configure_event l how)) es
queue-layer_events st (closed_event l ∷ es) =
    queue-layer_events (layer_event st (closed_event l)) es

-- A turn in which nothing arrives.
abbrev pub IsQuiet : Turn → Type 0
IsQuiet t = t.received ≡ []

queue-turn : (st : WaylandThreadState) (t : Turn) → IsQuiet t → (turn st t).queue ≡ st.queue
unfolding turn tick_timeouts
queue-turn st t q =
    queue-layer_events (receive_all st t.received t.now) t.events
    ∙ ap (λ ns. (receive_all st ns t.now).queue) q

-- While nothing arrives, what waits goes on waiting, however many toasts expire or are closed and
-- however much room there is.
pub queue_waits :
    (st : WaylandThreadState) (turns : List Turn)
    → All IsQuiet turns
    → (wayland_thread st turns).queue ≡ st.queue
unfolding wayland_thread
queue_waits st [] q = refl
queue_waits st (t ∷ ts) (q, qs) = queue_waits (turn st t) ts qs ∙ queue-turn st t q

remove_first_none :
    (id : ℕ) (ts : List VisibleToast)
    → shows id ts ≡ false
    → remove_first (λ t. t.notif.id == id) ts ≡ (ts, [])
remove_first_none id [] h = refl
remove_first_none id (t ∷ ts) h = ground (arith, remove_first_none id ts)

-- A request to close a notification that is not shown does nothing: one that waits is still shown
-- later.
pub close_ignores_queue :
    (st : WaylandThreadState) (id now : ℕ)
    → shows id st.visible ≡ false
    → receive st (close_for id) now ≡ st
unfolding receive
close_ignores_queue st id now h =
    ground (arith, remove_first_none id st.visible, append-nil st.closed)

enqueue-shows :
    (st : WaylandThreadState) (n : Notif) (now : ℕ)
    → st.queue ≡ []
    → length st.visible < max_visible
    → shows n.id st.visible ≡ false
    → ((enqueue st n now).visible
        ≡ st.visible ++ (toast n st.next_layer (length st.visible) now ∷ []))
      × ((enqueue st n now).closed ≡ st.closed)
unfolding enqueue pump_visible pump_from
enqueue-shows st n now q r h = ground arith

filter_by-append :
    (p : VisibleToast → Bool) (xs ys : List VisibleToast)
    → filter_by p (xs ++ ys) ≡ filter_by p xs ++ filter_by p ys
filter_by-append p [] ys = refl
filter_by-append p (x ∷ xs) ys = ground (arith, filter_by-append p xs ys)

-- A notification with the timeout 0 that finds room, with none waiting and none of its identifier
-- shown, is gone at any later look at the timeouts: its closing is announced, and the rest is as if
-- it had not come.
pub zero_timeout_expires :
    (st : WaylandThreadState) (n : Notif) (now later : ℕ)
    → n.timeout_ms ≡ 0
    → now < later
    → st.queue ≡ []
    → length st.visible < max_visible
    → shows n.id st.visible ≡ false
    → let after = tick_timeouts (enqueue st n now) later in
      (after.visible ≡ (tick_timeouts st later).visible)
      × (after.closed ≡ (tick_timeouts st later).closed ++ (n.id ∷ []))
unfolding tick_timeouts
zero_timeout_expires st n now later z l q r h =
    let new_toast : List VisibleToast = toast n st.next_layer (length st.visible) now ∷ [] in
    ground (
      arith,
      enqueue-shows st n now q r h,
      filter_by-append (λ t. not (leb t.expires_at later)) st.visible new_toast,
      filter_by-append (λ t. leb t.expires_at later) st.visible new_toast,
      append-nil (filter_by (λ t. not (leb t.expires_at later)) st.visible),
      map-append (λ t. t.notif.id) (filter_by (λ t. leb t.expires_at later) st.visible) new_toast,
      append_assoc st.closed
          (map (λ t. t.notif.id) (filter_by (λ t. leb t.expires_at later) st.visible)) (n.id ∷ []),
    )

painted-replace :
    (n : Notif) (now : ℕ) (ts : List VisibleToast)
    → map (λ t. t.painted) (replace n now ts) ≡ map (λ t. t.painted) ts
painted-replace n now [] = refl
painted-replace n now (t ∷ ts) = ground (arith, painted-replace n now ts)

-- A notification that replaces one that is shown leaves what the toasts are painted with as it
-- was.
pub replace_keeps_painting :
    (st : WaylandThreadState) (n : Notif) (now : ℕ)
    → shows n.id st.visible ≡ true
    → (map (λ t. t.painted) (enqueue st n now).visible ≡ map (λ t. t.painted) st.visible)
unfolding enqueue
replace_keeps_painting st n now h = ground (arith, painted-replace n now st.visible)

-- Two toasts stand one below the other and nothing waits; the upper one expires and the lower one
-- does not, and a notification of another identifier comes: its toast is placed exactly over the
-- one that is left.
pub toasts_overlap :
    (st : WaylandThreadState) (a b : VisibleToast) (n : Notif) (now : ℕ)
    → st.visible ≡ a ∷ b ∷ []
    → st.queue ≡ []
    → b.slot ≡ 1
    → a.expires_at ≤ now
    → now < b.expires_at
    → b.notif.id ≢ n.id
    → map (λ t. t.slot) (enqueue (tick_timeouts st now) n now).visible ≡ 1 ∷ 1 ∷ []
unfolding enqueue pump_visible pump_from tick_timeouts
toasts_overlap st a b n now v q s e l ne = ground arith
