-- ===== src/Notif/Tests.antt =====
-- Runs of the notification daemon.
use nullxesos.Prelude.{ℕ, ◌*◌, ◌≡◌, refl, true, some, [], ◌∷◌, arith, length}
use nullxesos.Prelude.Int.{negsuc}
use nullxesos.Notif.{Notif, normal, close_for}
use nullxesos.Notif.Surface.{
  WaylandThreadState, VisibleToast, Turn, configure_event, closed_event, drawn, pump_from, new,
  enqueue, pump_visible, receive, turn, wayland_thread, toast,
}
use nullxesos.Notif.Surface.Room.{HasRoom, at_most_five}
use nullxesos.Notif.Surface.Closing.{all_accounted, total}
use nullxesos.Notif.Surface.Waiting.{queue_waits, close_ignores_queue}
use nullxesos.Notif.History.{last_n, Record, Serde, History, written, copied, open_or_create}
use nullxesos.Notif.History.Reopen.{records, Agrees, open_or_create-Agrees}
use nullxesos.Notif.Dbus
use nullxesos.Notif.Dbus.{Call, Outside, ServerInner}

abbrev note : ℕ → ℕ → Notif
note id timeout_ms = record {
  id = id;
  app_name = "mail";
  app_icon = "";
  summary = "new mail";
  body = "";
  actions = [];
  urgency = normal;
  timeout_ms = timeout_ms;
}

-- Six notifications arrive at once; the sixth waits.
abbrev six : Turn
six = record {
  received = note 1 10 ∷ note 2 10 ∷ note 3 10 ∷ note 4 10 ∷ note 5 10 ∷ note 6 10 ∷ [];
  now = 0;
  events = configure_event 0 drawn ∷ [];
  later = 5;
}

-- All that is shown expires.
abbrev quiet : Turn
quiet = record { received = []; now = 60; events = closed_event 0 ∷ []; later = 100 }

abbrev crowded : WaylandThreadState
crowded = record new {
  queue = note 1 10 ∷ note 2 10 ∷ [];
  visible = toast (note 9 10) 0 0 0 ∷ [];
  next_layer = 1;
}

at_most_five_example : HasRoom (wayland_thread new (six ∷ quiet ∷ []))
at_most_five_example = at_most_five new (six ∷ quiet ∷ []) (omega arith)

all_accounted_example : total (turn new six) ≡ 6
unfolding enqueue pump_visible pump_from receive
all_accounted_example = all_accounted new six

queue_waits_example :
    (wayland_thread crowded (quiet ∷ quiet ∷ [])).queue ≡ note 1 10 ∷ note 2 10 ∷ []
queue_waits_example = queue_waits crowded (quiet ∷ quiet ∷ []) (refl, (refl, tt))

waiting_not_closed : receive crowded (close_for 2) 3 ≡ crowded
waiting_not_closed = close_ignores_queue crowded 2 3 refl

abbrev one_shown : WaylandThreadState
one_shown = record new { visible = toast (note 9 10) 0 0 0 ∷ []; next_layer = 1 }

abbrev upper : VisibleToast
upper = toast (note 1 10) 0 0 0

abbrev lower : VisibleToast
lower = toast (note 2 90) 1 1 0

abbrev two_shown : WaylandThreadState
two_shown = record new { visible = upper ∷ lower ∷ []; next_layer = 2 }

-- A record is its own line, and a file of two lines is too long.
abbrev serde : Serde Record
serde = record {
  to_line = λ rec. rec;
  is_text = λ rec. true;
  from_line = λ rec. some rec;
  size = λ lines. length lines * 600000;
}

abbrev mail : Record
mail = record { id = 4; app = "mail"; summary = "new mail"; body = ""; urgency = 1; received = 17 }

abbrev opened : History Record
opened = open_or_create Record serde (mail ∷ mail ∷ []) [] true

open_or_create-Agrees_example :
    Agrees Record serde opened
    × (opened.current ≡ mail ∷ mail ∷ [])
    × (opened.rotated ≡ [])
    × (opened.cached ≡ last_n 256 (records Record serde (mail ∷ mail ∷ [])))
open_or_create-Agrees_example =
    open_or_create-Agrees Record serde (mail ∷ mail ∷ []) []
      ((refl, mail, refl), ((refl, mail, refl), tt))

abbrev call : ℕ → Call
call replaces_id = record {
  app_name = "mail";
  replaces_id = replaces_id;
  app_icon = "";
  summary = "new mail";
  body = "";
  actions = [];
  urgency = some 2;
  expire_timeout = negsuc 0;
}

abbrev fine : Outside Record
fine = record { io = written copied; now = 18; delivered = true }

abbrev server : ServerInner Record
server = Dbus.new Record opened
