-- ===== src/Notif/Dbus.antt =====
-- The D-Bus interface of the notification daemon: crates/nx-notif/src/dbus.rs. A `u32` keeps its
-- wrap-around.
pub mod Ids
use nullxesos.Prelude.{
  ℕ, ◌+◌, ◌%◌, ◌^◌, Bool, true, false, not, String, Option, none, some, List, [], ◌∷◌, ◌++◌, max,
  ◌==◌, if◌then◌else◌,
}
use nullxesos.Prelude.Int.{ℤ, pos, negsuc, ltb_ℤ, pos_part}
use nullxesos.Notif.{Notif, Urgency, low, normal, critical, close_for}
use nullxesos.Notif.History.{Serde, History, AppendIo, append}

-- The hint `urgency`: missing or no byte, or a byte.
abbrev pub urgency_of : Option ℕ → Urgency
urgency_of none = normal
urgency_of (some b) =
    if b == 0 then low else if b == 1 then normal else if b == 2 then critical else normal

-- The arguments of `Notify` that the code reads.
pub record Call : Type 0 where
  pub app_name : String
  pub replaces_id : ℕ
  pub app_icon : String
  pub summary : String
  pub body : String
  pub actions : List String
  pub urgency : Option ℕ
  pub expire_timeout : ℤ

module _ (Line : Type 0) where
  -- `sent` is what went to the thread of the display, the newest last.
  pub record ServerInner : Type 0 where
    pub next_id : ℕ
    pub sent : List Notif
    pub history : History Line

  abbrev pub new : History Line → ServerInner
  new history = record { next_id = 1; sent = []; history = history }

  -- `Sender::send` waits for room; it fails when the other thread is gone.
  abbrev pub send : Bool → ServerInner → Notif → ServerInner
  send delivered s n = record s { sent = if delivered then s.sent ++ (n ∷ []) else s.sent }

  abbrev pub allocate : ServerInner → ℕ → ServerInner × ℕ
  allocate s replaces_id =
      if not (replaces_id == 0)
      then (s, replaces_id)
      else (record s { next_id = max ((s.next_id + 1) % 2 ^ 32) 1 }, s.next_id)

  abbrev pub notif_of : Call → ℕ → Notif
  notif_of c id = record {
    id = id;
    app_name = c.app_name;
    app_icon = c.app_icon;
    summary = c.summary;
    body = c.body;
    actions = c.actions;
    urgency = urgency_of c.urgency;
    timeout_ms = if ltb_ℤ c.expire_timeout (pos 0) then 5000 else pos_part c.expire_timeout;
  }

  -- The outside of a call: how the history is written, the time, and whether the thread is there.
  pub record Outside : Type 0 where
    pub io : AppendIo Line
    pub now : ℕ
    pub delivered : Bool

  unfoldable pub notify : Serde Line → ServerInner → Call → Outside → ServerInner × ℕ
  notify serde s c out =
      let (s', id) = allocate s c.replaces_id in
      let n = notif_of c id in
      let s'' : ServerInner = record s' {
        history = (append Line serde s'.history n out.now out.io).0;
      } in
      (send out.delivered s'' n, id)

  unfoldable pub close_notification : ServerInner → ℕ → Bool → ServerInner
  close_notification s id delivered = send delivered s (close_for id)
