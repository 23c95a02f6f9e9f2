-- ===== src/Notif.antt =====
-- The notification daemon: crates/nx-notif.
pub mod Render
pub mod Dbus
pub mod History
pub mod Surface
mod Tests
use nullxesos.Prelude.{ℕ, String, List, []}

pub data Urgency : Type 0 where
  low normal critical : Urgency

-- crates/nx-notif/src/surface.rs
pub record Notif : Type 0 where
  pub id : ℕ
  pub app_name : String
  pub app_icon : String
  pub summary : String
  pub body : String
  pub actions : List String
  pub urgency : Urgency
  pub timeout_ms : ℕ

abbrev pub close_for : ℕ → Notif
close_for id = record {
  id = id;
  app_name = "";
  app_icon = "";
  summary = "";
  body = "";
  actions = [];
  urgency = low;
  timeout_ms = 1;
}
