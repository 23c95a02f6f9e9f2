-- ===== src/Settings/Reload.antt =====
-- A reload and what it says.
use nullxesos.Prelude.{
  ℕ, suc, ◌≡◌, refl, ap, inl, inr, Bool, Option, none, some, List, arith, Bool-cases, if_lem,
}
use nullxesos.Prelude.Text.{codes}
use nullxesos.Keymap.{enter}
use nullxesos.Ipc.{IpcError}
use nullxesos.Ipc.Client.{Outcome}
use nullxesos.Shm
use nullxesos.Shm.{ShmDoubleBuffer}
use nullxesos.Shm.Pool.{Result-cases}
use nullxesos.Settings.Conf.{FrameConfFile}
use nullxesos.Settings.Render.{Section, Names}
use nullxesos.Settings.{
  Committed, SettingsState, section_up, section_down, status_text, reload_frame, ensure_buffer,
  present, present_on, redraw, act, handle_action, end_task,
}

section_up-section_down : (s : Section) → section_up (section_down s) ≡ s
unfolding section_up section_down
section_up-section_down s = ground arith

section_down-section_up : (s : Section) → section_down (section_up s) ≡ s
unfolding section_up section_down
section_down-section_up s = ground arith

-- Down after Up, and Up after Down, come back; and four steps go round all sections.
pub sections_cycle :
    (s : Section)
    → (section_up (section_down s) ≡ s)
      × (section_down (section_up s) ≡ s)
      × (section_down (section_down (section_down (section_down s))) ≡ s)
unfolding section_down
sections_cycle s = (section_up-section_down s, section_down-section_up s, ground arith)

module _ {F64 : Type 0} (names : Names) (cfg : FrameConfFile F64) (show : IpcError → List ℕ)
    (memory : ℕ → ℕ → Bool) where
  present_lem :
      (st : SettingsState) (pool : ShmDoubleBuffer)
      → (c : Option Committed) × (present names cfg show memory st pool
          ≡ record st { buffer = some (Shm.draw memory pool).0; committed = c })
  unfolding present
  present_lem st pool = elim (Result-cases (Shm.draw memory pool).1) [
    | inl (e, bad) ↦ (st.committed, ground (arith, bad))
    | inr (inl none_drawn) ↦ (st.committed, ground (arith, none_drawn))
    | inr (inr (b, drawn)) ↦ elim (Bool-cases st.surface) [
      | inl e ↦ ((present names cfg show memory st pool).committed, ground (arith, drawn, e))
      | inr e ↦ (st.committed, ground (arith, drawn, e))
    ]
  ]

  -- A redraw leaves the interface and the tasks as they are.
  present_on_lem :
      (st : SettingsState) (pool : Option ShmDoubleBuffer)
      → ((present_on names cfg show memory st pool).ui ≡ st.ui)
        × ((present_on names cfg show memory st pool).tasks ≡ st.tasks)
  present_on_lem st none = (refl, refl)
  present_on_lem st (some pool) =
      let (c, e) = present_lem st pool in (ap (λ u. u.ui) e, ap (λ u. u.tasks) e)

  redraw_lem :
      (st : SettingsState)
      → ((redraw names cfg show memory st).ui ≡ st.ui)
        × ((redraw names cfg show memory st).tasks ≡ st.tasks)
  unfolding redraw
  redraw_lem st =
      if_lem (λ (u : SettingsState). (u.ui ≡ st.ui) × (u.tasks ≡ st.tasks)) st.configured
        (present_on_lem st (ensure_buffer names cfg show memory st)) (refl, refl)

  -- Enter says that FRAME is reloading and starts one task; when the task ends, the status becomes
  -- what FRAME answered, no task is left over, and the section stays, but the display keeps
  -- what it showed: the answer waits for the next event that draws.
  pub reload_lem :
      (st : SettingsState) (connected : Bool) (outcome : Outcome)
      → let pressed = handle_action names cfg show memory st enter in
        let ended = end_task names cfg show memory pressed connected outcome in
        (pressed.ui.status ≡ some (codes "Reloading FRAME…"))
        × (pressed.tasks ≡ suc st.tasks)
        × (ended.ui.status ≡ some (status_text (reload_frame show connected outcome)))
        × (ended.tasks ≡ st.tasks)
        × (ended.ui.section ≡ st.ui.section)
        × (ended.committed ≡ pressed.committed)
  unfolding handle_action act end_task
  reload_lem st connected outcome =
      let (ui, tasks) = redraw_lem (act names cfg show memory st enter) in
      (
        ap (λ u. u.status) ui,
        tasks,
        ground (arith, tasks),
        ground (arith, tasks),
        ground (arith, tasks, ap (λ u. u.section) ui),
        ground (arith, tasks),
      )
