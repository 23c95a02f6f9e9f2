-- ===== src/Slate/Waiting.antt =====
-- When the terminal shows what the shell put out, and when it ends.
use nullxesos.Prelude.{
  ℕ, ◌≡◌, refl, ◌∙◌, ap, inl, inr, Bool, true, false, ◌||◌, Option, none, some, List, [], ◌∷◌,
  arith, map, any, ◌==◌, Bool-cases, Option-cases, if_lem,
}
use nullxesos.Keymap.{KeySymbol, action, text, nothing, process_key}
use nullxesos.Shm
use nullxesos.Shm.{ShmDoubleBuffer}
use nullxesos.Slate.Render.{Screen}
use nullxesos.Slate.Sizes.{present_lem}
use nullxesos.Slate.{
  Outside, SlateState, Report, other_report, send_event, Event, configure_event, toplevel_configure,
  close_event, capabilities_event, keymap_event, modifiers_event, key_pressed, release_event,
  other_event, Step, turn, output, put_screen, ensure_term, ensure_buffer, present_on, redraw,
  configure_toplevel, handle_symbol, handle_action, handle_text, event, dispatch_all, drain, step,
  run,
}

abbrev pub is_close : Event → Bool
is_close close_event = true
is_close _ = false

abbrev pub closes : Step → Bool
closes (turn elapsed e es) = any is_close (e ∷ es)
closes (output s report) = false

send_event_lem :
    (st : SlateState) (r : Report)
    → ((send_event st r).should_close ≡ st.should_close)
      × ((send_event st r).committed ≡ st.committed)
unfolding send_event
send_event_lem st other_report = (refl, refl)
send_event_lem st _ = (refl, refl)

module _ (o : Outside) where
  handle_symbol-should_close :
      (st : SlateState) (k : KeySymbol) → (handle_symbol o st k).should_close ≡ st.should_close
  unfolding handle_action handle_text
  handle_symbol-should_close st (action a) = refl
  handle_symbol-should_close st (text s) = refl
  handle_symbol-should_close st nothing = refl

  ensure_term-should_close : (st : SlateState) → (ensure_term o st).should_close ≡ st.should_close
  unfolding ensure_term
  ensure_term-should_close st = grind arith

  present_on-should_close :
      (elapsed : ℕ) (st : SlateState) (pool : Option ShmDoubleBuffer)
      → (present_on o elapsed st pool).should_close ≡ st.should_close
  present_on-should_close elapsed st none = refl
  present_on-should_close elapsed st (some pool) =
      ap (λ u. u.should_close) (present_lem o elapsed st pool).1

  redraw-should_close :
      (elapsed : ℕ) (st : SlateState) → (redraw o elapsed st).should_close ≡ st.should_close
  unfolding redraw
  redraw-should_close elapsed st =
      if_lem (λ (u : SlateState). u.should_close ≡ st.should_close) st.configured
        (present_on-should_close elapsed (ensure_term o st) (ensure_buffer o (ensure_term o st))
          ∙ ensure_term-should_close st)
        refl

  event-should_close :
      (elapsed : ℕ) (st : SlateState) (e : Event)
      → (event o elapsed st e).should_close ≡ (is_close e || st.should_close)
  unfolding event configure_toplevel
  event-should_close elapsed st configure_event =
      redraw-should_close elapsed (record st { configured = true })
  event-should_close elapsed st (toplevel_configure width height) = grind arith
  event-should_close elapsed st close_event = refl
  event-should_close elapsed st (capabilities_event keyboard) = refl
  event-should_close elapsed st (keymap_event none) = refl
  event-should_close elapsed st (keymap_event (some x)) = refl
  event-should_close elapsed st (modifiers_event change) = refl
  event-should_close elapsed st (key_pressed key) =
      handle_symbol-should_close st (process_key st.keymap key)
  event-should_close elapsed st (release_event n) = refl
  event-should_close elapsed st other_event = refl

  dispatch_all-should_close :
      (elapsed : ℕ) (es : List Event) (st : SlateState)
      → (dispatch_all o elapsed st es).should_close ≡ (any is_close es || st.should_close)
  unfolding dispatch_all
  dispatch_all-should_close elapsed [] st = refl
  dispatch_all-should_close elapsed (e ∷ es) st = ground (
    arith,
    dispatch_all-should_close elapsed es (event o elapsed st e),
    event-should_close elapsed st e,
  )

  drain-should_close :
      (elapsed : ℕ) (st : SlateState) → (drain o elapsed st).should_close ≡ st.should_close
  unfolding drain
  drain-should_close elapsed st =
      if_lem (λ (u : SlateState). u.should_close ≡ st.should_close) (st.dirty == 0) refl
        (redraw-should_close elapsed (record st { dirty = 0 }))

  step-should_close :
      (st : SlateState) (s : Step) → ((step o st s).should_close ≡ (closes s || st.should_close))
  unfolding step
  step-should_close st (turn elapsed e es) = elim (Bool-cases st.should_close) [
    | inl h ↦ ground (arith, h)
    | inr h ↦ ground (
      arith,
      h,
      drain-should_close elapsed (dispatch_all o elapsed st (e ∷ es))
          ∙ dispatch_all-should_close elapsed (e ∷ es) st,
    )
  ]
  step-should_close st (output s report) = elim (Option-cases st.term) [
    | inl e ↦ ground (arith, e)
    | inr (t, e) ↦
        ground (arith, e, send_event_lem (record st { term = put_screen s st.term }) report)
  ]

  -- The terminal ends exactly when the display closes its window: nothing that the shell reports, its
  -- own exit included, ends it.
  pub run-should_close :
      (steps : List Step) (st : SlateState)
      → (run o st steps).should_close ≡ (any closes steps || st.should_close)
  unfolding run
  run-should_close [] st = refl
  run-should_close (s ∷ steps) st =
      ground (arith, run-should_close steps (step o st s), step-should_close st s)

  -- However much the shell puts out, the display keeps what it shows until the display itself sends
  -- something.
  pub outputs-committed :
      (outs : List (Screen × Report)) (st : SlateState)
      → (run o st (map (λ out. output out.0 out.1) outs)).committed ≡ st.committed
  unfolding run step
  outputs-committed [] st = refl
  outputs-committed ((s, report) ∷ outs) st =
      outputs-committed outs (step o st (output s report)) ∙ elim (Option-cases st.term) [
        | inl e ↦ ground (arith, e)
        | inr (t, e) ↦
            ground (arith, e, send_event_lem (record st { term = put_screen s st.term }) report)
      ]
