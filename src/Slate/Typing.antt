-- ===== src/Slate/Typing.antt =====
-- What the shell is sent.
use nullxesos.Prelude.{
  ℕ, ◌≡◌, refl, subst, sym, ◌∙◌, ap, true, Option, none, some, List, [], ◌∷◌, ◌++◌, arith, ◌==◌,
  if_lem, not, ◌||◌,
}
use mathlib.Core.List.{append-nil, append_assoc}
use nullxesos.Keymap.{Action, Xkb, KeySymbol, action, text, nothing, process_key}
use nullxesos.Prelude.Int.{ℤ}
use nullxesos.Shm.{ShmDoubleBuffer}
use nullxesos.Slate.Render.{cell_grid_for_window}
use nullxesos.Slate.Sizes.{present_lem}
use nullxesos.Slate.{
  Outside, SlateState, TerminalSession, key_bytes, handle_action, handle_text, handle_symbol, Event,
  configure_event, toplevel_configure, close_event, capabilities_event, keymap_event,
  modifiers_event, key_pressed, release_event, other_event, event, dispatch_all, update, write,
  write_to, present_on, redraw, ensure_term, ensure_buffer, configure_toplevel, asked, default_w,
  default_h, resize_term, resize_session,
}

-- No two of the keys that are not texts send the shell the same bytes.
pub key_bytes-inj : (a b : Action) → key_bytes a ≡ key_bytes b → a ≡ b
unfolding key_bytes
key_bytes-inj a b h = ground (arith, h)

module _ (o : Outside) where
  -- The bytes that the keys among the events stand for, with the keymap that holds at each.
  abbrev pub meaning : KeySymbol → List (List ℕ)
  meaning (action a) = key_bytes a ∷ []
  meaning (text s) = o.utf8 s ∷ []
  meaning nothing = []

  unfoldable pub typed : Option Xkb → List Event → List (List ℕ)
  typed keymap [] = []
  typed keymap (key_pressed key ∷ es) = meaning (process_key keymap key) ++ typed keymap es
  typed keymap (keymap_event (some x) ∷ es) = typed (some x) es
  typed keymap (modifiers_event change ∷ es) = typed (update change keymap) es
  typed keymap (_ ∷ es) = typed keymap es

  -- A session that was sent this, under this keymap.
  abbrev pub WasSent : List (List ℕ) → Option Xkb → SlateState → Type 0
  WasSent bytes keymap st =
      (t : TerminalSession) × (st.term ≡ some t) × (t.written ≡ bytes) × (st.keymap ≡ keymap)

  handle_symbol-WasSent :
      (st : SlateState) (k : KeySymbol) (bytes : List (List ℕ)) (keymap : Option Xkb)
      → WasSent bytes keymap st
      → WasSent (bytes ++ meaning k) keymap (handle_symbol o st k)
  unfolding handle_action handle_text
  handle_symbol-WasSent st (action a) bytes keymap (t, e, same, keys) = (
    write t (key_bytes a),
    ap (λ u. write_to u (key_bytes a)) e,
    ap (λ b. b ++ (key_bytes a ∷ [])) same,
    keys,
  )
  handle_symbol-WasSent st (text s) bytes keymap (t, e, same, keys) = (
    write t (o.utf8 s),
    ap (λ u. write_to u (o.utf8 s)) e,
    ap (λ b. b ++ (o.utf8 s ∷ [])) same,
    keys,
  )
  handle_symbol-WasSent st nothing bytes keymap (t, e, same, keys) =
      (t, e, same ∙ sym (append-nil bytes), keys)

  present_on-WasSent :
      (elapsed : ℕ) (st : SlateState) (pool : Option ShmDoubleBuffer) (bytes : List (List ℕ))
      (keymap : Option Xkb)
      → WasSent bytes keymap st
      → WasSent bytes keymap (present_on o elapsed st pool)
  present_on-WasSent elapsed st none bytes keymap was = was
  present_on-WasSent elapsed st (some pool) bytes keymap was =
      let (c, e) = present_lem o elapsed st pool in subst (WasSent bytes keymap) (sym e) was

  redraw-WasSent :
      (elapsed : ℕ) (st : SlateState) (bytes : List (List ℕ)) (keymap : Option Xkb)
      → WasSent bytes keymap st
      → WasSent bytes keymap (redraw o elapsed st)
  unfolding redraw ensure_term
  redraw-WasSent elapsed st bytes keymap (t, e, same, keys) =
      let started : st ≡ ensure_term o st = ground (arith, e) in
      if_lem (WasSent bytes keymap) st.configured
        (present_on-WasSent elapsed (ensure_term o st) (ensure_buffer o (ensure_term o st)) bytes
          keymap (subst (WasSent bytes keymap) started (t, e, same, keys)))
        (t, e, same, keys)

  configure_toplevel-WasSent :
      (st : SlateState) (width height : ℤ) (bytes : List (List ℕ)) (keymap : Option Xkb)
      → WasSent bytes keymap st
      → WasSent bytes keymap (configure_toplevel o st width height)
  unfolding configure_toplevel
  configure_toplevel-WasSent st width height bytes keymap (t, e, same, keys) =
      let new_w : ℕ = asked width default_w in
      let new_h : ℕ = asked height default_h in
      let (cols, rows) = cell_grid_for_window new_w new_h in
      if_lem (WasSent bytes keymap) (not (new_w == st.width) || not (new_h == st.height))
        (resize_term o cols rows t, ap (λ u. resize_session o new_w new_h u) e, same, keys)
        (t, e, same, keys)

  unfoldable after_keys : Option Xkb → List Event → Option Xkb
  after_keys keymap [] = keymap
  after_keys keymap (keymap_event (some x) ∷ es) = after_keys (some x) es
  after_keys keymap (modifiers_event change ∷ es) = after_keys (update change keymap) es
  after_keys keymap (_ ∷ es) = after_keys keymap es

  dispatch_all-WasSent :
      (elapsed : ℕ) (es : List Event) (st : SlateState) (bytes : List (List ℕ))
      (keymap : Option Xkb)
      → WasSent bytes keymap st
      → WasSent (bytes ++ typed keymap es) (after_keys keymap es) (dispatch_all o elapsed st es)
  unfolding dispatch_all event typed after_keys
  dispatch_all-WasSent elapsed [] st bytes keymap (t, e, same, keys) =
      (t, e, same ∙ sym (append-nil bytes), keys)
  dispatch_all-WasSent elapsed (configure_event ∷ es) st bytes keymap was =
      dispatch_all-WasSent elapsed es (event o elapsed st configure_event) bytes keymap
        (redraw-WasSent elapsed (record st { configured = true }) bytes keymap was)
  dispatch_all-WasSent elapsed (toplevel_configure w h ∷ es) st bytes keymap was =
      dispatch_all-WasSent elapsed es (event o elapsed st (toplevel_configure w h)) bytes keymap
        (configure_toplevel-WasSent st w h bytes keymap was)
  dispatch_all-WasSent elapsed (key_pressed key ∷ es) st bytes keymap (t, e, same, keys) =
      let m : List (List ℕ) = meaning (process_key keymap key) in
      subst
        (λ b. WasSent b (after_keys keymap es) (dispatch_all o elapsed st (key_pressed key ∷ es)))
        (append_assoc bytes m (typed keymap es))
        (dispatch_all-WasSent elapsed es (event o elapsed st (key_pressed key)) (bytes ++ m) keymap
          (subst
            (λ k.
              WasSent (bytes ++ meaning (process_key k key)) keymap
                (event o elapsed st (key_pressed key)))
            keys
            (handle_symbol-WasSent st (process_key st.keymap key) bytes keymap (t, e, same, keys))))
  dispatch_all-WasSent elapsed (keymap_event (some x) ∷ es) st bytes keymap (t, e, same, keys) =
      dispatch_all-WasSent elapsed es (event o elapsed st (keymap_event (some x))) bytes (some x)
        (t, e, same, refl)
  dispatch_all-WasSent elapsed (modifiers_event change ∷ es) st bytes keymap (t, e, same, keys) =
      dispatch_all-WasSent elapsed es (event o elapsed st (modifiers_event change)) bytes
        (update change keymap) (t, e, same, ap (update change) keys)
  dispatch_all-WasSent elapsed (close_event ∷ es) st bytes keymap was =
      dispatch_all-WasSent elapsed es (event o elapsed st close_event) bytes keymap was
  dispatch_all-WasSent elapsed (capabilities_event b ∷ es) st bytes keymap was =
      dispatch_all-WasSent elapsed es (event o elapsed st (capabilities_event b)) bytes keymap was
  dispatch_all-WasSent elapsed (keymap_event none ∷ es) st bytes keymap was =
      dispatch_all-WasSent elapsed es st bytes keymap was
  dispatch_all-WasSent elapsed (release_event n ∷ es) st bytes keymap was =
      dispatch_all-WasSent elapsed es (event o elapsed st (release_event n)) bytes keymap was
  dispatch_all-WasSent elapsed (other_event ∷ es) st bytes keymap was =
      dispatch_all-WasSent elapsed es st bytes keymap was

  -- Once a shell runs, the events of the display send it the bytes of the keys that are pressed, in
  -- their order and under the keymap and the modifiers that hold at each, and nothing else.
  pub typed_lem :
      (elapsed : ℕ) (es : List Event) (st : SlateState) (t : TerminalSession)
      → st.term ≡ some t
      → (t' : TerminalSession) × ((dispatch_all o elapsed st es).term ≡ some t')
        × (t'.written ≡ t.written ++ typed st.keymap es)
  typed_lem elapsed es st t e =
      let (t', e', same, _) =
        dispatch_all-WasSent elapsed es st t.written st.keymap (t, e, refl, refl) in
      (t', e', same)
