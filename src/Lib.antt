-- ===== src/Lib.antt =====
-- NULLXES OS: a desktop of programs in Rust (crates/) around a Wayland compositor, FRAME. Modelled are
-- the state and the decisions of these programs; what they draw, and what the display, the file
-- system, D-Bus, PAM and third-party crates do, enters as arguments.
--
-- Workspace  crates/frame/src/workspace.rs, WorkspaceManager: which workspace is active and which
--            window is focused in each. `Manager` is its state, one function per method.
-- Frame      crates/frame/src. `Frame.State` is NullxesState with one `Space` per workspace. Handlers
--            are functions on it: `Toplevel` (handlers/xdg_shell.rs, input/move_grab.rs), `Keybind` and
--            `Input` (input/), `Lock` (handlers/session_lock.rs), `Server` (ipc_server.rs). `Coherence`
--            puts them together to what the main loop runs. `Config` is config.rs, `Idle` is idle.rs,
--            `Xwm` is the XwmState of xwm.rs, `Panel` is panel/, `System` is system/, whose tasks write
--            what the panel shows, and `Render` is render.rs. The windows and spaces of the smithay
--            library are the record `Platform`, and `Lawful` is what smithay documents of them.
-- Ipc        crates/ipc/src: the messages of the control protocol and its client.
-- Notif      crates/nx-notif/src: `Dbus` takes the calls and numbers them, `History` keeps them on disk,
--            `Surface` is the thread that shows them.
-- Lock       crates/nx-lock/src: the lock screen, with the thread that asks PAM.
-- Shm        crates/wlcommon/src/shm.rs: the buffers that all clients draw to, and the pixel helpers.
-- Theme      crates/theme/src: the colours as bytes, `Text`, the text renderer with its cache, and
--            `Fonts`, the search of its fonts (also crates/wlcommon/src/fonts.rs).
-- Paint      a frame of a client as the calls of `Shm.Pixels` and `Theme.Text` that draw it, which the
--            modules `Render` and `Draw` of the clients make.
-- Slate      crates/slate/src: the terminal, its window, its shell and its two threads.
-- Settings   crates/nx-settings/src: the settings program; `Conf` is the configuration file.
-- Keymap     crates/wlcommon/src/keymap.rs: what a key means to a client.
-- Launcher   crates/launcher/src/state.rs and search.rs: the query, the ranking and the selection; `Apps`
--            is apps.rs, the list of applications, and `Lockfile` the lock file of main.rs, with
--            several launchers in any order.
-- Greet      crates/nx-greet/src/state.rs and ipc.rs: the dialogue of the greeter with greetd.
-- Prelude    names shared by all of these: Boolean tests, lists over native numbers, integers.
--
-- Numbers are natural numbers. A `u32` or `u64` that can wrap keeps `% 2 ^ 32` or `% 2 ^ 64`, an `i32`
-- is an integer with its saturation written out. Loops are recursion on what they go through: the list
-- of events or lines, the tries that are left (32), the rows and columns of a rectangle. So no fuel is
-- needed but for the digits of a number, which are fewer than the number and one, and each function
-- is total. The two threads of the lock screen, the listeners of the compositor, its operations, and
-- the launchers at their lock file are sequences of steps in any order.
--
-- A colour is its four bytes; a text is a list of characters by their numbers; a panic of an index out
-- of range or of a slice inside a character is `none`. Coordinates of drawing are integers: in
-- the text renderer they wrap like the `i32` of the release profile, elsewhere overflow is modelled
-- where the code saturates or casts, and nowhere else. What a font's glyph
-- looks like, what TOML makes of a configuration and what the terminal emulation puts on its
-- screen are arguments.
--
-- Not modelled: the backends and the event loop; the delegation of Wayland protocols to smithay; the
-- calls of D-Bus and of logind; the search of the greeter's picture; the start of the programs; the
-- build tasks, packages and the image. They are I/O, calls of third-party code, and constants.
pub mod Prelude
pub mod Workspace
pub mod Frame
pub mod Ipc
pub mod Notif
pub mod Lock
pub mod Shm
pub mod Keymap
pub mod Launcher
pub mod Greet
pub mod Theme
pub mod Paint
pub mod Slate
pub mod Settings
