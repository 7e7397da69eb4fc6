-- ===== src/Server.antt =====
-- src/server.c: input routing, the demo scene, the change of resolution, and the work of the main
-- loop that is not a device's. The window stack is shared through pointers; here it is the one in
-- `wm`, and the transport is lent it for each call. The calls of the Wayland frontend that route
-- input change no state of the server, and are outputs; what Wayland clients do to the stack is not
-- modelled here.
pub mod Tests
pub mod Invariant
pub mod Session
pub mod Display
pub mod Pages
pub mod Idle
pub mod Resolution
pub mod Start
use crystalline_lattice.Common.{
  ℕ, zero, suc, ◌+◌, ◌-◌, ◌==◌, Bool, true, false, not, ◌&&◌, ◌||◌, Option, none, some, List, [],
  ◌∷◌, ◌++◌, map, get_elem?, if◌then◌else◌, ℤ, pos, ◌-ℤ◌, ◌/ℤ◌, leb_ℤ,
}
use crystalline_lattice.Window
use crystalline_lattice.Window.{Window, WindowStack, normal, desktop, is_desktop, count}
use crystalline_lattice.Wm
use crystalline_lattice.Wm.{Wm}
use crystalline_lattice.Transport.{Transport, Effect}
use crystalline_lattice.Transport.Routing
use crystalline_lattice.Transport.Dispatch.{Ready, process}

-- `struct input_event`, with the fields of its kind.
pub data InputEvent (Double : Type 0) : Type 0 where
  input_motion : Double → Double → InputEvent Double
  input_motion_abs : Double → Double → InputEvent Double
  input_button : ℕ → Bool → InputEvent Double
  input_key : ℕ → ℕ → Bool → Bool → InputEvent Double

-- What the server has done outside: by the transport's clients, the Wayland frontend, a new process.
pub data Output : Type 0 where
  to_client : Effect → Output
  wayland_motion : ℤ → ℤ → Output
  wayland_button : ℕ → Bool → Output
  wayland_key : ℕ → Bool → Output
  terminal : Output

-- `struct loop_ctx`, with `running` and the statics of `on_input`. `wayland` is whether the frontend
-- is there.
pub record Server : Type 0 where
  pub wm : Wm
  pub wayland : Bool
  pub xport : Option Transport
  pub dirty : Bool
  pub activity : Bool
  pub running : Bool
  pub ctrl_held : Bool
  pub alt_held : Bool

-- The transport over the shared stack.
abbrev pub lend : Wm → Transport → Transport
lend wm t = record t { stack = wm.stack }

abbrev pub if_wayland : Server → Output → List Output
if_wayland s o = if s.wayland then o ∷ [] else []

abbrev pub to_clients : Server → (Transport → List Effect) → List Output
to_clients s f = elim s.xport [ none ↦ [] | some t ↦ map (λ e. to_client e) (f (lend s.wm t)) ]

-- After a motion that left the window manager as `wm`.
unfoldable pub moved : Server → Wm → Server × List Output
moved s wm =
    let s' : Server = record s { wm = wm; dirty = true } in
    (
      s',
      if_wayland s' (wayland_motion wm.cursor_x wm.cursor_y)
          ++ to_clients s' (λ t. Routing.pointer_motion t wm.cursor_x wm.cursor_y),
    )

unfoldable pub clicked : Server → ℕ → Bool → Wm → Server × List Output
clicked s button pressed wm =
    let s' : Server = record s { wm = wm; dirty = true } in
    (
      s',
      if_wayland s' (wayland_button button pressed)
          ++ to_clients s' (λ t. Routing.pointer_button t button pressed wm.cursor_x wm.cursor_y),
    )

-- The raw modifiers after a key event.
unfoldable pub track_modifiers : ℕ → Bool → Server → Server
track_modifiers keycode pressed s =
    if keycode == 29 || keycode == 97
    then record s { ctrl_held = pressed }
    else if keycode == 56 || keycode == 100
    then record s { alt_held = pressed }
    else s

unfoldable pub typed : Server → ℕ → ℕ → Bool → Bool → Server × List Output
typed s keysym keycode pressed alt_down =
    let (consumed, wm) = Wm.key s.wm keysym pressed alt_down in
    if pressed && s.ctrl_held && s.alt_held && keycode == 20
    then (s, terminal ∷ [])
    else if pressed && keysym == 0xff1b
    then (record s { running = false }, [])
    else if consumed
    then (record s { wm = wm; dirty = true }, [])
    else (
      record s { wm = wm },
      if_wayland s (wayland_key keycode pressed)
          ++ to_clients s (λ t. Routing.keyboard_key t wm.stack.focus_id keysym pressed),
    )

module _ {Double : Type 0} (to_int : Double → ℤ) where
  unfoldable pub on_input : InputEvent Double → Server → Server × List Output
  on_input (input_motion dx dy) s =
      moved (record s { activity = true }) (Wm.pointer_motion to_int s.wm dx dy)
  on_input (input_motion_abs ax ay) s =
      moved (record s { activity = true }) (Wm.pointer_motion_abs to_int s.wm ax ay)
  on_input (input_button button pressed) s =
      clicked (record s { activity = true }) button pressed (Wm.pointer_button s.wm button pressed)
  on_input (input_key keysym keycode pressed alt_down) s =
      typed (track_modifiers keycode pressed (record s { activity = true })) keysym keycode pressed
        alt_down

abbrev pub name_desktop : List ℕ
name_desktop = b'd' ∷ b'e' ∷ b's' ∷ b'k' ∷ b't' ∷ b'o' ∷ b'p' ∷ []

abbrev pub name_a : List ℕ
name_a = b'W' ∷ b'i' ∷ b'n' ∷ b'd' ∷ b'o' ∷ b'w' ∷ b' ' ∷ b'A' ∷ []

abbrev pub name_b : List ℕ
name_b = b'W' ∷ b'i' ∷ b'n' ∷ b'd' ∷ b'o' ∷ b'w' ∷ b' ' ∷ b'B' ∷ []

unfoldable pub seed_windows : WindowStack → ℤ → ℤ → WindowStack
seed_windows s sw sh =
    let (_, s1) = Window.create s desktop (pos 0) (pos 0) sw sh 0x00204060 (some name_desktop) in
    let (_, s2) =
      Window.create s1 normal (sw /ℤ 6) (sh /ℤ 6) (pos 520) (pos 360) 0x00d8d8d8 (some name_a) in
    let (b, s3) =
      Window.create s2 normal (sw /ℤ 3) (sh /ℤ 3) (pos 480) (pos 320) 0x00eeeeee (some name_b) in
    Window.focus s3 b

-- The start of `server_run`, with the display's size: the stack, with the demo scene where no shell
-- is wanted, and the window manager in the memory that it finds.
unfoldable pub boot : Wm → Bool → ℤ → ℤ → Wm
boot memory want_shell w h =
    let stack = if want_shell then Window.init else seed_windows Window.init w h in
    Wm.init memory stack w h

-- The loop of `apply_mode_cb` over the stack, from the entry `i` on with `n` to go.
unfoldable pub refit : ℕ → ℕ → ℤ → ℤ → WindowStack → WindowStack
refit zero i nw nh s = s
refit (suc n) i nw nh s = elim (get_elem? s.windows i) [
  | none ↦ refit n (suc i) nw nh s
  | some w ↦
      let fitted = Window.set_geometry s w.id (pos 0) (pos 0) nw nh in
      refit n (suc i) nw nh (if is_desktop w.role then fitted else s)
]

-- The window manager on a screen of the new size.
unfoldable pub resize : Wm → ℤ → ℤ → Wm
resize wm nw nh = record wm {
  screen_w = nw;
  screen_h = nh;
  cursor_x = if leb_ℤ nw wm.cursor_x then nw -ℤ pos 1 else wm.cursor_x;
  cursor_y = if leb_ℤ nh wm.cursor_y then nh -ℤ pos 1 else wm.cursor_y;
  stack = refit (count wm.stack) 0 nw nh wm.stack;
}

-- `set` is whether the KMS mode was found, with the size of its display, and `allocated` whether
-- both framebuffers were made.
unfoldable pub apply_mode : Server → Bool → ℤ → ℤ → Bool → Bool × Server × List Output
apply_mode s set nw nh allocated =
    let wm = resize s.wm nw nh in
    let told : Option Transport × List Output = elim s.xport [
      | none ↦ (none, [])
      | some t ↦
          let (t', effects) = Routing.broadcast_screen (lend wm t) nw nh in
          (some t', map (λ e. to_client e) effects)
    ] in
    if not set || not allocated
    then (false, s, [])
    else (true, record s { wm = wm; xport = told.0; dirty = true }, told.1)

-- `transport_process` in the main loop.
unfoldable pub serve_clients : Server → ℕ → List Ready → Server × List Output
serve_clients s now events = elim s.xport [
  | none ↦ (s, [])
  | some t ↦
      let (t', effects, dirty) = process (lend s.wm t) now events in
      (
        record s {
          wm = record (s.wm) { stack = t'.stack };
          xport = some t';
          dirty = s.dirty || dirty;
        },
        map (λ e. to_client e) effects,
      )
]

-- The end of a round of the main loop: the focus, and a geometry that the window manager changed,
-- are told to the clients.
unfoldable pub settle : Server → Server × List Output
settle s =
    let focused : Option Transport × List Output = elim s.xport [
      | none ↦ (none, [])
      | some t ↦
          let (t', effects) = Routing.update_focus (lend s.wm t) s.wm.stack.focus_id in
          (some t', map (λ e. to_client e) effects)
    ] in
    let s' : Server = record s { xport = focused.0 } in
    if s.wm.reconfigured_id == 0 then (s', focused.1) else (
      record s' { wm = record (s.wm) { reconfigured_id = 0 }; dirty = true },
      focused.1 ++ to_clients s' (λ t. Routing.notify_geometry t s.wm.reconfigured_id),
    )
