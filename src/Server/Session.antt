-- ===== src/Server/Session.antt =====
-- The main loop of src/server.c: input, clients and changes of resolution, in any order.
use crystalline_lattice.Common.{
  ℕ, ◌+◌, ◌^◌, ◌<◌, Bool, some, List, [], ◌∷◌, ℤ, pos, ◌<ℤ◌, if◌then◌else◌, ◌/ℤ◌,
}
use crystalline_lattice.Window
use crystalline_lattice.Window.{Window, WindowStack, desktop, normal, is_desktop, count}
use crystalline_lattice.Window.Reach
use crystalline_lattice.Window.Reach.{Call, create, focus}
use crystalline_lattice.Window.Invariant
use crystalline_lattice.Window.Invariant.{set_geometry-IsValid}
use crystalline_lattice.Wm
use crystalline_lattice.Wm.{Wm, key}
use crystalline_lattice.Wm.Invariant.{IsValid}
use crystalline_lattice.Transport.Dispatch.{Ready}
use crystalline_lattice.Transport.Stack.Process.{ready_datagrams}
use crystalline_lattice.Server.{
  InputEvent, Server, on_input, apply_mode, serve_clients, settle, name_desktop, name_a, name_b,
}

-- What the main loop does in a round: an input event, the events of the transport's sockets, a
-- request for a resolution with what the display and its memory answer, and the end of the round.
pub data Step (Double : Type 0) : Type 0 where
  input : InputEvent Double → Step Double
  clients : ℕ → List Ready → Step Double
  mode : Bool → ℤ → ℤ → Bool → Step Double
  round_end : Step Double

-- How many datagrams the step reads.
abbrev pub step_datagrams : {Double : Type 0} → Step Double → ℕ
step_datagrams (input e) = 0
step_datagrams (clients now events) = ready_datagrams events
step_datagrams (mode set nw nh allocated) = 0
step_datagrams round_end = 0

abbrev pub all_step_datagrams : {Double : Type 0} → List (Step Double) → ℕ
all_step_datagrams [] = 0
all_step_datagrams (e ∷ es) = step_datagrams e + all_step_datagrams es

-- A display mode has a pixel.
abbrev pub HasPixel : {Double : Type 0} → Step Double → Type 0
HasPixel (input e) = Unit
HasPixel (clients now events) = Unit
HasPixel (mode set nw nh allocated) = (pos 0 <ℤ nw) × (pos 0 <ℤ nh)
HasPixel round_end = Unit

-- A valid window manager, with room for `room` more windows before the id counter wraps.
abbrev pub Roomy : ℕ → Server → Type 0
Roomy room s = IsValid s.wm × (s.wm.stack.next_id + room < 2 ^ 32)

module _ {Double : Type 0} (to_int : Double → ℤ) where
  unfoldable pub step : Step Double → Server → Server
  step (input e) s = (on_input to_int e s).0
  step (clients now events) s = (serve_clients s now events).0
  step (mode set nw nh allocated) s = (apply_mode s set nw nh allocated).1
  step round_end s = (settle s).0

  unfoldable pub loop : List (Step Double) → Server → Server
  loop [] s = s
  loop (e ∷ es) s = loop es (step e s)

-- The calls on the stack before the loop.
abbrev scene : Bool → ℤ → ℤ → List Call
scene want_shell w h =
    if want_shell
    then []
    else (create desktop (pos 0) (pos 0) w h 0x00204060 (some name_desktop)
        ∷ create normal (w /ℤ 6) (h /ℤ 6) (pos 520) (pos 360) 0x00d8d8d8 (some name_a)
        ∷ create normal (w /ℤ 3) (h /ℤ 3) (pos 480) (pos 320) 0x00eeeeee (some name_b)
        ∷ focus 3
        ∷ [])
