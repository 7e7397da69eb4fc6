-- ===== src/Wayland/Focus.antt =====
-- src/wayland.c: the pointer events of a series of motions and buttons, in the protocol's order.
use crystalline_lattice.Common.{ℕ, Bool, Option, List, [], ◌∷◌, ◌++◌, ℤ}
use crystalline_lattice.Wayland.{
  Resource, Frontend, Event, pointer_enter, pointer_leave, motion, button, surface_by_window,
}
use crystalline_lattice.Wayland.Input.{Target, pointer_motion, pointer_button}
use crystalline_lattice.Wayland.Monitor.{Deed, enters, leaves, uses, nothing, entered}

-- What each event means for a pointer; a frame only ends a group.
abbrev pub pointer_deed : Event → Deed
pointer_deed (pointer_enter r s x y) = enters r s
pointer_deed (pointer_leave r s) = leaves r s
pointer_deed (motion r x y) = uses r
pointer_deed (button r b pressed) = uses r
pointer_deed _ = nothing

-- The surface that the pointer has entered, where the client of the surface is the pointer's.
abbrev pub over_surface : Resource → Frontend → Option ℕ
over_surface r fe = entered r (surface_by_window fe fe.pointer_focus)

-- What the server routes to the pointers.
pub data PointerInput : Type 0 where
  move_to : ℤ → ℤ → PointerInput
  press : ℕ → Bool → PointerInput

unfoldable pub route : List PointerInput → Frontend → Frontend × List Event
route [] fe = (fe, [])
route (move_to gx gy ∷ is) fe =
    let (fe', events) = pointer_motion gx gy fe in
    let (last, later) = route is fe' in (last, events ++ later)
route (press b pressed ∷ is) fe =
    let (last, later) = route is fe in (last, pointer_button b pressed fe ++ later)
