-- ===== src/Wayland/Keys.antt =====
-- src/wayland.c: the keyboard events of a series of focus changes and keys, in the protocol's order.
use crystalline_lattice.Common.{ℕ, Bool, Option, List, [], ◌∷◌, ◌++◌}
use crystalline_lattice.Wayland.{
  Resource, Frontend, Event, keyboard_enter, keyboard_leave, key, modifiers, surface_by_window,
}
use crystalline_lattice.Wayland.Input.{keyboard_key, keyboard_focus}
use crystalline_lattice.Wayland.Monitor.{Deed, enters, leaves, uses, nothing, entered}

-- What each event means for a keyboard.
abbrev pub keyboard_deed : Event → Deed
keyboard_deed (keyboard_enter r s) = enters r s
keyboard_deed (keyboard_leave r s) = leaves r s
keyboard_deed (key r code pressed) = uses r
keyboard_deed (modifiers r mods) = uses r
keyboard_deed _ = nothing

-- The surface that the keyboard has entered, where the client of the surface is the keyboard's.
abbrev pub focus_surface : Resource → Frontend → Option ℕ
focus_surface r fe = entered r (surface_by_window fe fe.kbd_focus)

-- What the server tells the frontend of the keyboard.
pub data KeyboardInput : Type 0 where
  focus_on : ℕ → KeyboardInput
  type_key : ℕ → Bool → KeyboardInput

module _ {Xkb : Type 0} (update_key : ℕ → Bool → Xkb → Xkb) (serialize : Xkb → ℕ) where
  unfoldable pub route_keys : List KeyboardInput → Option Xkb → Frontend → Frontend × List Event
  route_keys [] xkb fe = (fe, [])
  route_keys (focus_on id ∷ is) xkb fe =
      let (fe', events) = keyboard_focus update_key serialize id xkb fe in
      let (last, later) = route_keys is xkb fe' in (last, events ++ later)
  route_keys (type_key code pressed ∷ is) xkb fe =
      let (xkb', events) = keyboard_key update_key serialize code pressed xkb fe in
      let (last, later) = route_keys is xkb' fe in (last, events ++ later)
