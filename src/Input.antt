-- ===== src/Input.antt =====
-- src/input.c and src/seat.c: the devices that libinput opens through the seat, its events as the
-- server takes them, and the session. What libseat, libinput and xkbcommon answer is an argument.
pub mod Table
pub mod Devices
pub mod Tests
use crystalline_lattice.Common.{
  ℕ, zero, suc, ◌+◌, ◌-◌, ◌==◌, ltb, Bool, true, false, Option, none, some, List, [], ◌∷◌, ◌++◌,
  set, get_elem?, length, take, if◌then◌else◌, ℤ,
}
use crystalline_lattice.Server.{InputEvent, input_motion, input_motion_abs, input_button, input_key}

-- `struct seat`; a device that libseat opens is its id and its descriptor.
pub record Seat : Type 0 where
  pub has_handle : Bool
  pub active : Bool

-- A callback of libseat; `on_disable` acknowledges it, too.
pub data SeatEvent : Type 0 where
  enabled disabled : SeatEvent

unfoldable pub seat_event : SeatEvent → Seat → Seat
seat_event enabled s = record s { active = true }
seat_event disabled s = record s { active = false }

-- `libseat_dispatch` calls back for each event that is there.
unfoldable pub seat_dispatch : List SeatEvent → Seat → Seat
seat_dispatch [] s = s
seat_dispatch (e ∷ es) s = seat_dispatch es (seat_event e s)

-- The loop of `seat_open`: each call of `libseat_dispatch` fails or has events. `fuel` bounds the
-- calls, and `none` is a call too many.
unfoldable pub pump : ℕ → (ℕ → Option (List SeatEvent)) → Seat → Option (Bool × Seat)
pump zero answers s = none
pump (suc fuel) answers s = if s.active then some (true, s) else elim (answers 0) [
  | none ↦ some (false, s)
  | some es ↦ pump fuel (λ n. answers (suc n)) (seat_dispatch es s)
]

-- `opened` is whether `libseat_open_seat` gives a seat, with the events that it calls back for.
unfoldable pub seat_open :
    ℕ → Option (List SeatEvent) → (ℕ → Option (List SeatEvent)) → Option (Bool × Seat)
seat_open fuel none answers = some (false, record { has_handle = false; active = false })
seat_open fuel (some es) answers =
    elim (pump fuel answers (seat_dispatch es (record { has_handle = true; active = false }))) [
      | none ↦ none
      | some r ↦ some r
    ]

-- What `libseat_open_device` answers: an id and a descriptor, none where either is negative.
unfoldable pub seat_open_device : Option ℕ → Option ℕ → Option (ℕ × ℕ)
seat_open_device none fd = none
seat_open_device (some id) none = none
seat_open_device (some id) (some fd) = some (id, fd)

abbrev pub max_devs : ℕ
max_devs = 64

-- An entry of `devs`.
pub record Device : Type 0 where
  pub fd : ℕ
  pub devid : ℕ

-- `devs` below `ndev`, with the descriptor that libinput gets, none for -1.
unfoldable pub open_restricted : Option (ℕ × ℕ) → List Device → List Device × Option ℕ
open_restricted none devs = (devs, none)
open_restricted (some (id, fd)) devs = (
  if ltb (length devs) max_devs then devs ++ record { fd = fd; devid = id } ∷ [] else devs,
  some fd,
)

-- `devs[i] = devs[ndev - 1]; ndev--`
unfoldable pub take_out : ℕ → List Device → List Device
take_out i devs =
    let last = length devs - 1 in
    elim (get_elem? devs last) [ none ↦ devs | some d ↦ take last (set devs i d) ]

-- The loop of `close_restricted`, at the index `i` with `rest` to go; the second component is the
-- device that the seat is asked to close.
unfoldable pub close_from : ℕ → ℕ → List Device → List Device → List Device × List ℕ
close_from fd i [] devs = (devs, [])
close_from fd i (d ∷ rest) devs =
    if d.fd == fd then (take_out i devs, d.devid ∷ []) else close_from fd (suc i) rest devs

unfoldable pub close_restricted : ℕ → List Device → List Device × List ℕ
close_restricted fd devs = close_from fd 0 devs devs

-- An event of libinput; an absolute position is given as a function of the size of the screen, as
-- libinput transforms it.
pub data LibEvent (Double : Type 0) : Type 0 where
  pointer_motion : Double → Double → LibEvent Double
  pointer_motion_absolute : (ℤ → Double) → (ℤ → Double) → LibEvent Double
  pointer_button : ℕ → Bool → LibEvent Double
  keyboard_key : ℕ → Bool → LibEvent Double
  other_event : LibEvent Double

-- xkbcommon over a state of its own: the symbol of a key, the state after it, and whether Alt is
-- down.
module _ {Double State : Type 0} (one_sym : State → ℕ → ℕ) (update : State → ℕ → Bool → State)
    (alt_active : State → Bool) where
  -- `emit_key`; an evdev code is 8 less than xkb's.
  unfoldable pub emit_key : ℕ → Bool → Option State → Option State × InputEvent Double
  emit_key code pressed none = (none, input_key code code pressed false)
  emit_key code pressed (some st) =
      let st' = update st (code + 8) pressed in
      (some st', input_key (one_sym st (code + 8)) code pressed (alt_active st'))

  -- One round of the loop of `input_dispatch`: what the handler is called with.
  unfoldable pub emit :
      ℤ → ℤ → LibEvent Double → Option State → Option State × List (InputEvent Double)
  emit width height (pointer_motion dx dy) st = (st, input_motion dx dy ∷ [])
  emit width height (pointer_motion_absolute x y) st =
      (st, input_motion_abs (x width) (y height) ∷ [])
  emit width height (pointer_button b pressed) st = (st, input_button b pressed ∷ [])
  emit width height (keyboard_key code pressed) st =
      let (st', e) = emit_key code pressed st in (st', e ∷ [])
  emit width height other_event st = (st, [])

  unfoldable pub input_dispatch :
      ℤ → ℤ → List (LibEvent Double) → Option State → Option State × List (InputEvent Double)
  input_dispatch width height [] st = (st, [])
  input_dispatch width height (e ∷ es) st =
      let (st', here) = emit width height e st in
      let (st'', more) = input_dispatch width height es st' in (st'', here ++ more)
