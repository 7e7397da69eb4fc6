-- ===== src/Transport/Routing.antt =====
-- src/transport.c, from the lookup of a server window's client to the input that is routed to it.
use crystalline_lattice.Common.{
  ℕ, ◌==◌, Bool, not, ◌&&◌, Option, none, some, List, [], ◌∷◌, ◌++◌, if◌then◌else◌, ℤ, pos, ◌+ℤ◌,
  ◌-ℤ◌, ltb_ℤ, u32_of_int,
}
use crystalline_lattice.Window
use crystalline_lattice.Window.{Window, WindowStack, has_ssd, decor_titlebar_h}
use crystalline_lattice.Protocol.{
  ServerMessage, configure, focus, input, screen, cl_in_motion, cl_in_button, cl_in_key,
}
use crystalline_lattice.Transport.{Transport, Client, ClWin, Effect, win_at, slot_from, send_to}

abbrev pub owns : ℕ → ClWin → Bool
owns server_id w = not (w.client_wid == 0) && w.server_id == server_id

-- The client and the client's id of a server window, from the first connected client that owns it.
unfoldable pub owner_in : List Client → ℕ → Option (Client × ℕ)
owner_in [] server_id = none
owner_in (c ∷ cs) server_id =
    let rest = owner_in cs server_id in
    elim c.fd [
      | none ↦ rest
      | some fd ↦ elim (slot_from 0 (owns server_id) c.wins) [
        | none ↦ rest
        | some k ↦ some (c, (win_at c k).client_wid)
      ]
    ]

unfoldable pub find_by_server_id : Transport → ℕ → Option (Client × ℕ)
find_by_server_id t server_id = if server_id == 0 then none else owner_in t.clients server_id

abbrev pub send_owner : Transport → ℕ → (ℕ → ServerMessage) → List Effect
send_owner t server_id m = elim (find_by_server_id t server_id) [
  | none ↦ []
  | some (c, wid) ↦ send_to c (m wid)
]

unfoldable pub win_titlebar : Window → ℤ
win_titlebar v = if has_ssd v then pos decor_titlebar_h else pos 0

abbrev pub bool_word : Bool → ℕ
bool_word b = if b then 1 else 0

-- The shared part of the pointer functions: the window under the cursor, below its title bar, and
-- the cursor relative to its content.
unfoldable pub send_under : Transport → ℤ → ℤ → (ℕ → ℤ → ℤ → ServerMessage) → List Effect
send_under t cursor_x cursor_y m = elim (Window.at t.stack cursor_x cursor_y) [
  | none ↦ []
  | some v ↦
      let titlebar = win_titlebar v in
      if ltb_ℤ cursor_y (v.y +ℤ titlebar)
      then []
      else send_owner t v.id (λ wid. m wid (cursor_x -ℤ v.x) (cursor_y -ℤ v.y -ℤ titlebar))
]

unfoldable pub pointer_motion : Transport → ℤ → ℤ → List Effect
pointer_motion t cursor_x cursor_y =
    send_under t cursor_x cursor_y (λ wid x y. input wid cl_in_motion x y 0 0)

unfoldable pub pointer_button : Transport → ℕ → Bool → ℤ → ℤ → List Effect
pointer_button t button pressed cursor_x cursor_y =
    send_under t cursor_x cursor_y
      (λ wid x y. input wid cl_in_button x y button (bool_word pressed))

unfoldable pub keyboard_key : Transport → ℕ → ℕ → Bool → List Effect
keyboard_key t focus_id keysym pressed =
    send_owner t focus_id (λ wid. input wid cl_in_key (pos 0) (pos 0) keysym (bool_word pressed))

unfoldable pub notify_focus : Transport → ℕ → Transport × List Effect
notify_focus t new_focus = if new_focus == t.focused_server_id then (t, []) else (
  record t { focused_server_id = new_focus },
  send_owner t t.focused_server_id (λ wid. focus wid 0)
      ++ send_owner t new_focus (λ wid. focus wid 1),
)

unfoldable pub update_focus : Transport → ℕ → Transport × List Effect
unfolding notify_focus
update_focus t focus_id = notify_focus t focus_id

unfoldable pub notify_geometry : Transport → ℕ → List Effect
notify_geometry t server_id = elim (find_by_server_id t server_id) [
  | none ↦ []
  | some (c, wid) ↦ elim (Window.by_id t.stack server_id) [
    | none ↦ []
    | some v ↦ send_to c (configure wid v.x v.y (u32_of_int v.w) (u32_of_int v.h))
  ]
]

unfoldable pub set_screen : Transport → ℤ → ℤ → Transport
set_screen t w h = record t { sw = w; sh = h }

unfoldable pub send_screen : ServerMessage → List Client → List Effect
send_screen m [] = []
send_screen m (c ∷ cs) = (if c.hello then send_to c m else []) ++ send_screen m cs

unfoldable pub broadcast_screen : Transport → ℤ → ℤ → Transport × List Effect
broadcast_screen t w h =
    (record t { sw = w; sh = h }, send_screen (screen (u32_of_int w) (u32_of_int h)) t.clients)
