-- ===== src/Transport.antt =====
-- src/transport.c: the state of the server-side transport, and its small helpers.
-- `struct transport *` is the record, with the window stack that it points to. A pointer to a client
-- or to a slot is its index. What the kernel does for the transport is a list of effects, beside the
-- new state; what it answers is an argument. `cl_send` reports nothing that the transport reads.
pub mod Tests
pub mod Handlers
pub mod Dispatch
pub mod Session
pub mod Routing
pub mod Descriptors
pub mod Handshake
pub mod Delivery
pub mod Welcome
pub mod Reap
pub mod Reconnect
pub mod Endpoint
pub mod Teardown
pub mod Room
pub mod Stack
use crystalline_lattice.Common.{
  ℕ, zero, suc, ◌+◌, ◌%◌, ◌^◌, ◌==◌, Bool, true, false, ◌&&◌, ◌||◌, Option, none, some, List, [],
  ◌∷◌, ◌++◌, map, get_elem?, set, if◌then◌else◌, ℤ, replicate,
}
use crystalline_lattice.Window
use crystalline_lattice.Window.{
  Window, WindowStack, Role, normal, desktop, taskbar, tray, menu, tooltip, win_max,
}
use crystalline_lattice.Protocol.{ServerMessage}

abbrev pub cl_max_clients : ℕ
cl_max_clients = 16

abbrev pub cl_reconnect_grace_ms : ℕ
cl_reconnect_grace_ms = 5000

abbrev pub cl_cursor_max : ℕ
cl_cursor_max = 64

-- `struct cl_win`; `client_wid` is 0 for a free slot, and `buf` is the address of a mapping.
pub record ClWin : Type 0 where
  pub client_wid : ℕ
  pub server_id : ℕ
  pub buf : Option ℕ
  pub buf_len : ℕ

-- `struct cl_client`; an `fd` of -1, a free slot, is `none`.
pub record Client : Type 0 where
  pub fd : Option ℕ
  pub hello : Bool
  pub token : ℕ
  pub wins : List ClWin

-- `struct cl_orphan`; the token is 0 for a free slot.
pub record Orphan : Type 0 where
  pub token : ℕ
  pub deadline_ms : ℕ
  pub wins : List ClWin

-- `struct cl_cursor`
pub record Cursor : Type 0 where
  pub custom : Bool
  pub hidden : Bool
  pub w : ℤ
  pub h : ℤ
  pub hotspot_x : ℤ
  pub hotspot_y : ℤ
  pub argb : List ℕ

-- `struct transport`, less its epoll and listen descriptors and its path.
pub record Transport : Type 0 where
  pub stack : WindowStack
  pub sw : ℤ
  pub sh : ℤ
  pub clients : List Client
  pub orphans : List Orphan
  pub focused_server_id : ℕ
  pub next_token : ℕ
  pub cursor : Cursor

-- What the transport asks of the kernel.
pub data Effect : Type 0 where
  send : ℕ → ServerMessage → Effect
  close : ℕ → Effect
  wait_fence : ℕ → Effect
  unmap : ℕ → ℕ → Effect
  epoll_del : ℕ → Effect

abbrev pub free_win : ClWin
free_win = record { client_wid = 0; server_id = 0; buf = none; buf_len = 0 }

-- A slot after `memset(c, 0, sizeof(*c)); c->fd = -1`.
abbrev pub free_client : Client
free_client = record { fd = none; hello = false; token = 0; wins = replicate win_max free_win }

abbrev pub free_orphan : Orphan
free_orphan = record { token = 0; deadline_ms = 0; wins = replicate win_max free_win }

unfoldable pub role_from_wire : ℕ → Role
role_from_wire r =
    if r == 1
    then desktop
    else if r == 2
    then taskbar
    else if r == 3
    then tray
    else if r == 4
    then menu
    else if r == 5
    then tooltip
    else normal

unfoldable pub close_fds : List ℕ → List Effect
close_fds fds = map (λ fd. close fd) fds

-- The first slot from `i` on that passes the test.
unfoldable pub slot_from {ℓ} : {A : Type ℓ} → ℕ → (A → Bool) → List A → Option ℕ
slot_from i test [] = none
slot_from i test (x ∷ xs) = if test x then some i else slot_from (suc i) test xs

unfoldable pub win_find : Client → ℕ → Option ℕ
win_find c client_wid =
    if client_wid == 0 then none else slot_from 0 (λ w. w.client_wid == client_wid) c.wins

unfoldable pub win_alloc : Client → Option ℕ
win_alloc c = slot_from 0 (λ w. w.client_wid == 0) c.wins

abbrev pub set_buf : Option ℕ → Window → Window
set_buf b v = record v { buf = b }

unfoldable pub win_drop_buffer : ClWin → WindowStack → ClWin × WindowStack × List Effect
win_drop_buffer w stack = elim w.buf [
  | none ↦ (w, stack, [])
  | some base ↦ (
    record w { buf = none; buf_len = 0 },
    Window.update stack w.server_id (set_buf none),
    unmap base w.buf_len ∷ [],
  )
]

-- The increment wraps at 2 ^ 32; the loop goes round once more at 0.
unfoldable pub assign_token : Transport → ℕ × Transport
assign_token t =
    let next = (t.next_token + 1) % 2 ^ 32 in
    let tok = if next == 0 then 1 else next in (tok, record t { next_token = tok })

-- A free slot is never the client of a message.
abbrev pub client_at : Transport → ℕ → Client
client_at t i = elim (get_elem? t.clients i) [ none ↦ free_client | some c ↦ c ]

abbrev pub set_client : Transport → ℕ → Client → Transport
set_client t i c = record t { clients = set t.clients i c }

abbrev pub win_at : Client → ℕ → ClWin
win_at c k = elim (get_elem? c.wins k) [ none ↦ free_win | some w ↦ w ]

abbrev pub set_win : Client → ℕ → ClWin → Client
set_win c k w = record c { wins = set c.wins k w }

-- What is sent to a client, which has a descriptor.
abbrev pub send_to : Client → ServerMessage → List Effect
send_to c m = elim c.fd [ none ↦ [] | some fd ↦ send fd m ∷ [] ]
