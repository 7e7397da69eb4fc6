-- ===== src/Transport/Handlers.antt =====
-- src/transport.c: the request handlers. `i` is the client's slot.
use crystalline_lattice.Common.{
  ℕ, ◌-◌, ◌*◌, ◌==◌, true, false, not, ◌||◌, Option, none, some, List, [], ◌∷◌, ◌++◌, set, take,
  if◌then◌else◌, ℤ, pos, leb_ℤ, ltb_ℤ, int_of_u32, u32_of_int, length, pos_part,
}
use crystalline_lattice.Window
use crystalline_lattice.Window.{
  Window, WindowStack, Role, is_taskbar, is_desktop, is_normal, is_tray, fit_title,
}
use crystalline_lattice.Protocol.{
  CreateWindow, SetTitle, Buffer, Commit, DestroyWindow, SetGeometry, SetCursor, configure,
  cl_buf_shm, cl_format_xrgb8888, cl_title_max,
}
use crystalline_lattice.Transport.{
  Transport, Client, Effect, close, wait_fence, win_drop_buffer, win_find, win_alloc,
  role_from_wire, client_at, win_at, set_win, free_win, close_fds, send_to, cl_cursor_max,
}
use crystalline_lattice.Transport.Routing.{notify_focus}

abbrev pub set_app_decorated : Window → Window
set_app_decorated v = record v { app_decorated = true }

-- The placeholder's title, "client".
abbrev client_title : List ℕ
client_title = b'c' ∷ b'l' ∷ b'i' ∷ b'e' ∷ b'n' ∷ b't' ∷ []

-- The policy by role for the new window `id`.
unfoldable pub place : WindowStack → ℕ → Role → ℤ → ℤ → WindowStack
place stack id role sw sh =
    if is_normal role
    then Window.focus stack id
    else if is_desktop role
    then Window.lower (Window.set_geometry stack id (pos 0) (pos 0) sw sh) id
    else stack

-- The CONFIGURE that a new window, if it is there, has its client told.
unfoldable pub send_placed : Client → ℕ → Option Window → List Effect
send_placed c wid none = []
send_placed c wid (some v) = send_to c (configure wid v.x v.y (u32_of_int v.w) (u32_of_int v.h))

-- The rest of `on_create_window`, once the window `id` is on the stack and in the client's slot.
unfoldable pub place_created : Transport → ℕ → ℕ → CreateWindow → Transport × List Effect
place_created t i id m =
    let role = role_from_wire m.role in
    let placed = place (Window.update t.stack id set_app_decorated) id role t.sw t.sh in
    let t' : Transport = record t { stack = placed } in
    let (t'', more) = if is_normal role then notify_focus t' id else (t', []) in
    (t'', send_placed (client_at t i) m.wid (Window.by_id placed id) ++ more)

abbrev pub size_or : ℕ → ℕ → ℤ
size_or default n = if n == 0 then pos default else int_of_u32 n

-- What becomes of the window that `window_create` made, or did not make, for slot `k`.
unfoldable pub take_created :
    Transport → ℕ → ℕ → CreateWindow → ℕ × WindowStack → Transport × List Effect
take_created t i k m (id, stack) =
    let c = client_at t i in
    let taken = record (win_at c k) { client_wid = m.wid; server_id = id } in
    if id == 0
    then (record t { stack = stack }, [])
    else place_created (record t { stack = stack; clients = set t.clients i (set_win c k taken) }) i
        id m

unfoldable pub on_create_window : Transport → ℕ → CreateWindow → Transport × List Effect
on_create_window t i m = elim (win_find (client_at t i) m.wid) [
  | some _ ↦ (t, [])
  | none ↦ elim (win_alloc (client_at t i)) [
    | none ↦ (t, [])
    | some k ↦ take_created t i k m (
        Window.create t.stack (role_from_wire m.role) m.x m.y (size_or 320 m.w) (size_or 240 m.h)
          0x00202020 (some client_title))
  ]
]

-- The bytes before the first NUL.
unfoldable pub until_nul : List ℕ → List ℕ
until_nul [] = []
until_nul (b ∷ bs) = if b == 0 then [] else b ∷ until_nul bs

abbrev pub set_title : List ℕ → Window → Window
set_title bytes v = record v { title = fit_title (until_nul (take (cl_title_max - 1) bytes)) }

unfoldable pub on_set_title : Transport → ℕ → SetTitle → Transport
on_set_title t i m = elim (win_find (client_at t i) m.wid) [
  | none ↦ t
  | some k ↦ record t {
    stack = Window.update t.stack (win_at (client_at t i) k).server_id (set_title m.title);
  }
]

abbrev pub attach : ℕ → Buffer → Window → Window
attach base b v = record v {
  buf = some base;
  buf_w = int_of_u32 b.width;
  buf_h = int_of_u32 b.height;
  buf_stride = int_of_u32 b.stride;
}

-- The buffer of a COMMIT in the descriptor `buf_fd`, for the client's slot `slot`. `mapped` is what
-- `mmap` answers, `none` for MAP_FAILED.
unfoldable pub import_buffer :
    Transport → ℕ → Option ℕ → Commit → ℕ → Option ℕ → Transport × List Effect
import_buffer t i none m buf_fd mapped = (t, close buf_fd ∷ [])
import_buffer t i (some k) m buf_fd mapped =
    let b = m.buffer in
    let c = client_at t i in
    let cw = win_at c k in
    let rejected : Transport × List Effect = (t, close buf_fd ∷ []) in
    if not (b.kind == cl_buf_shm) then rejected else elim (Window.by_id t.stack cw.server_id) [
      | none ↦ rejected
      | some v ↦
          if not (b.format == cl_format_xrgb8888) || b.stride == 0 || b.height == 0
          then rejected
          else elim mapped [
            | none ↦ rejected
            | some base ↦
                let (cw', stack, dropped) = win_drop_buffer cw t.stack in
                (
                  record t {
                    stack = Window.update stack cw.server_id (attach base b);
                    clients = set t.clients i (
                        set_win c k
                          (record cw' { buf = some base; buf_len = b.stride * b.height }));
                  },
                  close buf_fd ∷ dropped,
                )
          ]
    ]

unfoldable pub commit_rest : Transport → ℕ → Commit → List ℕ → Option ℕ → Transport × List Effect
commit_rest t i m [] mapped = (t, [])
commit_rest t i m (buf_fd ∷ _) mapped =
    import_buffer t i (win_find (client_at t i) m.wid) m buf_fd mapped

-- `poll` on the fence waits for a bounded time, and its answer is not read.
unfoldable pub on_commit : Transport → ℕ → Commit → List ℕ → Option ℕ → Transport × List Effect
on_commit t i m [] mapped = commit_rest t i m [] mapped
on_commit t i m (buf_fd ∷ []) mapped = commit_rest t i m (buf_fd ∷ []) mapped
on_commit t i m (buf_fd ∷ fence_fd ∷ rest) mapped =
    if m.buffer.has_fence == 0
    then commit_rest t i m (buf_fd ∷ fence_fd ∷ rest) mapped
    else let (t', effects) = commit_rest t i m (buf_fd ∷ []) mapped in
      (t', wait_fence fence_fd ∷ close fence_fd ∷ effects)

unfoldable pub on_destroy_window : Transport → ℕ → DestroyWindow → Transport × List Effect
on_destroy_window t i m =
    let c = client_at t i in
    elim (win_find c m.wid) [
      | none ↦ (t, [])
      | some k ↦
          let cw = win_at c k in
          let (cw', stack, effects) = win_drop_buffer cw t.stack in
          (
            record t {
              stack = Window.destroy stack cw.server_id;
              clients = set t.clients i (set_win c k free_win);
            },
            effects,
          )
    ]

unfoldable pub on_set_geometry : Transport → ℕ → SetGeometry → Transport
on_set_geometry t i m = elim (win_find (client_at t i) m.wid) [
  | none ↦ t
  | some k ↦
      let id = (win_at (client_at t i) k).server_id in
      let moved : Transport = record t {
        stack = Window.set_geometry t.stack id m.x m.y (int_of_u32 m.w) (int_of_u32 m.h);
      } in
      elim (Window.by_id t.stack id) [
        | none ↦ moved
        | some v ↦ if is_desktop v.role then t else moved
      ]
]

-- `pixels` is the memory that `mmap` answers with, `none` for MAP_FAILED; `w * h` words of it are
-- copied, and it is unmapped again.
unfoldable pub on_set_cursor :
    Transport → SetCursor → List ℕ → Option (List ℕ) → Transport × List Effect
on_set_cursor t m fds pixels =
    let w = int_of_u32 m.width in
    let h = int_of_u32 m.height in
    let unchanged : Transport × List Effect = (t, close_fds fds) in
    if not (m.hide == 0) || length fds == 0
    then (
      record t { cursor = record (t.cursor) { custom = false; hidden = not (m.hide == 0) } },
      close_fds fds,
    )
    else if leb_ℤ w (pos 0)
        || leb_ℤ h (pos 0)
        || ltb_ℤ (pos cl_cursor_max) w
        || ltb_ℤ (pos cl_cursor_max) h
    then unchanged
    else elim pixels [
      | none ↦ unchanged
      | some words ↦ (
        record t {
          cursor = record {
            custom = true;
            hidden = false;
            w = w;
            h = h;
            hotspot_x = m.hotspot_x;
            hotspot_y = m.hotspot_y;
            argb = take (pos_part w * pos_part h) words;
          };
        },
        close_fds fds,
      )
    ]
