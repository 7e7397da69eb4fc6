-- ===== src/Wayland.antt =====
-- src/wayland.c: the Wayland frontend's surfaces and the requests of its clients.
-- A `struct fe_surface *` is the struct's address, and `surfaces` holds the live structs, as
-- `fe->surfaces` does. What libwayland and the allocator answer is an argument of the handler.
-- Serials, times and log lines are left out.
pub mod Requests
pub mod Input
pub mod Content
pub mod Backing
pub mod Keeps
pub mod Mapping
pub mod Commit
pub mod Live
pub mod Sound
pub mod Session
pub mod Monitor
pub mod Target
pub mod Focus
pub mod Keys
pub mod Tests
use crystalline_lattice.Common.{
  ℕ, zero, suc, ◌+◌, ◌-◌, ◌*◌, ◌%◌, Bool, true, false, ◌&&◌, ◌||◌, Option, none, some, List, [],
  ◌∷◌, ltb, leb, ◌==◌, if◌then◌else◌, ℤ, pos, negsuc, ◌+ℤ◌, leb_ℤ, pos_part, eqb_ℤ,
}
use crystalline_lattice.Window
use crystalline_lattice.Window.{Window, WindowStack, normal, decor_titlebar_h, fit_title}

-- A `struct wl_resource`: its identity, the client it belongs to and its version.
pub record Resource : Type 0 where
  pub id : ℕ
  pub client : ℕ
  pub version : ℕ

-- What libwayland tells of a `struct wl_shm_buffer`; `pixels` is its data, byte by byte.
pub record ShmBuffer : Type 0 where
  pub width : ℤ
  pub height : ℤ
  pub stride : ℕ
  pub pixels : ℕ → ℕ

-- `struct fe_surface`, with its own address first. `content` is the address of the copy and
-- `bytes` what stands there; `server_id` is 0 while the surface is unmapped.
pub record FeSurface : Type 0 where
  pub address : ℕ
  pub surface : Resource
  pub xdg_surface : Option Resource
  pub xdg_toplevel : Option Resource
  pub decoration : Option Resource
  pub attached : Bool
  pub pending_buffer : Option Resource
  pub initial_configured : Bool
  pub content : Option ℕ
  pub bytes : ℕ → ℕ
  pub cw : ℤ
  pub ch : ℤ
  pub server_id : ℕ
  pub title : List ℕ

-- `struct wl_frontend`, less what belongs to libwayland and xkbcommon; there is a `keymap_size`
-- where there is a `keymap_fd`.
pub record Frontend : Type 0 where
  pub stack : WindowStack
  pub sw : ℤ
  pub sh : ℤ
  pub dirty : Bool
  pub cascade : ℕ
  pub surfaces : List FeSurface
  pub pointers : List Resource
  pub keyboards : List Resource
  pub frame_callbacks : List Resource
  pub keymap_size : Option ℕ
  pub pointer_focus : ℕ
  pub kbd_focus : ℕ
  pub last_px : ℤ
  pub last_py : ℤ

-- The events that the frontend sends, each with the resource that it is sent on.
pub data Event : Type 0 where
  done : Resource → Event
  release : Resource → Event
  toplevel_configure : Resource → ℤ → ℤ → Event
  surface_configure : Resource → Event
  server_side : Resource → Event
  keymap : Resource → ℕ → Event
  repeat_info : Resource → ℕ → ℕ → Event
  no_memory : Event
  pointer_enter : Resource → Resource → ℤ → ℤ → Event
  pointer_leave : Resource → Resource → Event
  motion : Resource → ℤ → ℤ → Event
  button : Resource → ℕ → Bool → Event
  frame : Resource → Event
  keyboard_enter : Resource → Resource → Event
  keyboard_leave : Resource → Resource → Event
  key : Resource → ℕ → Bool → Event
  modifiers : Resource → ℕ → Event

-- `wl_frontend_create` up to its first failing call: the zeroed struct with its lists.
unfoldable pub create : WindowStack → ℤ → ℤ → Option ℕ → Frontend
create stack sw sh keymap_size = record {
  stack = stack;
  sw = sw;
  sh = sh;
  dirty = false;
  cascade = 0;
  surfaces = [];
  pointers = [];
  keyboards = [];
  frame_callbacks = [];
  keymap_size = keymap_size;
  pointer_focus = 0;
  kbd_focus = 0;
  last_px = pos 0;
  last_py = pos 0;
}

-- The loop of `surface_by_window`.
unfoldable pub showing : List FeSurface → ℕ → Option FeSurface
showing [] id = none
showing (s ∷ ss) id = if s.server_id == id then some s else showing ss id

unfoldable pub surface_by_window : Frontend → ℕ → Option FeSurface
surface_by_window fe id = if id == 0 then none else showing fe.surfaces id

unfoldable pub fire_frame_callbacks : List Resource → List Event
fire_frame_callbacks [] = []
fire_frame_callbacks (cb ∷ cbs) = done cb ∷ fire_frame_callbacks cbs

-- `free(s->content)` and the lines after it.
abbrev pub drop_content : FeSurface → FeSurface
drop_content s = record s { content = none; cw = pos 0; ch = pos 0 }

unfoldable pub surface_unmap : Frontend → FeSurface → Frontend × FeSurface
surface_unmap fe s = if s.server_id == 0 then (fe, drop_content s) else (
  record fe { stack = Window.destroy fe.stack s.server_id; dirty = true },
  drop_content (record s { server_id = 0 }),
)

-- `memcpy(dst + d, src + o, n)`
unfoldable pub memcpy : (ℕ → ℕ) → ℕ → (ℕ → ℕ) → ℕ → ℕ → ℕ → ℕ
memcpy dst d src o n i = if leb d i && ltb i (d + n) then src (o + (i - d)) else dst i

-- The loop of `copy_shm_buffer` from the row `y` on, with `rows` to go.
unfoldable pub copy_rows : ℕ → ℕ → ℕ → ℕ → (ℕ → ℕ) → (ℕ → ℕ) → ℕ → ℕ
copy_rows zero y w stride src dst = dst
copy_rows (suc rows) y w stride src dst =
    copy_rows rows (suc y) w stride src (memcpy dst (y * w * 4) src (y * stride) (w * 4))

-- `copy_shm_buffer` once `dst` is there and has the size.
unfoldable pub fill_content : ShmBuffer → FeSurface → FeSurface
fill_content b s = record s {
  bytes = copy_rows (pos_part b.height) 0 (pos_part b.width) b.stride b.pixels s.bytes;
}

-- `grown` is what `realloc` returns.
unfoldable pub copy_shm_buffer : Option ℕ → ShmBuffer → FeSurface → FeSurface
copy_shm_buffer grown b s =
    if leb_ℤ b.width (pos 0) || leb_ℤ b.height (pos 0)
    then s
    else (if eqb_ℤ s.cw b.width && eqb_ℤ s.ch b.height then fill_content b s else elim grown [
      | none ↦ s
      | some dst ↦ fill_content b (record s { content = some dst; cw = b.width; ch = b.height })
    ])

-- `s->cw * 4`
abbrev pub times_four : ℤ → ℤ
times_four (pos n) = pos (n * 4)
times_four (negsuc n) = negsuc (n * 4 + 3)

-- What `surface_map_or_update` writes to the window that it maps.
unfoldable pub show_content : FeSurface → Window → Window
show_content s win = record win {
  buf = s.content;
  buf_w = s.cw;
  buf_h = s.ch;
  buf_stride = times_four s.cw;
}

-- What it writes to a window that is already there: the size follows the content.
unfoldable pub fit_content : FeSurface → Window → Window
fit_content s win = record (show_content s win) { w = s.cw; h = s.ch +ℤ pos decor_titlebar_h }

-- "Wayland"
abbrev pub default_title : List ℕ
default_title = 87 ∷ 97 ∷ 121 ∷ 108 ∷ 97 ∷ 110 ∷ 100 ∷ []

abbrev pub title_of : List ℕ → List ℕ
title_of [] = default_title
title_of (c ∷ cs) = c ∷ cs

-- `surface_map_or_update` from `window_create` on, with the `n` of the cascade.
unfoldable pub place_new : Frontend → FeSurface → ℕ → Frontend × FeSurface
place_new fe s n =
    let (id, stack) =
      Window.create fe.stack normal (pos (120 + 40 * n)) (pos (90 + 40 * n)) s.cw
        (s.ch +ℤ pos decor_titlebar_h) 0x00202020 (some (title_of s.title)) in
    if id == 0 then (record fe { stack = stack }, s) else (
      record fe { stack = Window.focus (Window.update stack id (show_content s)) id; dirty = true },
      record s { server_id = id },
    )

unfoldable pub surface_map_or_update : Frontend → FeSurface → Frontend × FeSurface
surface_map_or_update fe s =
    if s.server_id == 0
    then place_new (record fe { cascade = fe.cascade + 1 }) s (fe.cascade % 8)
    else (record fe { stack = Window.update fe.stack s.server_id (fit_content s); dirty = true }, s)
