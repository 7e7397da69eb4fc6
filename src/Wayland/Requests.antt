-- ===== src/Wayland/Requests.antt =====
-- src/wayland.c: the handlers of the requests, and the destructors that libwayland calls.
-- `none` stands for a handler that is given a surface whose struct has been freed: its behaviour
-- is undefined. A resource that libwayland could not create is `none` in the request.
use crystalline_lattice.Common.{
  is_some, ℕ, true, false, ◌&&◌, Option, none, some, List, [], ◌∷◌, ◌++◌, leb, ◌==◌, if◌then◌else◌,
  pos,
}
use crystalline_lattice.Window
use crystalline_lattice.Window.{Window, fit_title}
use crystalline_lattice.Wayland.{
  Resource, ShmBuffer, FeSurface, Frontend, Event, release, toplevel_configure, surface_configure,
  server_side, keymap, repeat_info, no_memory, fire_frame_callbacks, surface_unmap, copy_shm_buffer,
  surface_map_or_update,
}

abbrev pub Handler : Type 0
Handler = Frontend → FeSurface → Frontend × FeSurface × List Event

unfoldable pub surf_attach : Option Resource → Handler
surf_attach buffer fe s = (fe, record s { attached = true; pending_buffer = buffer }, [])

unfoldable pub surf_frame : Option Resource → Handler
surf_frame none fe s = (fe, s, [])
surf_frame (some cb) fe s = (record fe { frame_callbacks = cb ∷ fe.frame_callbacks }, s, [])

-- `snprintf(s->title, sizeof(s->title), "%s", title ? title : "")`
abbrev pub title_bytes : Option (List ℕ) → List ℕ
title_bytes none = []
title_bytes (some bytes) = fit_title bytes

-- The first commit of a surface with the role: `xdg_toplevel` may be missing.
abbrev configure : Option Resource → Resource → List Event
configure none xdg_surface = surface_configure xdg_surface ∷ []
configure (some t) xdg_surface =
    toplevel_configure t (pos 0) (pos 0) ∷ surface_configure xdg_surface ∷ []

-- `shm` is `wl_shm_buffer_get` and `grown` what `realloc` returns.
unfoldable pub show_buffer :
    (Resource → Option ShmBuffer)
    → Option ℕ
    → Resource
    → Frontend
    → FeSurface
    → Frontend × FeSurface
show_buffer shm grown buf fe s = elim (shm buf) [
  | none ↦ (fe, s)
  | some b ↦
      let s' = copy_shm_buffer grown b s in
      if is_some s'.content && is_some s'.xdg_toplevel
      then surface_map_or_update fe s'
      else (fe, s')
]

-- What `surf_commit` does for a pending attach, in the order of its events.
unfoldable pub commit_attached :
    (Resource → Option ShmBuffer) → Option ℕ → Option Resource → Handler
commit_attached shm grown none fe s = let (fe', s') = surface_unmap fe s in (fe', s', [])
commit_attached shm grown (some buf) fe s =
    let (fe', s') = show_buffer shm grown buf fe s in (fe', s', release buf ∷ [])

-- `surf_commit` past the first configure.
unfoldable pub commit_content : (Resource → Option ShmBuffer) → Option ℕ → Handler
commit_content shm grown fe s =
    let (fe', s', events) =
      if s.attached
      then commit_attached shm grown s.pending_buffer fe
          (record s { attached = false; pending_buffer = none })
      else (fe, s, []) in
    (record fe' { frame_callbacks = [] }, s', events ++ fire_frame_callbacks fe'.frame_callbacks)

unfoldable pub surf_commit : (Resource → Option ShmBuffer) → Option ℕ → Handler
surf_commit shm grown fe s = elim s.xdg_surface [
  | none ↦ commit_content shm grown fe s
  | some xdg_surface ↦
      if s.initial_configured
      then commit_content shm grown fe s
      else (fe, record s { initial_configured = true }, configure s.xdg_toplevel xdg_surface)
]

unfoldable pub tl_set_title : Option (List ℕ) → Handler
tl_set_title title fe s =
    let bytes = title_bytes title in
    let s' = record s { title = bytes } in
    if s.server_id == 0 then (fe, s', []) else (
      record fe {
        stack = Window.update fe.stack s.server_id (λ win. record win { title = fit_title bytes });
      },
      s',
      [],
    )

unfoldable pub toplevel_resource_destroy : Handler
toplevel_resource_destroy fe s =
    let (fe', s') = surface_unmap fe (record s { xdg_toplevel = none }) in (fe', s', [])

unfoldable pub xs_get_toplevel : Option Resource → Handler
xs_get_toplevel none fe s = (fe, s, no_memory ∷ [])
xs_get_toplevel (some r) fe s = (fe, record s { xdg_toplevel = some r }, [])

unfoldable pub xdg_surface_resource_destroy : Handler
xdg_surface_resource_destroy fe s = (fe, record s { xdg_surface = none }, [])

unfoldable pub wm_get_xdg_surface : Option Resource → Handler
wm_get_xdg_surface none fe s = (fe, s, no_memory ∷ [])
wm_get_xdg_surface (some r) fe s = (fe, record s { xdg_surface = some r }, [])

-- `decomgr_get`; `deco_force_ssd` answers at once.
unfoldable pub decomgr_get : Option Resource → Handler
decomgr_get none fe s = (fe, s, no_memory ∷ [])
decomgr_get (some r) fe s = (fe, record s { decoration = some r }, server_side r ∷ [])

-- The surface with the address, and the list with its entry replaced or taken out.
unfoldable pub at_address : ℕ → List FeSurface → Option FeSurface
at_address a [] = none
at_address a (s ∷ ss) = if s.address == a then some s else at_address a ss

unfoldable pub put : FeSurface → List FeSurface → List FeSurface
put s [] = []
put s (u ∷ us) = let rest = put s us in if u.address == s.address then s ∷ us else u ∷ rest

unfoldable pub unlink : ℕ → List FeSurface → List FeSurface
unlink a [] = []
unlink a (u ∷ us) = let rest = unlink a us in if u.address == a then us else u ∷ rest

-- `wl_list_remove` of a resource's link.
unfoldable pub unlink_resource : Resource → List Resource → List Resource
unlink_resource r [] = []
unlink_resource r (u ∷ us) =
    let rest = unlink_resource r us in if u.id == r.id then us else u ∷ rest

-- The struct that `comp_create_surface` sets up, past its `calloc`.
abbrev pub new_surface : ℕ → Resource → FeSurface
new_surface a r = record {
  address = a;
  surface = r;
  xdg_surface = none;
  xdg_toplevel = none;
  decoration = none;
  attached = false;
  pending_buffer = none;
  initial_configured = false;
  content = none;
  bytes = λ _. 0;
  cw = pos 0;
  ch = pos 0;
  server_id = 0;
  title = [];
}

unfoldable pub comp_create_surface : Option ℕ → Option Resource → Frontend → Frontend × List Event
comp_create_surface none r fe = (fe, no_memory ∷ [])
comp_create_surface (some a) none fe = (fe, no_memory ∷ [])
comp_create_surface (some a) (some r) fe =
    (record fe { surfaces = new_surface a r ∷ fe.surfaces }, [])

unfoldable pub surface_resource_destroy : Frontend → FeSurface → Frontend
surface_resource_destroy fe s =
    let fe' = (surface_unmap fe s).0 in record fe' { surfaces = unlink s.address fe'.surfaces }

unfoldable pub seat_get_pointer : Option Resource → Frontend → Frontend × List Event
seat_get_pointer none fe = (fe, no_memory ∷ [])
seat_get_pointer (some r) fe = (record fe { pointers = r ∷ fe.pointers }, [])

-- `WL_KEYBOARD_REPEAT_INFO_SINCE_VERSION` is 4.
unfoldable pub seat_get_keyboard : Option Resource → Frontend → Frontend × List Event
seat_get_keyboard none fe = (fe, no_memory ∷ [])
seat_get_keyboard (some r) fe = (
  record fe { keyboards = r ∷ fe.keyboards },
  (elim fe.keymap_size [ none ↦ [] | some size ↦ keymap r size ∷ [] ])
      ++ (if leb 4 r.version then repeat_info r 25 600 ∷ [] else []),
)

-- What libwayland calls the frontend for; the number is the address that the user data holds.
pub data Request : Type 0 where
  create_surface : Option ℕ → Option Resource → Request
  attach : ℕ → Option Resource → Request
  callback : ℕ → Option Resource → Request
  commit : ℕ → (Resource → Option ShmBuffer) → Option ℕ → Request
  set_title : ℕ → Option (List ℕ) → Request
  get_xdg_surface : ℕ → Option Resource → Request
  get_toplevel : ℕ → Option Resource → Request
  get_decoration : ℕ → Option Resource → Request
  toplevel_gone : ℕ → Request
  xdg_surface_gone : ℕ → Request
  surface_gone : ℕ → Request
  callback_gone : Resource → Request
  set_mode : Resource → Request
  get_pointer : Option Resource → Request
  get_keyboard : Option Resource → Request
  pointer_gone : Resource → Request
  keyboard_gone : Resource → Request

unfoldable pub on_surface : ℕ → Handler → Frontend → Option (Frontend × List Event)
on_surface a handler fe = elim (at_address a fe.surfaces) [
  | none ↦ none
  | some s ↦
      let (fe', s', events) = handler fe s in
      some (record fe' { surfaces = put s' fe'.surfaces }, events)
]

unfoldable pub request : Request → Frontend → Option (Frontend × List Event)
request (create_surface a r) fe = some (comp_create_surface a r fe)
request (attach a buffer) fe = on_surface a (surf_attach buffer) fe
request (callback a cb) fe = on_surface a (surf_frame cb) fe
request (commit a shm grown) fe = on_surface a (surf_commit shm grown) fe
request (set_title a title) fe = on_surface a (tl_set_title title) fe
request (get_xdg_surface a r) fe = on_surface a (wm_get_xdg_surface r) fe
request (get_toplevel a r) fe = on_surface a (xs_get_toplevel r) fe
request (get_decoration a r) fe = on_surface a (decomgr_get r) fe
request (toplevel_gone a) fe = on_surface a toplevel_resource_destroy fe
request (xdg_surface_gone a) fe = on_surface a xdg_surface_resource_destroy fe
request (surface_gone a) fe = elim (at_address a fe.surfaces) [
  | none ↦ none
  | some s ↦ some (surface_resource_destroy fe s, [])
]
request (callback_gone r) fe =
    some (record fe { frame_callbacks = unlink_resource r fe.frame_callbacks }, [])
request (set_mode r) fe = some (fe, server_side r ∷ [])
request (get_pointer r) fe = some (seat_get_pointer r fe)
request (get_keyboard r) fe = some (seat_get_keyboard r fe)
request (pointer_gone r) fe = some (record fe { pointers = unlink_resource r fe.pointers }, [])
request (keyboard_gone r) fe = some (record fe { keyboards = unlink_resource r fe.keyboards }, [])
