-- ===== src/Wayland/Input.antt =====
-- src/wayland.c: the input that the server routes to the Wayland clients.
use crystalline_lattice.Common.{
  ℕ, ◌+◌, Bool, false, ◌&&◌, Option, none, some, List, [], ◌∷◌, ◌++◌, leb, ◌==◌, if◌then◌else◌, ℤ,
  pos, ◌+ℤ◌, ◌-ℤ◌, ltb_ℤ, leb_ℤ,
}
use crystalline_lattice.Window
use crystalline_lattice.Window.{Window, decor_titlebar_h}
use crystalline_lattice.Wayland.{
  Resource, FeSurface, Frontend, Event, pointer_enter, pointer_leave, motion, button, frame,
  keyboard_enter, keyboard_leave, key, modifiers, surface_by_window,
}

-- A loop over resources whose body is for those of the client alone.
unfoldable pub for_client : ℕ → (Resource → List Event) → List Resource → List Event
for_client c body [] = []
for_client c body (p ∷ ps) =
    let rest = for_client c body ps in if p.client == c then body p ++ rest else rest

-- `WL_POINTER_FRAME_SINCE_VERSION` is 5.
abbrev pub frame_of : Resource → List Event
frame_of p = if leb 5 p.version then frame p ∷ [] else []

unfoldable pub pointer_frame_all : List Resource → ℕ → List Event
pointer_frame_all pointers client = for_client client frame_of pointers

-- `s` with `lx` and `ly` where the pointer is over the content of a surface.
pub record Target : Type 0 where
  pub window : ℕ
  pub target_surface : FeSurface
  pub lx : ℤ
  pub ly : ℤ

abbrev pub over_content : FeSurface → ℤ → ℤ → Bool
over_content s lx ly = leb_ℤ (pos 0) ly && ltb_ℤ ly s.ch && leb_ℤ (pos 0) lx && ltb_ℤ lx s.cw

unfoldable pub target_in : Window → FeSurface → ℤ → ℤ → Option Target
target_in hit s gx gy =
    let lx = gx -ℤ hit.x in
    let ly = gy -ℤ (hit.y +ℤ pos decor_titlebar_h) in
    if over_content s lx ly
    then some (record { window = hit.id; target_surface = s; lx = lx; ly = ly })
    else none

unfoldable pub target_at : Frontend → ℤ → ℤ → Option Target
target_at fe gx gy = elim (Window.at fe.stack gx gy) [
  | none ↦ none
  | some hit ↦ elim (surface_by_window fe hit.id) [ none ↦ none | some s ↦ target_in hit s gx gy ]
]

abbrev pub window_of : Option Target → ℕ
window_of none = 0
window_of (some t) = t.window

unfoldable pub leave_pointers : List Resource → Option FeSurface → List Event
leave_pointers pointers none = []
leave_pointers pointers (some old) =
    for_client old.surface.client (λ p. pointer_leave p old.surface ∷ []) pointers

unfoldable pub enter_pointers : List Resource → Option Target → List Event
enter_pointers pointers none = []
enter_pointers pointers (some t) =
    let s = t.target_surface in
    for_client s.surface.client
      (λ p. pointer_enter p s.surface t.lx t.ly ∷ pointer_frame_all pointers s.surface.client)
      pointers

unfoldable pub move_pointers : List Resource → Option Target → List Event
move_pointers pointers none = []
move_pointers pointers (some t) =
    let c = t.target_surface.surface.client in
    for_client c (λ p. motion p t.lx t.ly ∷ []) pointers ++ pointer_frame_all pointers c

abbrev pub record_position : Option Target → Frontend → Frontend
record_position none fe = fe
record_position (some t) fe = record fe { last_px = t.lx; last_py = t.ly }

unfoldable pub pointer_motion : ℤ → ℤ → Frontend → Frontend × List Event
pointer_motion gx gy fe =
    let over = target_at fe gx gy in
    let ps = fe.pointers in
    if window_of over == fe.pointer_focus
    then (record_position over fe, move_pointers ps over)
    else (
      record_position over (record fe { pointer_focus = window_of over }),
      leave_pointers ps (surface_by_window fe fe.pointer_focus)
          ++ enter_pointers ps over
          ++ move_pointers ps over,
    )

unfoldable pub pointer_button : ℕ → Bool → Frontend → List Event
pointer_button b pressed fe = elim (surface_by_window fe fe.pointer_focus) [
  | none ↦ []
  | some s ↦
      for_client s.surface.client (λ p. button p b pressed ∷ []) fe.pointers
      ++ pointer_frame_all fe.pointers s.surface.client
]

unfoldable pub leave_keyboards : List Resource → Option FeSurface → List Event
leave_keyboards keyboards none = []
leave_keyboards keyboards (some old) =
    for_client old.surface.client (λ k. keyboard_leave k old.surface ∷ []) keyboards

abbrev pub target_of : ℕ → Option FeSurface → ℕ
target_of id none = 0
target_of id (some s) = id

-- `fe->xkb_state` is the argument `xkb`, absent where there is no keymap; `update_key` and
-- `serialize` are xkbcommon's.
module _ {Xkb : Type 0} (update_key : ℕ → Bool → Xkb → Xkb) (serialize : Xkb → ℕ) where
  unfoldable pub send_modifiers : Option Xkb → List Resource → ℕ → List Event
  send_modifiers none keyboards client = []
  send_modifiers (some state) keyboards client =
      for_client client (λ k. modifiers k (serialize state) ∷ []) keyboards

  abbrev pub updated : ℕ → Bool → Option Xkb → Option Xkb
  updated code pressed none = none
  updated code pressed (some state) = some (update_key (code + 8) pressed state)

  unfoldable pub keyboard_key : ℕ → Bool → Option Xkb → Frontend → Option Xkb × List Event
  keyboard_key code pressed xkb fe =
      let xkb' = updated code pressed xkb in
      elim (surface_by_window fe fe.kbd_focus) [
        | none ↦ (xkb', [])
        | some s ↦ (
          xkb',
          for_client s.surface.client (λ k. key k code pressed ∷ []) fe.keyboards
              ++ send_modifiers xkb' fe.keyboards s.surface.client,
        )
      ]

  unfoldable pub enter_keyboards : Option Xkb → List Resource → Option FeSurface → List Event
  enter_keyboards xkb keyboards none = []
  enter_keyboards xkb keyboards (some s) =
      for_client s.surface.client (λ k. keyboard_enter k s.surface ∷ []) keyboards
      ++ send_modifiers xkb keyboards s.surface.client

  unfoldable pub keyboard_focus : ℕ → Option Xkb → Frontend → Frontend × List Event
  keyboard_focus id xkb fe =
      let next = surface_by_window fe id in
      let target = target_of id next in
      if target == fe.kbd_focus then (fe, []) else (
        record fe { kbd_focus = target },
        leave_keyboards fe.keyboards (surface_by_window fe fe.kbd_focus)
            ++ enter_keyboards xkb fe.keyboards next,
      )

-- `wl_frontend_dispatch` after the requests: the answer, and the flag is cleared.
unfoldable pub dispatched : Frontend → Frontend × Bool
dispatched fe = (record fe { dirty = false }, fe.dirty)
