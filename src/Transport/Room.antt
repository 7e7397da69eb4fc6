-- ===== src/Transport/Room.antt =====
-- The window stack under src/transport.c: the room that new windows need, and `on_create_window`.
use crystalline_lattice.Common.{
  ℕ, suc, ◌+◌, ◌^◌, ◌<◌, ◌≡◌, refl, Option, none, List, arith, ◌==◌, Bool-cases, Option-cases, inl,
  inr, ℤ, pos,
}
use crystalline_lattice.Window
use crystalline_lattice.Window.{Window, WindowStack, Role, is_normal, is_desktop}
use crystalline_lattice.Window.Lookup.{update-revise, destroy-without, lower-without}
use crystalline_lattice.Window.Invariant.{
  IsValid, update-IsValid, create-IsValid, destroy-IsValid, lower-IsValid, focus-IsValid,
}
use crystalline_lattice.Window.Reach.{next_id-focus}
use crystalline_lattice.Protocol.{CreateWindow}
use crystalline_lattice.Transport.{
  Transport, ClWin, win_drop_buffer, win_find, win_alloc, client_at, role_from_wire, set_buf,
}
use crystalline_lattice.Transport.Routing.{notify_focus}
use crystalline_lattice.Transport.Handlers.{
  place, place_created, take_created, on_create_window, set_app_decorated, size_or,
}

-- A valid stack on which `room` more windows can be created before the id counter wraps.
abbrev pub Fits : ℕ → WindowStack → Type 0
Fits room s = IsValid s × (s.next_id + room < 2 ^ 32)

pub Fits-less : (room : ℕ) (s : WindowStack) → Fits (suc room) s → Fits room s
Fits-less room s (valid, fits) = (valid, omega arith)

pub update-Fits :
    (room : ℕ) (s : WindowStack)
    → Fits room s
    → (id : ℕ) (f : Window → Window) → ((v : Window) → (f v).id ≡ v.id)
    → Fits room (Window.update s id f)
update-Fits room s (valid, fits) id f keeps =
    (update-IsValid s valid id f keeps, rw update-revise fits)

focus-Fits : (room : ℕ) (s : WindowStack) → Fits room s → (id : ℕ) → Fits room (Window.focus s id)
focus-Fits room s (valid, fits) id = (focus-IsValid s valid id, rw next_id-focus fits)

pub destroy-Fits :
    (room : ℕ) (s : WindowStack) → Fits room s → (id : ℕ) → Fits room (Window.destroy s id)
destroy-Fits room s (valid, fits) id =
    (destroy-IsValid s valid id, rw destroy-without (ground arith))

lower-Fits : (room : ℕ) (s : WindowStack) → Fits room s → (id : ℕ) → Fits room (Window.lower s id)
lower-Fits room s (valid, fits) id = (lower-IsValid s valid id, rw lower-without (ground arith))

pub set_geometry-Fits :
    (room : ℕ) (s : WindowStack)
    → Fits room s
    → (id : ℕ) (x y w h : ℤ) → Fits room (Window.set_geometry s id x y w h)
unfolding Window.set_geometry Window.place
set_geometry-Fits room s fits id x y w h = update-Fits room s fits id _ (λ v. refl)

pub win_drop_buffer-Fits :
    (room : ℕ) (w : ClWin) (s : WindowStack) → Fits room s → Fits room (win_drop_buffer w s).1
unfolding win_drop_buffer
win_drop_buffer-Fits room w s fits = elim (Option-cases w.buf) [
  | inl e ↦ rw e fits
  | inr (base, e) ↦ rw e (update-Fits room s fits w.server_id (set_buf none) (λ v. refl))
]

notify_focus-stack : (t : Transport) (id : ℕ) → (notify_focus t id).0.stack ≡ t.stack
unfolding notify_focus
notify_focus-stack t id = ground arith

place-Fits :
    (room : ℕ) (s : WindowStack)
    → Fits room s
    → (id : ℕ) (role : Role) (sw sh : ℤ) → Fits room (place s id role sw sh)
unfolding place
place-Fits room s fits id role sw sh = elim (Bool-cases (is_normal role)) [
  | inl e ↦ rw e (focus-Fits room s fits id)
  | inr e ↦ elim (Bool-cases (is_desktop role)) [
    | inl d ↦
        rw (e, d)
          (lower-Fits room (Window.set_geometry s id (pos 0) (pos 0) sw sh)
            (set_geometry-Fits room s fits id (pos 0) (pos 0) sw sh) id)
    | inr d ↦ rw (e, d) fits
  ]
]

place_created-Fits :
    (room : ℕ) (t : Transport) (i id : ℕ) (m : CreateWindow)
    → Fits room t.stack
    → Fits room (place_created t i id m).0.stack
unfolding place_created
place_created-Fits room t i id m fits =
    let role = role_from_wire m.role in
    let stack = Window.update t.stack id set_app_decorated in
    let placed =
      place-Fits room stack (update-Fits room t.stack fits id set_app_decorated (λ v. refl)) id role
        t.sw t.sh in
    elim (Bool-cases (is_normal role)) [
      | inl e ↦ rw e (rw notify_focus-stack placed)
      | inr e ↦ rw e placed
    ]

create-Fits :
    (room : ℕ) (s : WindowStack)
    → Fits (suc room) s
    → (role : Role) (x y w h : ℤ) (color : ℕ) (title : Option (List ℕ))
    → Fits room (Window.create s role x y w h color title).1
create-Fits room s (valid, fits) role x y w h color title = (
  create-IsValid s valid role x y w h color title (omega arith),
  unfold Window.create in ground arith,
)

take_created-Fits :
    (room : ℕ) (t : Transport) (i k : ℕ) (m : CreateWindow) (id : ℕ) (s : WindowStack)
    → Fits room s
    → Fits room (take_created t i k m (id, s)).0.stack
unfolding take_created
take_created-Fits room t i k m id s fits = elim (Bool-cases (id == 0)) [
  | inl e ↦ rw e fits
  | inr e ↦ rw e (place_created-Fits room _ i id m fits)
]

pub on_create_window-Fits :
    (room : ℕ) (t : Transport) (i : ℕ) (m : CreateWindow)
    → Fits (suc room) t.stack
    → Fits room (on_create_window t i m).0.stack
unfolding on_create_window
on_create_window-Fits room t i m fits =
    let less = Fits-less room t.stack fits in
    elim (Option-cases (win_find (client_at t i) m.wid)) [
      | inr (k, e) ↦ rw (e, on_create_window) less
      | inl e ↦ elim (Option-cases (win_alloc (client_at t i))) [
        | inl f ↦ rw (e, f, on_create_window) less
        | inr (k, f) ↦
            rw (e, f, on_create_window)
              (take_created-Fits room t i k m _ _ (
                create-Fits room t.stack fits (role_from_wire m.role) m.x m.y (size_or 320 m.w)
                  (size_or 240 m.h) _ _))
      ]
    ]
