-- ===== src/Wayland/Target.antt =====
-- src/wayland.c: the surface that a position of the pointer is over.
use crystalline_lattice.Common.{
  ◌≡◌, refl, ◌⊎◌, inl, inr, true, Option, none, some, Bool-cases, Option-cases, ℤ, pos, ◌+ℤ◌, ◌-ℤ◌,
}
use crystalline_lattice.Window
use crystalline_lattice.Window.{Window, decor_titlebar_h}
use crystalline_lattice.Wayland.{FeSurface, Frontend, surface_by_window}
use crystalline_lattice.Wayland.Input.{Target, target_in, target_at, window_of, over_content}

abbrev pub surface_of : Option Target → Option FeSurface
surface_of none = none
surface_of (some t) = some t.target_surface

-- A target is a surface that its window names, and the position lies in the surface's content.
abbrev pub IsTarget : Frontend → Target → Type 0
IsTarget fe t =
    (surface_by_window fe t.window ≡ some t.target_surface)
    × (over_content t.target_surface t.lx t.ly ≡ true)

target_in-cases :
    (fe : Frontend) (hit : Window) (s : FeSurface) (gx gy : ℤ)
    → surface_by_window fe hit.id ≡ some s
    → (target_in hit s gx gy ≡ none)
      ⊎ ((t : Target) × (target_in hit s gx gy ≡ some t) × IsTarget fe t)
unfolding target_in
target_in-cases fe hit s gx gy e =
    let lx = gx -ℤ hit.x in
    let ly = gy -ℤ (hit.y +ℤ pos decor_titlebar_h) in
    elim (Bool-cases (over_content s lx ly)) [
      | inl h ↦
          inr (record { window = hit.id; target_surface = s; lx = lx; ly = ly }, rw h refl, (e, h))
      | inr h ↦ inl (rw h refl)
    ]

pub target_at-cases :
    (fe : Frontend) (gx gy : ℤ)
    → (target_at fe gx gy ≡ none) ⊎ ((t : Target) × (target_at fe gx gy ≡ some t) × IsTarget fe t)
unfolding target_at
target_at-cases fe gx gy = elim (Option-cases (Window.at fe.stack gx gy)) [
  | inl e ↦ inl (rw (target_at, e) refl)
  | inr (hit, e) ↦ elim (Option-cases (surface_by_window fe hit.id)) [
    | inl e' ↦ inl (rw (target_at, e, e') refl)
    | inr (s, e') ↦ rw (target_at, e, e') (target_in-cases fe hit s gx gy e')
  ]
]

pub surface_by_window-target :
    (fe : Frontend) (gx gy : ℤ)
    → let over = target_at fe gx gy in surface_by_window fe (window_of over) ≡ surface_of over
surface_by_window-target fe gx gy = elim (target_at-cases fe gx gy) [
  | inl e ↦ rw e (unfold surface_by_window in refl)
  | inr (t, e, target) ↦ rw e target.0
]
