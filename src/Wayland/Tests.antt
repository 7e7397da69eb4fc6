-- ===== src/Wayland/Tests.antt =====
-- The Wayland frontend on concrete requests, buffers and inputs.
use crystalline_lattice.Common.{
  ℕ, ◌+◌, ◌*◌, ◌≡◌, refl, true, false, none, some, List, [], ◌∷◌, arith, pos,
}
use crystalline_lattice.Window
use crystalline_lattice.Window.Reach.{move, perform}
use crystalline_lattice.Window.Invariant.{init-IsValid}
use crystalline_lattice.Wayland
use crystalline_lattice.Wayland.{
  Resource, ShmBuffer, FeSurface, Frontend, copy_shm_buffer, surface_map_or_update, place_new,
  show_content, fill_content,
}
use crystalline_lattice.Wayland.Requests.{
  create_surface, get_xdg_surface, get_toplevel, attach, commit, set_title, new_surface, request,
  on_surface, at_address, put, comp_create_surface, wm_get_xdg_surface, xs_get_toplevel,
  surf_commit, surf_attach, commit_content, commit_attached, show_buffer,
}
use crystalline_lattice.Wayland.Content.{copy_shm_buffer_lem}
use crystalline_lattice.Wayland.Session.{Step, wayland, other, Ends, step, run-create-IsSound}
use crystalline_lattice.Wayland.Focus.{PointerInput, move_to, press}
use crystalline_lattice.Wayland.Keys.{KeyboardInput, focus_on, type_key}

abbrev res : ℕ → Resource
res n = record { id = n; client = 7; version = 5 }

-- Two rows of one pixel, eight bytes apart.
abbrev buffer : ShmBuffer
buffer = record { width = pos 1; height = pos 2; stride = 8; pixels = λ i. i }

copy_shm_buffer_lem_example :
    let s' = copy_shm_buffer (some 900) buffer (new_surface 100 (res 1)) in
    ((s'.cw ≡ pos 1) × (s'.ch ≡ pos 2)) × (s'.bytes (1 * 1 * 4 + 3) ≡ 11) × (s'.bytes 8 ≡ 0)
copy_shm_buffer_lem_example =
    copy_shm_buffer_lem 900 buffer (new_surface 100 (res 1)) 1 2 1 3 8 refl refl (omega arith)
      (omega arith) (omega arith)

-- A toplevel is created, configured, mapped, moved by the window manager and given a title.
abbrev steps : List Step
steps =
    wayland (create_surface (some 100) (some (res 1)))
    ∷ wayland (get_xdg_surface 100 (some (res 2)))
    ∷ wayland (get_toplevel 100 (some (res 3)))
    ∷ wayland (commit 100 (λ _. none) none)
    ∷ wayland (attach 100 (some (res 4)))
    ∷ wayland (commit 100 (λ _. some buffer) (some 900))
    ∷ other (move 1 (pos 5) (pos 6))
    ∷ wayland (set_title 100 (some (65 ∷ [])))
    ∷ []

run-create-IsSound_example : Ends steps (Wayland.create Window.init (pos 640) (pos 480) none)
unfolding Wayland.create Window.init step request on_surface at_address put comp_create_surface
    wm_get_xdg_surface xs_get_toplevel surf_commit surf_attach commit_content commit_attached
    show_buffer copy_shm_buffer surface_map_or_update place_new show_content fill_content
    Window.create Window.update Window.index Window.index_from Window.focus Window.by_id
    Window.raise Window.move_to_top Window.new_window Window.move perform
run-create-IsSound_example =
    run-create-IsSound steps Window.init (pos 640) (pos 480) none init-IsValid (omega arith)
      (λ b e. tt, (tt, (tt, (tt, (tt, (tt, ((tt, tt), (tt, tt))))))))

-- A frontend with a mapped surface at the top left and a pointer and a keyboard of its client.
abbrev shown : FeSurface
shown = record (new_surface 100 (res 1)) {
  xdg_toplevel = some (res 3);
  content = some 900;
  cw = pos 50;
  ch = pos 40;
  server_id = 1;
}

abbrev frontend : Frontend
frontend = record (Wayland.create Window.init (pos 640) (pos 480) none) {
  stack = (Window.create Window.init Window.normal (pos 0) (pos 0) (pos 50) (pos 68) 0 none).1;
  surfaces = shown ∷ [];
  pointers = res 8 ∷ res 5 ∷ [];
  keyboards = res 6 ∷ [];
}

-- Onto the content, a press, up to the title bar and back.
abbrev inputs : List PointerInput
inputs =
    move_to (pos 10) (pos 30)
    ∷ press 272 true
    ∷ move_to (pos 10) (pos 5)
    ∷ move_to (pos 11) (pos 40)
    ∷ []

abbrev keys : List KeyboardInput
keys = type_key 30 true ∷ focus_on 1 ∷ type_key 30 false ∷ focus_on 9 ∷ []
