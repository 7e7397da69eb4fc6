-- ===== src/Transport/Stack.antt =====
-- The window stack under src/transport.c: whatever the clients send, it stays well formed.
pub mod Process
pub mod Rounds
use crystalline_lattice.Common.{
  ℕ, zero, suc, ◌+◌, ◌^◌, ◌≤◌, ◌<◌, ◌≡◌, ◌≢◌, refl, sym, ap, ◌∙◌, Bool, true, false, not, ◌&&◌,
  ◌||◌, Option, none, some, List, [], ◌∷◌, ◌++◌, arith, ltb, leb, ◌==◌, if◌then◌else◌, length,
  Bool-cases, Option-cases, inl, inr, ℤ, pos, int_of_u32,
}
use crystalline_lattice.Window
use crystalline_lattice.Window.{Window, WindowStack, Role, is_normal, is_desktop}
use crystalline_lattice.Window.Lookup.{update-revise, destroy-without, raise-without, lower-without}
use crystalline_lattice.Window.Invariant.{
  IsValid, update-IsValid, create-IsValid, destroy-IsValid, lower-IsValid, focus-IsValid,
  set_geometry-IsValid,
}
use crystalline_lattice.Window.Reach.{next_id-focus}
use crystalline_lattice.Protocol.{
  CreateWindow, SetTitle, Commit, DestroyWindow, SetGeometry, SetCursor, cl_buf_shm,
  cl_format_xrgb8888,
}
use crystalline_lattice.Transport.{
  Transport, Client, ClWin, Orphan, Effect, win_drop_buffer, win_find, win_alloc, client_at, win_at,
  role_from_wire, assign_token, slot_from, set_client, free_client, set_buf,
}
use crystalline_lattice.Transport.Routing.{notify_focus}
use crystalline_lattice.Transport.Session.{
  reap, orphan_destroy, expire_from, orphans_expire, client_reclaim, client_drop, keep_slot, create,
  add_client,
}
use crystalline_lattice.Transport.Handlers.{
  place, place_created, take_created, on_create_window, on_set_title, on_commit, commit_rest,
  import_buffer, on_destroy_window, on_set_geometry, on_set_cursor, set_app_decorated, attach,
  set_title, size_or,
}
use crystalline_lattice.Transport.Dispatch.{
  Answers, Outcome, dispatch, handle, handshake, greet, Received, datagram, would_block, ended,
  client_readable, Ready, accepting, hung_up, readable, client_by_fd, accept_pending, serve,
  serve_all, process,
}
use crystalline_lattice.Transport.Room.{
  Fits, update-Fits, destroy-Fits, set_geometry-Fits, win_drop_buffer-Fits,
}

module _ (room : ℕ) (t : Transport) (fits : Fits room t.stack) where
  pub on_set_title-Fits : (i : ℕ) (m : SetTitle) → Fits room (on_set_title t i m).stack
  unfolding on_set_title
  on_set_title-Fits i m = elim (Option-cases (win_find (client_at t i) m.wid)) [
    | inl e ↦ rw (e, on_set_title) fits
    | inr (k, e) ↦
        rw (e, on_set_title)
          (update-Fits room t.stack fits (win_at (client_at t i) k).server_id (set_title m.title)
            (λ v. refl))
  ]

  pub on_set_geometry-Fits : (i : ℕ) (m : SetGeometry) → Fits room (on_set_geometry t i m).stack
  unfolding on_set_geometry
  on_set_geometry-Fits i m = elim (Option-cases (win_find (client_at t i) m.wid)) [
    | inl e ↦ rw (e, on_set_geometry) fits
    | inr (k, e) ↦
        let id = (win_at (client_at t i) k).server_id in
        let moved =
          set_geometry-Fits room t.stack fits id m.x m.y (int_of_u32 m.w) (int_of_u32 m.h) in
        elim (Option-cases (Window.by_id t.stack id)) [
          | inl f ↦ rw (e, f, on_set_geometry) moved
          | inr (v, f) ↦ elim (Bool-cases (is_desktop v.role)) [
            | inl d ↦ rw (e, f, d, on_set_geometry) fits
            | inr d ↦ rw (e, f, d, on_set_geometry) moved
          ]
        ]
  ]

  pub on_destroy_window-Fits :
      (i : ℕ) (m : DestroyWindow) → Fits room (on_destroy_window t i m).0.stack
  unfolding on_destroy_window
  on_destroy_window-Fits i m = elim (Option-cases (win_find (client_at t i) m.wid)) [
    | inl e ↦ rw (e, on_destroy_window) fits
    | inr (k, e) ↦
        rw (e, on_destroy_window)
          (destroy-Fits room _ (win_drop_buffer-Fits room (win_at (client_at t i) k) t.stack fits)
            _)
  ]

  pub on_set_cursor-Fits :
      (m : SetCursor) (fds : List ℕ) (pixels : Option (List ℕ))
      → (on_set_cursor t m fds pixels).0.stack ≡ t.stack
  unfolding on_set_cursor
  on_set_cursor-Fits m fds pixels = ground arith

  import_buffer-Fits :
      (i : ℕ) (o : Option ℕ) (m : Commit) (fd : ℕ) (mapped : Option ℕ)
      → Fits room (import_buffer t i o m fd mapped).0.stack
  unfolding import_buffer
  import_buffer-Fits i none m fd mapped = fits
  import_buffer-Fits i (some k) m fd none =
      let rejected : (import_buffer t i (some k) m fd none).0.stack ≡ t.stack = ground arith in
      rw rejected fits
  import_buffer-Fits i (some k) m fd (some base) =
      let cw = win_at (client_at t i) k in
      elim (Bool-cases (not (m.buffer.kind == cl_buf_shm))) [
        | inl e ↦ rw e fits
        | inr e ↦ elim (Option-cases (Window.by_id t.stack cw.server_id)) [
          | inl f ↦ rw (e, f) fits
          | inr (v, f) ↦
              elim (Bool-cases (
                not (m.buffer.format == cl_format_xrgb8888)
                || m.buffer.stride == 0
                || m.buffer.height == 0)) [
                  | inl g ↦ rw (e, f, g) fits
                  | inr g ↦
                      rw (e, f, g)
                        (update-Fits room (win_drop_buffer cw t.stack).1
                          (win_drop_buffer-Fits room cw t.stack fits) cw.server_id
                          (attach base m.buffer) (λ v. refl))
                ]
        ]
      ]

  commit_rest-Fits :
      (i : ℕ) (m : Commit) (fds : List ℕ) (mapped : Option ℕ)
      → Fits room (commit_rest t i m fds mapped).0.stack
  unfolding commit_rest
  commit_rest-Fits i m [] mapped = fits
  commit_rest-Fits i m (fd ∷ fds) mapped =
      import_buffer-Fits i (win_find (client_at t i) m.wid) m fd mapped

  pub on_commit-Fits :
      (i : ℕ) (m : Commit) (fds : List ℕ) (mapped : Option ℕ)
      → Fits room (on_commit t i m fds mapped).0.stack
  unfolding on_commit
  on_commit-Fits i m [] mapped = commit_rest-Fits i m [] mapped
  on_commit-Fits i m (fd ∷ []) mapped = commit_rest-Fits i m (fd ∷ []) mapped
  on_commit-Fits i m (fd ∷ fence ∷ fds) mapped = elim (Bool-cases (m.buffer.has_fence == 0)) [
    | inl e ↦ rw e (commit_rest-Fits i m (fd ∷ fence ∷ fds) mapped)
    | inr e ↦ rw e (commit_rest-Fits i m (fd ∷ []) mapped)
  ]
