-- ===== src/Wayland/Commit.antt =====
-- src/wayland.c: a commit and a title keep every mapped surface backed by a window.
use crystalline_lattice.Common.{
  is_some, ℕ, suc, ◌^◌, ◌<◌, ◌≡◌, refl, inl, inr, true, false, ◌&&◌, ◌||◌, Option, none, some, List,
  [], arith, ◌==◌, Bool-cases, Option-cases, pos, eqb_ℤ, leb_ℤ,
}
use crystalline_lattice.Window
use crystalline_lattice.Window.{Window, fit_title, normal}
use crystalline_lattice.Window.Invariant.{IsValid}
use crystalline_lattice.Wayland.{
  Resource, ShmBuffer, Frontend, FeSurface, copy_shm_buffer, fill_content,
}
use crystalline_lattice.Wayland.Requests.{
  show_buffer, commit_attached, commit_content, surf_commit, tl_set_title, title_bytes,
}
use crystalline_lattice.Wayland.Backing.{IsBacked}
use crystalline_lattice.Wayland.Keeps.{Keeps, same_stack-Keeps, surface_unmap-Keeps, recast}
use crystalline_lattice.Wayland.Mapping.{surface_map_or_update-Keeps, shown_again}

-- The copy leaves the surface's place, role and window alone, and content stays there.
copy_shm_buffer-same :
    (grown : Option ℕ) (b : ShmBuffer) (s : FeSurface)
    → let s' = copy_shm_buffer grown b s in
      (s'.address ≡ s.address)
      × (s'.server_id ≡ s.server_id)
      × (s'.xdg_toplevel ≡ s.xdg_toplevel)
      × (is_some s.content ≡ true → is_some s'.content ≡ true)
unfolding copy_shm_buffer fill_content
copy_shm_buffer-same grown b s =
    elim (Bool-cases (leb_ℤ b.width (pos 0) || leb_ℤ b.height (pos 0))) [
      | inl empty ↦ rw empty (refl, refl, refl, λ c. c)
      | inr pixels ↦ elim (Bool-cases (eqb_ℤ s.cw b.width && eqb_ℤ s.ch b.height)) [
        | inl same ↦ rw (pixels, same) (refl, refl, refl, λ c. c)
        | inr other ↦ elim (Option-cases grown) [
          | inl e ↦ rw (pixels, other, e) (refl, refl, refl, λ c. c)
          | inr (a, e) ↦ rw (pixels, other, e) (refl, refl, refl, λ c. refl)
        ]
      ]
    ]

-- `Keeps` reads the address and the window of the surface before, no more.
pub recast-Keeps :
    (fe : Frontend) (s u : FeSurface) (fe' : Frontend) (s' : FeSurface)
    → u.address ≡ s.address
    → u.server_id ≡ s.server_id
    → Keeps fe u fe' s'
    → Keeps fe s fe' s'
recast-Keeps fe s u fe' s' address id keeps = record {
  change = recast _ _ s u s' address id keeps.change;
  valid = keeps.valid;
  few = keeps.few;
  same_surfaces = keeps.same_surfaces;
}

module _ (fe : Frontend) (s : FeSurface) (valid : IsValid fe.stack)
    (backed : IsBacked (Window.by_id fe.stack) s) where
  show_buffer-Keeps :
      (shm : Resource → Option ShmBuffer) (grown : Option ℕ) (buf : Resource)
      → suc fe.stack.next_id < 2 ^ 32
      → let (fe', s') = show_buffer shm grown buf fe s in Keeps fe s fe' s'
  unfolding show_buffer
  show_buffer-Keeps shm grown buf room = elim (Option-cases (shm buf)) [
    | inl e ↦ rw (e, show_buffer) (same_stack-Keeps fe s fe s valid refl refl refl refl backed)
    | inr (b, e) ↦
        let s' = copy_shm_buffer grown b s in
        let (address, id, role, stays) = copy_shm_buffer-same grown b s in
        elim (Bool-cases (is_some s'.content && is_some s'.xdg_toplevel)) [
          | inl ready ↦
              rw (e, ready, show_buffer)
                (recast-Keeps fe s s' _ _ address id (
                  surface_map_or_update-Keeps fe s' valid (ground (arith, ready))
                    (ground (arith, ready))
                    (λ up.
                      let (_, _, v, there, shows) = backed (ground (arith, rw id at up)) in
                      (v, rw id there, shows.0))
                    room))
          | inr bare ↦
              rw (e, bare, show_buffer)
                (same_stack-Keeps fe s fe s' valid refl refl address id (λ up.
                  let (content, toplevel, _, _, _) = backed (ground (arith, rw id at up)) in
                  let content' = stays content in
                  let toplevel' : is_some s'.xdg_toplevel ≡ true = rw role toplevel in
                  absurd (ground (arith, bare, content', toplevel'))))
        ]
  ]

  commit_attached-Keeps :
      (shm : Resource → Option ShmBuffer) (grown : Option ℕ) (buffer : Option Resource)
      → suc fe.stack.next_id < 2 ^ 32
      → let (fe', s', _) = commit_attached shm grown buffer fe s in Keeps fe s fe' s'
  unfolding commit_attached
  commit_attached-Keeps shm grown none room = surface_unmap-Keeps fe s valid
  commit_attached-Keeps shm grown (some buf) room = show_buffer-Keeps shm grown buf room

-- A change to the frontend past its stack and its surfaces.
callbacks-Keeps :
    (fe : Frontend) (s : FeSurface) (fe' : Frontend) (s' : FeSurface) (cbs : List Resource)
    → Keeps fe s fe' s'
    → Keeps fe s (record fe' { frame_callbacks = cbs }) s'
callbacks-Keeps fe s fe' s' cbs keeps = record {
  change = keeps.change;
  valid = keeps.valid;
  few = keeps.few;
  same_surfaces = keeps.same_surfaces;
}

module _ (fe : Frontend) (s : FeSurface) (valid : IsValid fe.stack)
    (backed : IsBacked (Window.by_id fe.stack) s) where
  commit_content-Keeps :
      (shm : Resource → Option ShmBuffer) (grown : Option ℕ)
      → suc fe.stack.next_id < 2 ^ 32
      → let (fe', s', _) = commit_content shm grown fe s in Keeps fe s fe' s'
  unfolding commit_content
  commit_content-Keeps shm grown room = elim (Bool-cases s.attached) [
    | inl e ↦
        let s0 : FeSurface = record s { attached = false; pending_buffer = none } in
        simp e (
          callbacks-Keeps fe s _ _ [] (
            recast-Keeps fe s s0 _ _ refl refl
              (commit_attached-Keeps fe s0 valid backed shm grown s.pending_buffer room)))
    | inr e ↦
        simp e (
          callbacks-Keeps fe s fe s []
            (same_stack-Keeps fe s fe s valid refl refl refl refl backed))
  ]

  pub surf_commit-Keeps :
      (shm : Resource → Option ShmBuffer) (grown : Option ℕ)
      → suc fe.stack.next_id < 2 ^ 32
      → let (fe', s', _) = surf_commit shm grown fe s in Keeps fe s fe' s'
  unfolding surf_commit
  surf_commit-Keeps shm grown room = elim (Option-cases s.xdg_surface) [
    | inl e ↦ simp (e, surf_commit) (commit_content-Keeps shm grown room)
    | inr (x, e) ↦ elim (Bool-cases s.initial_configured) [
      | inl done ↦ simp (e, done, surf_commit) (commit_content-Keeps shm grown room)
      | inr first ↦
          simp (e, first, surf_commit)
            (same_stack-Keeps fe s fe (record s { xdg_surface = some x; initial_configured = true })
              valid refl refl refl refl backed)
    ]
  ]

  pub tl_set_title-Keeps :
      (title : Option (List ℕ)) → let (fe', s', _) = tl_set_title title fe s in Keeps fe s fe' s'
  unfolding tl_set_title
  tl_set_title-Keeps title =
      let s' : FeSurface = record s { title = title_bytes title } in
      elim (Bool-cases (s.server_id == 0)) [
        | inl e ↦ rw e (same_stack-Keeps fe s fe s' valid refl refl refl refl backed)
        | inr e ↦
            let (content, toplevel, v, there, shows) = backed (ground (arith, e)) in
            rw e (
              shown_again fe s valid content toplevel
                (λ win. record win { title = fit_title (title_bytes title) }) _ s' (λ _. refl) v
                there shows refl refl refl refl refl refl (ground (arith, e)))
      ]
