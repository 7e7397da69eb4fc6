-- ===== src/Wayland/Sound.antt =====
-- src/wayland.c: each request of a Wayland client keeps the surfaces and their windows together.
use crystalline_lattice.Common.{
  is_some, ℕ, suc, ◌+◌, ◌^◌, ◌<◌, ◌≡◌, refl, ap, ◌∙◌, inl, inr, ◌⊎◌, true, false, Option, none,
  some, List, [], ◌∷◌, arith, ◌==◌, Option-cases, All,
}
use crystalline_lattice.Window
use crystalline_lattice.Window.{Window, WindowStack}
use crystalline_lattice.Window.Invariant
use crystalline_lattice.Wayland.{Resource, Frontend, FeSurface, Event}
use crystalline_lattice.Wayland.Requests.{
  Request, create_surface, attach, callback, commit, set_title, get_xdg_surface, get_toplevel,
  get_decoration, toplevel_gone, xdg_surface_gone, surface_gone, callback_gone, set_mode,
  get_pointer, get_keyboard, pointer_gone, keyboard_gone, request, on_surface, at_address, Handler,
  put, new_surface, surface_resource_destroy, comp_create_surface, seat_get_pointer,
  seat_get_keyboard, surf_attach, surf_frame, xs_get_toplevel, toplevel_resource_destroy,
  xdg_surface_resource_destroy, wm_get_xdg_surface, decomgr_get,
}
use crystalline_lattice.Wayland.Backing.{
  is_mapped, IsBacked, AllApart, Apart, put-AllApart, unlink-AllApart, address-at_address,
  All-at_address,
}
use crystalline_lattice.Wayland.Keeps.{Keeps, same_stack-Keeps, surface_unmap-Keeps}
use crystalline_lattice.Wayland.Commit.{surf_commit-Keeps, tl_set_title-Keeps, recast-Keeps}
use crystalline_lattice.Wayland.Live.{
  addresses, remove, addresses-put, addresses-unlink, live_after, handed, IsStale, absent,
}

-- The stack is valid with room for `room` more windows before the id counter wraps, every mapped
-- surface is backed by a window of its own, and no two surfaces share a struct.
pub record IsSound (room : ℕ) (fe : Frontend) : Type 0 where
  pub valid : Invariant.IsValid fe.stack
  pub roomy : fe.stack.next_id + room < 2 ^ 32
  pub backed : All (IsBacked (Window.by_id fe.stack)) fe.surfaces
  pub apart : AllApart fe.surfaces

module _ (room : ℕ) (fe : Frontend) (sound : IsSound (suc room) fe) where
  -- A handler that keeps what it must is run on a live surface.
  on_surface-IsSound :
      (a : ℕ) (handler : Handler) (s : FeSurface)
      → at_address a fe.surfaces ≡ some s
      → (let (fe', s', _) = handler fe s in Keeps fe s fe' s')
      → let (fe', s', _) = handler fe s in
        IsSound room (record fe' { surfaces = put s' fe'.surfaces })
  on_surface-IsSound a handler s there keeps =
      let s' = (handler fe s).1 in
      let place : s'.address ≡ a =
        keeps.change.same_address ∙ address-at_address a fe.surfaces s there in
      let (backed, apart) =
        put-AllApart _ _ s s' keeps.change fe.surfaces sound.apart sound.backed (rw place there) in
      record {
        valid = keeps.valid;
        roomy = omega (arith, sound.roomy, keeps.few);
        backed = rw keeps.same_surfaces backed;
        apart = rw keeps.same_surfaces apart;
      }

unmapped-Apart :
    (s : FeSurface) (us : List FeSurface)
    → is_mapped s ≡ false
    → All (λ u. (u.address == s.address) ≡ false) us
    → All (Apart s) us
unmapped-Apart s [] unmapped other = tt
unmapped-Apart s (u ∷ us) unmapped (p, other) =
    ((p, rw unmapped refl), unmapped-Apart s us unmapped other)

-- A step that goes through, and leaves these structs live.
abbrev pub Goes : ℕ → List ℕ → Option (Frontend × List Event) → Type 0
Goes room live none = ⊥
Goes room live (some r) = IsSound room r.0 × (addresses r.0.surfaces ≡ live)

module _ (room : ℕ) (fe : Frontend) (sound : IsSound (suc room) fe) where
  on_surface-Goes :
      (a : ℕ) (handler : Handler)
      → is_some (at_address a fe.surfaces) ≡ true
      → ((s : FeSurface)
          → IsBacked (Window.by_id fe.stack) s
          → let (fe', s', _) = handler fe s in Keeps fe s fe' s')
      → Goes room (addresses fe.surfaces) (on_surface a handler fe)
  unfolding on_surface
  on_surface-Goes a handler live keeps = elim (Option-cases (at_address a fe.surfaces)) [
    | inl e ↦ absurd (ground (arith, e, live))
    | inr (s, e) ↦
        let kept =
          keeps s
            (All-at_address (IsBacked (Window.by_id fe.stack)) a fe.surfaces s sound.backed e) in
        rw (e, on_surface)
          (
            on_surface-IsSound room fe sound a handler s e kept,
            addresses-put (handler fe s).1 _ ∙ ap addresses kept.same_surfaces,
          )
  ]

  -- The surfaces and the stack as they were.
  pub same-IsSound :
      (fe' : Frontend) → fe'.stack ≡ fe.stack → fe'.surfaces ≡ fe.surfaces → IsSound room fe'
  same-IsSound fe' stack surfaces = record {
    valid = rw stack sound.valid;
    roomy = rw stack (omega (arith, sound.roomy));
    backed = rw (stack, surfaces) sound.backed;
    apart = rw surfaces sound.apart;
  }

  surface_gone-Goes :
      (a : ℕ)
      → is_some (at_address a fe.surfaces) ≡ true
      → Goes room (remove a (addresses fe.surfaces)) (request (surface_gone a) fe)
  unfolding request surface_resource_destroy
  surface_gone-Goes a live = elim (Option-cases (at_address a fe.surfaces)) [
    | inl e ↦ absurd (ground (arith, e, live))
    | inr (s, e) ↦
        let place = address-at_address a fe.surfaces s e in
        let keeps = surface_unmap-Keeps fe s sound.valid in
        let (backed, apart) =
          unlink-AllApart _ _ s _ keeps.change fe.surfaces sound.apart sound.backed
            (simp place e) in
        rw (e, request)
          (
            record {
              valid = keeps.valid;
              roomy = omega (arith, sound.roomy, keeps.few);
              backed = rw keeps.same_surfaces backed;
              apart = rw keeps.same_surfaces apart;
            },
            addresses-unlink s.address _
                ∙ ap (λ (us : List FeSurface). remove s.address (addresses us)) keeps.same_surfaces
                ∙ ap (λ (b : ℕ). remove b (addresses fe.surfaces)) place,
          )
  ]

  -- A surface of a struct of its own, not yet mapped.
  comp_create_surface-IsSound :
      (a : Option ℕ) (r : Option Resource)
      → ((b : ℕ) → a ≡ some b → All (λ u. (u.address == b) ≡ false) fe.surfaces)
      → IsSound room (comp_create_surface a r fe).0
  unfolding comp_create_surface
  comp_create_surface-IsSound none r fresh = same-IsSound fe refl refl
  comp_create_surface-IsSound (some a) none fresh = same-IsSound fe refl refl
  comp_create_surface-IsSound (some a) (some r) fresh = record {
    valid = sound.valid;
    roomy = omega (arith, sound.roomy);
    backed = (λ up. absurd (ground (arith, up)), sound.backed);
    apart = (unmapped-Apart (new_surface a r) fe.surfaces refl (fresh a refl), sound.apart);
  }

-- What is asked of the allocator: an address that is not in use.
abbrev pub IsFreshFor : Request → Frontend → Type 0
IsFreshFor (create_surface a r) fe =
    (b : ℕ) → a ≡ some b → All (λ u. (u.address == b) ≡ false) fe.surfaces
IsFreshFor _ fe = Unit

-- A surface whose struct is live, or an address that is not in use.
abbrev pub IsOrderly : Request → Frontend → Type 0
IsOrderly (create_surface a r) fe =
    (b : ℕ) → a ≡ some b → All (λ u. (u.address == b) ≡ false) fe.surfaces
IsOrderly (attach a buffer) fe = is_some (at_address a fe.surfaces) ≡ true
IsOrderly (callback a cb) fe = is_some (at_address a fe.surfaces) ≡ true
IsOrderly (commit a shm grown) fe = is_some (at_address a fe.surfaces) ≡ true
IsOrderly (set_title a title) fe = is_some (at_address a fe.surfaces) ≡ true
IsOrderly (get_xdg_surface a r) fe = is_some (at_address a fe.surfaces) ≡ true
IsOrderly (get_toplevel a r) fe = is_some (at_address a fe.surfaces) ≡ true
IsOrderly (get_decoration a r) fe = is_some (at_address a fe.surfaces) ≡ true
IsOrderly (toplevel_gone a) fe = is_some (at_address a fe.surfaces) ≡ true
IsOrderly (xdg_surface_gone a) fe = is_some (at_address a fe.surfaces) ≡ true
IsOrderly (surface_gone a) fe = is_some (at_address a fe.surfaces) ≡ true
IsOrderly (callback_gone r) fe = Unit
IsOrderly (set_mode r) fe = Unit
IsOrderly (get_pointer r) fe = Unit
IsOrderly (get_keyboard r) fe = Unit
IsOrderly (pointer_gone r) fe = Unit
IsOrderly (keyboard_gone r) fe = Unit

module _ (room : ℕ) (fe : Frontend) (sound : IsSound (suc room) fe) where
  -- A handler that leaves the stack alone, on a live surface.
  simple-Goes :
      (a : ℕ) (handler : Handler)
      → is_some (at_address a fe.surfaces) ≡ true
      → ((s : FeSurface)
          → IsBacked (Window.by_id fe.stack) s
          → let (fe', s', _) = handler fe s in
            (fe'.stack ≡ fe.stack)
            × (fe'.surfaces ≡ fe.surfaces)
            × (s'.address ≡ s.address)
            × (s'.server_id ≡ s.server_id)
            × IsBacked (Window.by_id fe.stack) s')
      → Goes room (addresses fe.surfaces) (on_surface a handler fe)
  simple-Goes a handler live same = on_surface-Goes room fe sound a handler live (λ s b.
      let (stack, surfaces, address, id, backed) = same s b in
      same_stack-Keeps fe s _ _ sound.valid stack surfaces address id backed)

  pub request-Goes :
      (r : Request)
      → IsOrderly r fe
      → Goes room (live_after r (addresses fe.surfaces)) (request r fe)
  unfolding request surf_attach surf_frame xs_get_toplevel wm_get_xdg_surface decomgr_get
      xdg_surface_resource_destroy toplevel_resource_destroy seat_get_pointer seat_get_keyboard
  request-Goes (create_surface none r) fresh =
      (comp_create_surface-IsSound room fe sound none r fresh, unfold comp_create_surface in refl)
  request-Goes (create_surface (some a) none) fresh = (
    comp_create_surface-IsSound room fe sound (some a) none fresh,
    unfold comp_create_surface in refl,
  )
  request-Goes (create_surface (some a) (some r)) fresh = (
    comp_create_surface-IsSound room fe sound (some a) (some r) fresh,
    unfold comp_create_surface in refl,
  )
  request-Goes (attach a buffer) live =
      simple-Goes a (surf_attach buffer) live (λ s b. (refl, refl, refl, refl, b))
  request-Goes (callback a none) live =
      simple-Goes a (surf_frame none) live (λ s b. (refl, refl, refl, refl, b))
  request-Goes (callback a (some cb)) live =
      simple-Goes a (surf_frame (some cb)) live (λ s b. (refl, refl, refl, refl, b))
  request-Goes (commit a shm grown) live =
      on_surface-Goes room fe sound a _ live
        (λ s b. surf_commit-Keeps fe s sound.valid b shm grown (omega (arith, sound.roomy)))
  request-Goes (set_title a title) live =
      on_surface-Goes room fe sound a _ live (λ s b. tl_set_title-Keeps fe s sound.valid b title)
  request-Goes (get_xdg_surface a none) live =
      simple-Goes a (wm_get_xdg_surface none) live (λ s b. (refl, refl, refl, refl, b))
  request-Goes (get_xdg_surface a (some r)) live =
      simple-Goes a (wm_get_xdg_surface (some r)) live (λ s b. (refl, refl, refl, refl, b))
  request-Goes (get_toplevel a none) live =
      simple-Goes a (xs_get_toplevel none) live (λ s b. (refl, refl, refl, refl, b))
  request-Goes (get_toplevel a (some r)) live =
      simple-Goes a (xs_get_toplevel (some r)) live (λ s b. (
        refl,
        refl,
        refl,
        refl,
        λ up. let (content, _, v, there, shows) = b up in (content, refl, v, there, shows),
      ))
  request-Goes (get_decoration a none) live =
      simple-Goes a (decomgr_get none) live (λ s b. (refl, refl, refl, refl, b))
  request-Goes (get_decoration a (some r)) live =
      simple-Goes a (decomgr_get (some r)) live (λ s b. (refl, refl, refl, refl, b))
  request-Goes (toplevel_gone a) live = on_surface-Goes room fe sound a _ live (λ s b.
      recast-Keeps fe s (record s { xdg_toplevel = none }) _ _ refl refl
        (surface_unmap-Keeps fe (record s { xdg_toplevel = none }) sound.valid))
  request-Goes (xdg_surface_gone a) live =
      simple-Goes a xdg_surface_resource_destroy live (λ s b. (refl, refl, refl, refl, b))
  request-Goes (surface_gone a) live = surface_gone-Goes room fe sound a live
  request-Goes (callback_gone r) u = (same-IsSound room fe sound _ refl refl, refl)
  request-Goes (set_mode r) u = (same-IsSound room fe sound _ refl refl, refl)
  request-Goes (get_pointer none) u = (same-IsSound room fe sound _ refl refl, refl)
  request-Goes (get_pointer (some r)) u = (same-IsSound room fe sound _ refl refl, refl)
  request-Goes (get_keyboard none) u = (same-IsSound room fe sound _ refl refl, refl)
  request-Goes (get_keyboard (some r)) u = (same-IsSound room fe sound _ refl refl, refl)
  request-Goes (pointer_gone r) u = (same-IsSound room fe sound _ refl refl, refl)
  request-Goes (keyboard_gone r) u = (same-IsSound room fe sound _ refl refl, refl)

live_at :
    (r : Request) (a : ℕ) (fe : Frontend)
    → handed r ≡ some a
    → (is_some (at_address a fe.surfaces) ≡ true) ⊎ IsStale r (addresses fe.surfaces)
live_at r a fe e = elim (Option-cases (at_address a fe.surfaces)) [
  | inl gone ↦ inr (a, e, absent a fe.surfaces gone)
  | inr (s, there) ↦ inl (rw there refl)
]

-- A request is handed a live struct or a freed one.
pub live_or_IsStale :
    (r : Request) (fe : Frontend)
    → IsFreshFor r fe
    → IsOrderly r fe ⊎ IsStale r (addresses fe.surfaces)
live_or_IsStale (create_surface a r) fe fresh = inl fresh
live_or_IsStale (attach a buffer) fe fresh = live_at (attach a buffer) a fe refl
live_or_IsStale (callback a cb) fe fresh = live_at (callback a cb) a fe refl
live_or_IsStale (commit a shm grown) fe fresh = live_at (commit a shm grown) a fe refl
live_or_IsStale (set_title a title) fe fresh = live_at (set_title a title) a fe refl
live_or_IsStale (get_xdg_surface a r) fe fresh = live_at (get_xdg_surface a r) a fe refl
live_or_IsStale (get_toplevel a r) fe fresh = live_at (get_toplevel a r) a fe refl
live_or_IsStale (get_decoration a r) fe fresh = live_at (get_decoration a r) a fe refl
live_or_IsStale (toplevel_gone a) fe fresh = live_at (toplevel_gone a) a fe refl
live_or_IsStale (xdg_surface_gone a) fe fresh = live_at (xdg_surface_gone a) a fe refl
live_or_IsStale (surface_gone a) fe fresh = live_at (surface_gone a) a fe refl
live_or_IsStale (callback_gone r) fe fresh = inl tt
live_or_IsStale (set_mode r) fe fresh = inl tt
live_or_IsStale (get_pointer r) fe fresh = inl tt
live_or_IsStale (get_keyboard r) fe fresh = inl tt
live_or_IsStale (pointer_gone r) fe fresh = inl tt
live_or_IsStale (keyboard_gone r) fe fresh = inl tt
