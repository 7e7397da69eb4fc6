-- ===== src/Wayland/Live.antt =====
-- src/wayland.c: which structs of surfaces are live, and which one a request is handed.
use crystalline_lattice.Common.{
  ℕ, ◌≡◌, refl, ap, Bool-cases, if◌then◌else◌, inl, inr, false, Option, none, some, List, [], ◌∷◌,
  arith, ◌==◌, All,
}
use crystalline_lattice.Wayland.{FeSurface}
use crystalline_lattice.Wayland.Requests.{
  Request, create_surface, attach, callback, commit, set_title, get_xdg_surface, get_toplevel,
  get_decoration, toplevel_gone, xdg_surface_gone, surface_gone, callback_gone, set_mode,
  get_pointer, get_keyboard, pointer_gone, keyboard_gone, at_address, put, unlink,
}

abbrev pub addresses : List FeSurface → List ℕ
addresses [] = []
addresses (s ∷ ss) = s.address ∷ addresses ss

abbrev pub remove : ℕ → List ℕ → List ℕ
remove a [] = []
remove a (b ∷ bs) = if b == a then bs else b ∷ remove a bs

pub addresses-put : (s : FeSurface) (ss : List FeSurface) → addresses (put s ss) ≡ addresses ss
unfolding put
addresses-put s [] = refl
addresses-put s (u ∷ us) = elim (Bool-cases (u.address == s.address)) [
  | inl e ↦
      let same : s.address ≡ u.address = ground (arith, e) in
      simp e (ap (λ (a : ℕ). a ∷ addresses us) same)
  | inr e ↦ simp e (ap (◌∷◌ u.address) (addresses-put s us))
]

pub addresses-unlink :
    (a : ℕ) (ss : List FeSurface) → addresses (unlink a ss) ≡ remove a (addresses ss)
unfolding unlink
addresses-unlink a [] = refl
addresses-unlink a (u ∷ us) = elim (Bool-cases (u.address == a)) [
  | inl e ↦ simp e refl
  | inr e ↦ simp e (ap (◌∷◌ u.address) (addresses-unlink a us))
]

-- The structs that are live after a request: `calloc` gives one to a new surface, and the end of
-- the surface's own resource, and nothing else, takes it back.
abbrev pub live_after : Request → List ℕ → List ℕ
live_after (create_surface (some a) (some r)) live = a ∷ live
live_after (surface_gone a) live = remove a live
live_after _ live = live

-- The struct that a request or a destructor is handed, by its address, where it is handed one.
abbrev pub handed : Request → Option ℕ
handed (create_surface a r) = none
handed (attach a buffer) = some a
handed (callback a cb) = some a
handed (commit a shm grown) = some a
handed (set_title a title) = some a
handed (get_xdg_surface a r) = some a
handed (get_toplevel a r) = some a
handed (get_decoration a r) = some a
handed (toplevel_gone a) = some a
handed (xdg_surface_gone a) = some a
handed (surface_gone a) = some a
handed (callback_gone r) = none
handed (set_mode r) = none
handed (get_pointer r) = none
handed (get_keyboard r) = none
handed (pointer_gone r) = none
handed (keyboard_gone r) = none

-- The struct is not among those that are live.
abbrev pub IsStale : Request → List ℕ → Type 0
IsStale r live = (a : ℕ) × (handed r ≡ some a) × All (λ b. (b == a) ≡ false) live

pub absent :
    (a : ℕ) (ss : List FeSurface)
    → at_address a ss ≡ none
    → All (λ b. (b == a) ≡ false) (addresses ss)
unfolding at_address
absent a [] e = tt
absent a (u ∷ us) e = elim (Bool-cases (u.address == a)) [
  | inl hit ↦ absurd (ground (arith, e, hit))
  | inr miss ↦ (miss, absent a us (simp miss at e))
]
