-- ===== src/Wayland/Keeps.antt =====
-- src/wayland.c: what a handler leaves of the windows and surfaces beside its own.
use crystalline_lattice.Common.{ℕ, suc, ◌≤◌, ◌≡◌, refl, sym, ◌∙◌, inl, inr, arith, ◌==◌, Bool-cases}
use crystalline_lattice.Window
use crystalline_lattice.Window.{Window, WindowStack}
use crystalline_lattice.Window.Lookup.{update-revise, destroy-without}
use crystalline_lattice.Window.Invariant.{IsValid, destroy-IsValid}
use crystalline_lattice.Window.Effects.{by_id-destroy}
use crystalline_lattice.Wayland.{Frontend, FeSurface, surface_unmap, drop_content}
use crystalline_lattice.Wayland.Backing.{Lookup, IsBacked, IsLocal}

-- What a handler for the surface `s` keeps: one more id at most is taken.
pub record Keeps (fe : Frontend) (s : FeSurface) (fe' : Frontend) (s' : FeSurface) : Type 0 where
  pub change : IsLocal (Window.by_id fe.stack) (Window.by_id fe'.stack) s s'
  pub valid : IsValid fe'.stack
  pub few : fe'.stack.next_id ≤ suc fe.stack.next_id
  pub same_surfaces : fe'.surfaces ≡ fe.surfaces

pub next_id-update :
    (s : WindowStack) (id : ℕ) (f : Window → Window) → (Window.update s id f).next_id ≡ s.next_id
next_id-update s id f = rw update-revise refl

next_id-destroy : (s : WindowStack) (id : ℕ) → (Window.destroy s id).next_id ≡ s.next_id
next_id-destroy s id = rw destroy-without (ground arith)

-- A handler that leaves the stack alone.
pub same_stack-Keeps :
    (fe : Frontend) (s : FeSurface) (fe' : Frontend) (s' : FeSurface)
    → IsValid fe.stack
    → fe'.stack ≡ fe.stack
    → fe'.surfaces ≡ fe.surfaces
    → s'.address ≡ s.address
    → s'.server_id ≡ s.server_id
    → IsBacked (Window.by_id fe.stack) s'
    → Keeps fe s fe' s'
same_stack-Keeps fe s fe' s' valid e surfaces address id backed = record {
  change = record {
    same_address = address;
    backed = rw e backed;
    own_window = inl id;
    kept = λ j v _ there. (v, rw e there, λ u shows. shows);
  };
  valid = rw e valid;
  few = rw e (omega arith);
  same_surfaces = surfaces;
}

module _ (fe : Frontend) (s : FeSurface) (valid : IsValid fe.stack) where
  pub surface_unmap-Keeps : let (fe', s') = surface_unmap fe s in Keeps fe s fe' s'
  unfolding surface_unmap
  surface_unmap-Keeps = elim (Bool-cases (s.server_id == 0)) [
    | inl e ↦ rw e (
        same_stack-Keeps fe s fe (drop_content s) valid refl refl refl refl
          (λ up. absurd (ground (arith, e, up))))
    | inr e ↦ rw e (record {
      change = record {
        same_address = refl;
        backed = λ up. absurd (ground (arith, up));
        own_window = inr (inl refl);
        kept = λ j v other there. (
          v,
          rw (by_id-destroy fe.stack valid s.server_id j) (ground (arith, e, other, there)),
          λ u shows. shows,
        );
      };
      valid = destroy-IsValid fe.stack valid s.server_id;
      few = rw next_id-destroy (omega arith);
      same_surfaces = refl;
    })
  ]

-- `IsLocal` reads the address and the window of the surface before, no more.
pub recast :
    (look look' : Lookup) (s u s' : FeSurface)
    → u.address ≡ s.address
    → u.server_id ≡ s.server_id
    → IsLocal look look' u s'
    → IsLocal look look' s s'
recast look look' s u s' address id change = record {
  same_address = change.same_address ∙ address;
  backed = change.backed;
  own_window = rw (sym id) change.own_window;
  kept = rw (sym id) change.kept;
}
