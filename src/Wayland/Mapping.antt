-- ===== src/Wayland/Mapping.antt =====
-- src/wayland.c: what mapping, unmapping and retitling a surface do to the window stack.
use crystalline_lattice.Common.{
  is_some, ℕ, suc, ◌+◌, ◌*◌, ◌%◌, ◌^◌, ◌≤◌, ◌<◌, ◌≡◌, refl, ◌∙◌, inl, inr, true, false, none, some,
  arith, ◌==◌, leb, if◌then◌else◌, Bool-cases, pos, ◌+ℤ◌,
}
use mathlib.Core.Option
use mathlib.Core.Option.{Option}
use crystalline_lattice.Window
use crystalline_lattice.Window.{
  Window, WindowStack, normal, count, win_max, new_window, decor_titlebar_h, fit_title,
}
use crystalline_lattice.Window.Invariant.{IsValid, create-IsValid, update-IsValid, focus-IsValid}
use crystalline_lattice.Window.Effects.{by_id-new, by_id-update, by_id-focus}
use crystalline_lattice.Window.Reach.{next_id-focus}
use crystalline_lattice.Wayland.{
  Frontend, FeSurface, place_new, surface_map_or_update, show_content, fit_content, title_of,
}
use crystalline_lattice.Wayland.Backing.{Shows, is_mapped}
use crystalline_lattice.Wayland.Keeps.{Keeps, next_id-update, same_stack-Keeps}

-- A change to the one window of a surface that keeps what the surface shows.
module _ (stack : WindowStack) (valid : IsValid stack) (id : ℕ) (f : Window → Window) where
  by_id-shown :
      ((v : Window) → (f v).id ≡ v.id)
      → (j : ℕ)
      → Window.by_id (Window.focus (Window.update stack id f) id) j
        ≡ (if id == j then Option.map f (Window.by_id stack j) else Window.by_id stack j)
  by_id-shown keeps j =
      by_id-focus (Window.update stack id f) (update-IsValid stack valid id f keeps) id j
      ∙ by_id-update stack id j f keeps

-- The entry that `surface_map_or_update` asks for.
abbrev entry : ℕ → FeSurface → ℕ → Window
entry id s n =
    new_window id normal (pos (120 + 40 * n)) (pos (90 + 40 * n)) s.cw
      (s.ch +ℤ pos decor_titlebar_h) 0x00202020 (some (title_of s.title))

abbrev made : Frontend → FeSurface → ℕ → ℕ × WindowStack
made fe s n =
    Window.create fe.stack normal (pos (120 + 40 * n)) (pos (90 + 40 * n)) s.cw
      (s.ch +ℤ pos decor_titlebar_h) 0x00202020 (some (title_of s.title))

made_lem :
    (fe : Frontend) (s : FeSurface) (n j : ℕ)
    → IsValid fe.stack
    → count fe.stack < win_max
    → let (id, st) = made fe s n in
      (Window.by_id fe.stack id ≡ none)
      × (Window.by_id st j ≡ (if id == j then some (entry id s n) else Window.by_id fe.stack j))
made_lem fe s n j valid below =
    by_id-new fe.stack valid normal (pos (120 + 40 * n)) (pos (90 + 40 * n)) s.cw
      (s.ch +ℤ pos decor_titlebar_h) 0x00202020 (some (title_of s.title)) j below

made-IsValid :
    (fe : Frontend) (s : FeSurface) (n : ℕ)
    → IsValid fe.stack
    → suc fe.stack.next_id < 2 ^ 32
    → IsValid (made fe s n).1
made-IsValid fe s n valid room =
    create-IsValid fe.stack valid normal (pos (120 + 40 * n)) (pos (90 + 40 * n)) s.cw
      (s.ch +ℤ pos decor_titlebar_h) 0x00202020 (some (title_of s.title)) room

module _ (fe : Frontend) (s : FeSurface) (valid : IsValid fe.stack)
    (content : is_some s.content ≡ true) (toplevel : is_some s.xdg_toplevel ≡ true) where
  shown_new :
      (id : ℕ) (st : WindowStack) (v : Window)
      → (s.server_id == 0) ≡ true
      → IsValid st
      → v.role ≡ normal
      → Window.by_id fe.stack id ≡ none
      → ((j : ℕ) → Window.by_id st j ≡ (if id == j then some v else Window.by_id fe.stack j))
      → st.next_id ≤ suc fe.stack.next_id
      → Keeps fe s
          (record fe {
            stack = Window.focus (Window.update st id (show_content s)) id;
            dirty = true;
          })
          (record s { server_id = id })
  unfolding show_content
  shown_new id st v unmapped valid_st role fresh look few = record {
    change = record {
      same_address = refl;
      backed = λ up. (
        content,
        toplevel,
        show_content s v,
        rw (by_id-shown st valid_st id (show_content s) (λ _. refl) id, look) (ground arith),
        (role, refl, refl, refl, refl),
      );
      own_window = inr (inr fresh);
      kept = λ j u _ there. (
        u,
        rw (by_id-shown st valid_st id (show_content s) (λ _. refl) j, look)
            (ground (arith, fresh, there)),
        λ u shows. shows,
      );
    };
    valid =
        focus-IsValid (Window.update st id (show_content s))
          (update-IsValid st valid_st id (show_content s) (λ _. refl)) id;
    few = rw (next_id-focus, next_id-update) few;
    same_surfaces = refl;
  }

  place_new-Keeps :
      (n : ℕ)
      → (s.server_id == 0) ≡ true
      → suc fe.stack.next_id < 2 ^ 32
      → let (fe', s') = place_new fe s n in Keeps fe s fe' s'
  unfolding place_new
  place_new-Keeps n unmapped room = elim (Bool-cases (leb win_max (count fe.stack))) [
    | inl full ↦
        let same : made fe s n ≡ (0, fe.stack) = unfold Window.create in rw full refl in
        rw same (
          same_stack-Keeps fe s fe s valid refl refl refl refl
            (λ up. absurd (ground (arith, unmapped, up))))
    | inr fits ↦
        let below : count fe.stack < win_max = ground arith in
        let id : (made fe s n).0 ≡ fe.stack.next_id = unfold Window.create in rw fits refl in
        let nonzero : ((made fe s n).0 == 0) ≡ false =
          rw id (ground (arith, valid.next_in_range)) in
        rw nonzero (
          shown_new (made fe s n).0 (made fe s n).1 (entry (made fe s n).0 s n) unmapped
            (made-IsValid fe s n valid room) (unfold new_window in refl)
            (made_lem fe s n 0 valid below).0 (λ j. (made_lem fe s n j valid below).1)
            (unfold Window.create in rw fits (omega arith)))
  ]

  -- A write to the window that shows the surface, after which the window shows it again.
  pub shown_again :
      (f : Window → Window) (fe' : Frontend) (s' : FeSurface)
      → ((v : Window) → (f v).id ≡ v.id)
      → (v : Window) → Window.by_id fe.stack s.server_id ≡ some v
      → Shows s' (f v)
      → s'.address ≡ s.address
      → s'.server_id ≡ s.server_id
      → s'.content ≡ s.content
      → s'.xdg_toplevel ≡ s.xdg_toplevel
      → fe'.stack ≡ Window.update fe.stack s.server_id f
      → fe'.surfaces ≡ fe.surfaces
      → is_mapped s ≡ true
      → Keeps fe s fe' s'
  shown_again f fe' s' keeps v there shows address id content' toplevel' stack surfaces mapped =
      record {
        change = record {
          same_address = address;
          backed = λ up. (
            rw content' content,
            rw toplevel' toplevel,
            f v,
            rw (stack, id, by_id-update fe.stack s.server_id s.server_id f keeps)
                (ground (arith, there)),
            shows,
          );
          own_window = inl id;
          kept = λ j u other there'. (
            u,
            rw (stack, by_id-update fe.stack s.server_id j f keeps)
                (ground (arith, mapped, other, there')),
            λ x shows'. shows',
          );
        };
        valid = rw stack (update-IsValid fe.stack valid s.server_id f keeps);
        few = rw (stack, next_id-update) (omega arith);
        same_surfaces = surfaces;
      }

-- `surface_map_or_update` of a surface with content and the role backs it by a window.
pub surface_map_or_update-Keeps :
    (fe : Frontend) (s : FeSurface)
    → IsValid fe.stack
    → is_some s.content ≡ true
    → is_some s.xdg_toplevel ≡ true
    → ((s.server_id == 0) ≡ false
        → (v : Window) × (Window.by_id fe.stack s.server_id ≡ some v) × (v.role ≡ normal))
    → suc fe.stack.next_id < 2 ^ 32
    → let (fe', s') = surface_map_or_update fe s in Keeps fe s fe' s'
unfolding surface_map_or_update fit_content show_content
surface_map_or_update-Keeps fe s valid content toplevel there room =
    elim (Bool-cases (s.server_id == 0)) [
      | inl e ↦
          let fe' : Frontend = record fe { cascade = fe.cascade + 1 } in
          let kept = place_new-Keeps fe' s valid content toplevel (fe.cascade % 8) e room in
          rw e (record {
            change = kept.change;
            valid = kept.valid;
            few = kept.few;
            same_surfaces = kept.same_surfaces;
          })
      | inr e ↦
          let (v, there', role) = there e in
          rw e (
            shown_again fe s valid content toplevel (fit_content s) _ s (λ _. refl) v there'
              (role, refl, refl, refl, refl) refl refl refl refl refl refl (ground (arith, e)))
    ]
