-- ===== src/Window/Effects.antt =====
-- What the operations of src/window.c do to each lookup by id, on a valid stack.
use crystalline_lattice.Common.{
  ℕ, zero, suc, ◌<◌, ◌≡◌, ◌≢◌, refl, sym, ◌∙◌, Bool, true, false, Option, none, some, List, [], ◌∷◌,
  ◌++◌, arith, length, take, ◌==◌, leb, if◌then◌else◌, Bool-cases, Option-cases, inl, inr, ℤ, pos,
  leb_ℤ, get_elem?, get_elem?-append,
}
use mathlib.Core.Option
use crystalline_lattice.Window
use crystalline_lattice.Window.{
  Window, WindowStack, Role, count, win_max, place, is_desktop, new_window, cycle_from, cycle_index,
  is_candidate, start_of,
}
use crystalline_lattice.Window.Lookup.{
  find, without, revise, by_id-find, update-revise, destroy-without, raise-without, lower-without,
}
use crystalline_lattice.Window.Ids.{
  Distinct, id-find, IsFresh-find, IsFresh-without, All-find, find-get_elem?,
}
use crystalline_lattice.Window.Invariant.{IsValid, IsIssued, issued-IsFresh, focused_at-IsValid}

find-append :
    (j : ℕ) (ws vs : List Window)
    → find j (ws ++ vs) ≡ elim (find j ws) [ some u ↦ some u | none ↦ find j vs ]
unfolding find
find-append j [] vs = refl
find-append j (u ∷ ws) vs = ground (arith, find-append j ws vs)

find-without_ne : (id j : ℕ) (ws : List Window) → j ≢ id → find j (without id ws) ≡ find j ws
unfolding find without
find-without_ne id j [] ne = refl
find-without_ne id j (u ∷ ws) ne = ground (arith, find-without_ne id j ws)

find-without_self : (id : ℕ) (ws : List Window) → Distinct ws → find id (without id ws) ≡ none
find-without_self id ws d = IsFresh-find id (without id ws) (IsFresh-without id ws d)

find-single : (j : ℕ) (v : Window) → find j (v ∷ []) ≡ (if v.id == j then some v else none)
unfolding find
find-single j v = refl

module _ (s : WindowStack) (valid : IsValid s) where
  pub by_id-new :
      (role : Role) (x y w h : ℤ) (color : ℕ) (title : Option (List ℕ)) (j : ℕ)
      → count s < win_max
      → let (id, s') = Window.create s role x y w h color title in
        (Window.by_id s id ≡ none)
        × (Window.by_id s' j
            ≡ (if id == j then some (new_window id role x y w h color title) else Window.by_id s j))
  unfolding Window.create new_window
  by_id-new role x y w h color title j below = elim (Bool-cases (leb win_max (count s))) [
    | inl full ↦ absurd (ground arith)
    | inr fits ↦
        let unused = IsFresh-find s.next_id s.windows (issued-IsFresh _ s.windows valid.issued) in
        rw (fits, by_id-find, by_id-find, by_id-find)
          (unused, ground (arith, unused, find-append j s.windows (v ∷ []), find-single j v))
  ]
    where
      v : Window
      v = new_window s.next_id role x y w h color title

  -- While a valid stack is not full, `window_create` returns an id that was not in use. That id
  -- is then the new window's, which is mapped, has the requested role, rectangle and color, the
  -- first 63 bytes of the title, no buffer, and is not snapped; every other lookup is as before.
  pub by_id-create :
      (role : Role) (x y w h : ℤ) (color : ℕ) (title : Option (List ℕ)) (j : ℕ)
      → count s < win_max
      → let (id, s') = Window.create s role x y w h color title in
        (Window.by_id s id ≡ none)
        × (Window.by_id s' j ≡ (
            if id == j
            then some (record {
              id = id;
              role = role;
              x = x;
              y = y;
              w = w;
              h = h;
              mapped = true;
              color = color;
              title = take 63 (elim title [ none ↦ [] | some bytes ↦ bytes ]);
              buf = none;
              buf_w = pos 0;
              buf_h = pos 0;
              buf_stride = pos 0;
              snapped = false;
              saved_x = pos 0;
              saved_y = pos 0;
              saved_w = pos 0;
              saved_h = pos 0;
              app_decorated = false;
            })
            else Window.by_id s j))
  unfolding new_window
  by_id-create role x y w h color none j below = by_id-new role x y w h color none j below
  by_id-create role x y w h color (some bytes) j below =
      by_id-new role x y w h color (some bytes) j below

  module _ (id j : ℕ) where
    -- After `window_destroy` on a valid stack the id names no window, and every other lookup is
    -- as before.
    pub by_id-destroy :
        Window.by_id (Window.destroy s id) j ≡ (if id == j then none else Window.by_id s j)
    by_id-destroy = elim (Option-cases (find id s.windows)) [
      | inl e ↦ rw (by_id-find, by_id-find, destroy-without, e) (ground arith)
      | inr (v, e) ↦
          rw (by_id-find, by_id-find, destroy-without, e)
            (ground (
              arith,
              find-without_self id s.windows valid.distinct,
              find-without_ne id j s.windows,
            ))
    ]

    -- `window_raise` and `window_lower` change the order alone: every id names the same window.
    pub by_id-raise : Window.by_id (Window.raise s id) j ≡ Window.by_id s j
    by_id-raise = elim (Option-cases (find id s.windows)) [
      | inl e ↦ rw (by_id-find, by_id-find, raise-without, e)
      | inr (v, e) ↦
          rw (by_id-find, by_id-find, raise-without, e)
            (ground (
              arith,
              e,
              id-find id s.windows v e,
              find-append j (without id s.windows) (v ∷ []),
              find-single j v,
              find-without_self id s.windows valid.distinct,
              find-without_ne id j s.windows,
            ))
    ]

    pub by_id-lower : Window.by_id (Window.lower s id) j ≡ Window.by_id s j
    unfolding find
    by_id-lower = elim (Option-cases (find id s.windows)) [
      | inl e ↦ rw (by_id-find, by_id-find, lower-without, e)
      | inr (v, e) ↦
          rw (by_id-find, by_id-find, lower-without, e)
            (ground (arith, e, id-find id s.windows v e, find-without_ne id j s.windows))
    ]

-- On a valid stack, `window_focus` of a window that is there gives it the focus; unless it is the
-- desktop, it is then on top of the others, which keep their order; the desktop moves no window.
pub focus_lem :
    (s : WindowStack)
    → IsValid s
    → (id : ℕ) (v : Window) → Window.by_id s id ≡ some v
    → let s' = Window.focus s id in
      (Window.focused s' ≡ some v)
      × (s'.windows ≡ (if is_desktop v.role then s.windows else without id s.windows ++ v ∷ []))
unfolding Window.focus Window.focused
focus_lem s valid id v e =
    let found : find id s.windows ≡ some v = sym (by_id-find s id) ∙ e in
    let issued : IsIssued s.next_id v =
      All-find (IsIssued s.next_id) id s.windows v valid.issued found in
    let nonzero : (id == 0) ≡ false = ground (arith, issued, id-find id s.windows v found) in
    let s' : WindowStack = record s { focus_id = id } in
    let e' : Window.by_id s' id ≡ some v = by_id-find s' id ∙ found in
    elim (Bool-cases (is_desktop v.role)) [
      | inl wallpaper ↦ rw (e, wallpaper, Window.focus) (rw (nonzero) e', refl)
      | inr other ↦
          rw (e, other, Window.focus, raise-without s' id, found)
            (
              rw nonzero (
                  rw by_id-find (
                    ground (
                      arith,
                      id-find id s.windows v found,
                      find-append id (without id s.windows) (v ∷ []),
                      find-single id v,
                      find-without_self id s.windows valid.distinct,
                    ))),
              refl,
            )
    ]

find-revise :
    (id j : ℕ) (f : Window → Window) (ws : List Window)
    → ((v : Window) → (f v).id ≡ v.id)
    → find j (revise id f ws) ≡ (if id == j then Option.map f (find j ws) else find j ws)
unfolding find revise
find-revise id j f [] keeps = ground arith
find-revise id j f (u ∷ ws) keeps = ground (arith, keeps u, find-revise id j f ws keeps)

pub by_id-update :
    (s : WindowStack) (id j : ℕ) (f : Window → Window)
    → ((v : Window) → (f v).id ≡ v.id)
    → Window.by_id (Window.update s id f) j
      ≡ (if id == j then Option.map f (Window.by_id s j) else Window.by_id s j)
by_id-update s id j f keeps =
    rw (by_id-find _ j, by_id-find s j, update-revise) (find-revise id j f s.windows keeps)

-- `window_set_geometry` writes the position of the window with the id, and its size where that is
-- positive; every other lookup is as before.
pub by_id-set_geometry :
    (s : WindowStack) (id j : ℕ) (x y w h : ℤ)
    → Window.by_id (Window.set_geometry s id x y w h) j
      ≡ (if id == j then Option.map (place x y w h) (Window.by_id s j) else Window.by_id s j)
unfolding Window.set_geometry
by_id-set_geometry s id j x y w h = by_id-update s id j (place x y w h) (λ v. unfold place in refl)

pub by_id-focus :
    (s : WindowStack)
    → IsValid s
    → (id j : ℕ) → Window.by_id (Window.focus s id) j ≡ Window.by_id s j
unfolding Window.focus
by_id-focus s valid id j = elim (Option-cases (Window.by_id s id)) [
  | inl e ↦ rw (e, Window.focus)
  | inr (v, e) ↦
      let s' : WindowStack = record s { focus_id = id } in
      let found : find id s.windows ≡ some v = sym (by_id-find s id) ∙ e in
      let same : Window.by_id s' j ≡ Window.by_id s j = by_id-find s' j ∙ sym (by_id-find s j) in
      elim (Bool-cases (is_desktop v.role)) [
        | inl wallpaper ↦ rw (e, wallpaper, Window.focus) same
        | inr other ↦
            rw (e, other, Window.focus)
              (by_id-raise s' (focused_at-IsValid s valid id v found) id j ∙ same)
      ]
]

-- In a stack with distinct ids, a window that is there is the one that its id names.
pub by_id_of-split :
    (s : WindowStack)
    → Distinct s.windows
    → (below above : List Window) (v : Window) → s.windows ≡ below ++ v ∷ above
    → Window.by_id s v.id ≡ some v
by_id_of-split s d below above v e =
    by_id-find s v.id
    ∙ find-get_elem? s.windows (length below) v d (rw e (get_elem?-append below above v))

by_id-cycle_from :
    (rounds n : ℕ) (start : ℤ) (forward : Bool) (s : WindowStack) (j : ℕ)
    → IsValid s
    → Window.by_id (cycle_from rounds n start forward s) j ≡ Window.by_id s j
unfolding cycle_from
by_id-cycle_from zero n start forward s j valid = refl
by_id-cycle_from (suc rounds) n start forward s j valid =
    elim (Option-cases (get_elem? s.windows (cycle_index start forward n (count s)))) [
      | inl e ↦ rw (e, cycle_from) (by_id-cycle_from rounds (suc n) start forward s j valid)
      | inr (v, e) ↦ elim (Bool-cases (is_candidate v)) [
        | inl hit ↦ rw (e, hit, cycle_from) (by_id-focus s valid v.id j)
        | inr miss ↦
            rw (e, miss, cycle_from) (by_id-cycle_from rounds (suc n) start forward s j valid)
      ]
    ]

pub by_id-focus_cycle :
    (s : WindowStack) (dir : ℤ) (j : ℕ)
    → IsValid s
    → Window.by_id (Window.focus_cycle s dir) j ≡ Window.by_id s j
unfolding Window.focus_cycle
by_id-focus_cycle s dir j valid = ground (
  arith,
  by_id-cycle_from (count s) 1 (start_of (Window.index s s.focus_id)) (leb_ℤ (pos 0) dir) s j valid,
)
