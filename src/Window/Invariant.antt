-- ===== src/Window/Invariant.antt =====
-- The invariant of the window stack, and that every operation of src/window.c keeps it.
use crystalline_lattice.Common.{
  ℕ, zero, suc, ◌+◌, ◌-◌, ◌%◌, ◌^◌, ◌≤◌, ◌<◌, ◌≡◌, refl, sym, Bool, true, ◌||◌, Option, some, List,
  [], ◌∷◌, ◌++◌, arith, length, get_elem?, ◌==◌, leb, Bool-cases, Option-cases, inl, inr, All,
  All-append, ℤ, length-append,
}
use crystalline_lattice.Window
use crystalline_lattice.Window.{
  Window, WindowStack, Role, count, win_max, top_id, place, cycle_from, cycle_index, is_candidate,
  is_desktop,
}
use crystalline_lattice.Window.Lookup.{
  find, without, revise, by_id-find, update-revise, destroy-without, raise-without, lower-without,
}
use crystalline_lattice.Window.Ids.{
  has, IsFresh, Distinct, id-find, has-find, has-append, has-without_ne, All-without, All-find,
  All-revise, IsFresh-without, Distinct-without, Distinct-snoc, length-without, has-revise,
  length-revise, Distinct-revise,
}

-- Ids are handed out in order, so those in use lie below the next one.
abbrev pub IsIssued : ℕ → Window → Type 0
IsIssued next v = (0 < v.id) × (v.id < next)

pub record IsValid (s : WindowStack) : Type 0 where
  pub bounded : count s ≤ win_max
  pub distinct : Distinct s.windows
  pub issued : All (IsIssued s.next_id) s.windows
  pub next_in_range : (0 < s.next_id) × (s.next_id < 2 ^ 32)
  pub focus_live : (s.focus_id == 0 || has s.focus_id s.windows) ≡ true

-- `window_stack_init` makes a valid stack.
pub init-IsValid : IsValid Window.init
unfolding Window.init
init-IsValid = ground arith

All-IsIssued_mono : (m n : ℕ) (ws : List Window) → m ≤ n → All (IsIssued m) ws → All (IsIssued n) ws
All-IsIssued_mono m n [] h a = a
All-IsIssued_mono m n (v ∷ ws) h a = ((omega arith, omega arith), All-IsIssued_mono m n ws h a.1)

pub issued-IsFresh : (n : ℕ) (ws : List Window) → All (IsIssued n) ws → IsFresh n ws
issued-IsFresh n [] a = tt
issued-IsFresh n (v ∷ ws) a = (omega arith, issued-IsFresh n ws a.1)

has-get_elem? :
    (ws : List Window) (i : ℕ) (v : Window) → get_elem? ws i ≡ some v → has v.id ws ≡ true
unfolding has
has-get_elem? [] i v e = absurd (cc)
has-get_elem? (u ∷ ws) zero v e = ground arith
has-get_elem? (u ∷ ws) (suc i) v e = ground (arith, has-get_elem? ws i v)

-- The focus that `window_destroy` leaves is 0 or a window's.
top_id-live : (ws : List Window) → (top_id ws == 0 || has (top_id ws) ws) ≡ true
unfolding top_id
top_id-live ws = elim (Option-cases (get_elem? ws (length ws - 1))) [
  | inl e ↦ rw (e, top_id)
  | inr (v, e) ↦ rw (e, top_id) (ground (arith, has-get_elem? ws (length ws - 1) v e))
]

module _ (s : WindowStack) (valid : IsValid s) where
  -- `window_create` keeps the invariant as long as the id counter does not wrap.
  pub create-IsValid :
      (role : Role) (x y w h : ℤ) (color : ℕ) (title : Option (List ℕ))
      → suc s.next_id < 2 ^ 32
      → IsValid (Window.create s role x y w h color title).1
  unfolding Window.create Window.new_window has
  create-IsValid role x y w h color title room = elim (Bool-cases (leb win_max (count s))) [
    | inl full ↦ rw full valid
    | inr fits ↦
        let below : count s < win_max = ground arith in
        let next : (s.next_id + 1) % 2 ^ 32 ≡ suc s.next_id = omega arith in
        rw (fits, next)
          (record {
            bounded = omega (arith, length-append s.windows (v ∷ []));
            distinct =
                Distinct-snoc s.windows v valid.distinct
                  (issued-IsFresh s.next_id s.windows valid.issued);
            issued =
                All-append (IsIssued (suc s.next_id)) s.windows (v ∷ [])
                  (All-IsIssued_mono s.next_id (suc s.next_id) s.windows (omega arith) valid.issued)
                  (omega arith);
            next_in_range = (omega arith, omega arith);
            focus_live = ground (arith, valid.focus_live, has-append s.focus_id s.windows (v ∷ []));
          })
  ]
    where
      v : Window
      v = Window.new_window s.next_id role x y w h color title

  -- Other windows in the stack's place, with the same ids.
  replaced-IsValid :
      (ws : List Window)
      → length ws ≤ count s
      → Distinct ws
      → All (IsIssued s.next_id) ws
      → has s.focus_id ws ≡ has s.focus_id s.windows
      → IsValid (record s { windows = ws })
  replaced-IsValid ws l d a h = record {
    bounded = omega (arith, valid.bounded);
    distinct = d;
    issued = a;
    next_in_range = valid.next_in_range;
    focus_live = rw h valid.focus_live;
  }

  module _ (id : ℕ) where
    -- A change to one window that leaves its id alone.
    pub update-IsValid :
        (f : Window → Window) → ((v : Window) → (f v).id ≡ v.id) → IsValid (Window.update s id f)
    update-IsValid f keeps = rw update-revise (
        replaced-IsValid (revise id f s.windows) (omega (arith, length-revise id f keeps s.windows))
          (Distinct-revise id f keeps s.windows valid.distinct)
          (All-revise (IsIssued s.next_id) id f s.windows (λ v p. rw (keeps v) p) valid.issued)
          (has-revise id f keeps s.focus_id s.windows))

    rest-has :
        (v : Window)
        → find id s.windows ≡ some v
        → has s.focus_id s.windows ≡ (v.id == s.focus_id || has s.focus_id (without id s.windows))
    rest-has v e = elim (Bool-cases (v.id == s.focus_id)) [
      | inl same ↦
          let p : s.focus_id ≡ id = ground (arith, id-find id s.windows v e) in
          rw same (rw p (has-find id s.windows v e))
      | inr other ↦
          rw other (
            sym (has-without_ne id s.focus_id s.windows (ground (arith, id-find id s.windows v e))))
    ]

    -- `window_raise` and `window_lower` keep the invariant.
    pub raise-IsValid : IsValid (Window.raise s id)
    unfolding has
    raise-IsValid = elim (Option-cases (find id s.windows)) [
      | inl e ↦ rw (raise-without, e) valid
      | inr (v, e) ↦
          let same_id = id-find id s.windows v e in
          rw (raise-without, e)
            (replaced-IsValid (without id s.windows ++ v ∷ [])
              (omega (
                arith,
                length-without id s.windows v e,
                length-append (without id s.windows) (v ∷ []),
              ))
              (Distinct-snoc (without id s.windows) v (Distinct-without id s.windows valid.distinct)
                (rw same_id (IsFresh-without id s.windows valid.distinct)))
              (All-append (IsIssued s.next_id) (without id s.windows) (v ∷ [])
                (All-without (IsIssued s.next_id) id s.windows valid.issued)
                (All-find (IsIssued s.next_id) id s.windows v valid.issued e, tt))
              (ground (arith, rest-has v e, has-append s.focus_id (without id s.windows) (v ∷ []))))
    ]

    pub lower-IsValid : IsValid (Window.lower s id)
    unfolding has
    lower-IsValid = elim (Option-cases (find id s.windows)) [
      | inl e ↦ rw (lower-without, e) valid
      | inr (v, e) ↦
          let same_id = id-find id s.windows v e in
          rw (lower-without, e)
            (replaced-IsValid (v ∷ without id s.windows)
              (omega (arith, length-without id s.windows v e))
              (
                rw same_id (IsFresh-without id s.windows valid.distinct),
                Distinct-without id s.windows valid.distinct,
              )
              (
                All-find (IsIssued s.next_id) id s.windows v valid.issued e,
                All-without (IsIssued s.next_id) id s.windows valid.issued,
              )
              (ground (arith, rest-has v e)))
    ]

    -- `window_destroy` keeps the invariant: a destroyed window that had the focus hands it to the
    -- window that is then on top.
    pub destroy-IsValid : IsValid (Window.destroy s id)
    destroy-IsValid = elim (Option-cases (find id s.windows)) [
      | inl e ↦ rw (destroy-without, e) valid
      | inr (v, e) ↦
          rw (destroy-without, e)
            (record {
              bounded = omega (arith, valid.bounded, length-without id s.windows v e);
              distinct = Distinct-without id s.windows valid.distinct;
              issued = All-without (IsIssued s.next_id) id s.windows valid.issued;
              next_in_range = valid.next_in_range;
              focus_live = elim (Bool-cases (s.focus_id == id)) [
                | inl h ↦ rw h (top_id-live (without id s.windows))
                | inr h ↦
                    rw (h, has-without_ne id s.focus_id s.windows (ground arith)) valid.focus_live
              ];
            })
    ]

  pub focused_at-IsValid :
      (id : ℕ) (v : Window) → find id s.windows ≡ some v → IsValid (record s { focus_id = id })
  focused_at-IsValid id v e = record {
    bounded = valid.bounded;
    distinct = valid.distinct;
    issued = valid.issued;
    next_in_range = valid.next_in_range;
    focus_live = rw (has-find id s.windows v e) (ground arith);
  }

-- `window_focus` keeps the invariant.
pub focus-IsValid : (s : WindowStack) → IsValid s → (id : ℕ) → IsValid (Window.focus s id)
unfolding Window.focus
focus-IsValid s valid id = elim (Option-cases (find id s.windows)) [
  | inl e ↦ rw (by_id-find, e, Window.focus) valid
  | inr (v, e) ↦
      let seen = focused_at-IsValid s valid id v e in
      elim (Bool-cases (is_desktop v.role)) [
        | inl wallpaper ↦ rw (by_id-find, e, wallpaper, Window.focus) seen
        | inr other ↦
            rw (by_id-find, e, other, Window.focus)
              (raise-IsValid (record s { focus_id = id }) seen id)
      ]
]

-- So does `window_focus_cycle`, in either direction.
cycle_from-IsValid :
    (rounds n : ℕ) (start : ℤ) (forward : Bool) (s : WindowStack)
    → IsValid s
    → IsValid (cycle_from rounds n start forward s)
unfolding cycle_from
cycle_from-IsValid zero n start forward s valid = valid
cycle_from-IsValid (suc rounds) n start forward s valid =
    elim (Option-cases (get_elem? s.windows (cycle_index start forward n (count s)))) [
      | inl e ↦ rw (e, cycle_from) (cycle_from-IsValid rounds (suc n) start forward s valid)
      | inr (v, e) ↦ elim (Bool-cases (is_candidate v)) [
        | inl hit ↦ rw (e, hit, cycle_from) (focus-IsValid s valid v.id)
        | inr miss ↦
            rw (e, miss, cycle_from) (cycle_from-IsValid rounds (suc n) start forward s valid)
      ]
    ]

pub focus_cycle-IsValid :
    (s : WindowStack) → IsValid s → (dir : ℤ) → IsValid (Window.focus_cycle s dir)
unfolding Window.focus_cycle
focus_cycle-IsValid s valid dir = elim (Bool-cases (count s == 0)) [
  | inl none_there ↦ rw none_there valid
  | inr some_there ↦ rw some_there (cycle_from-IsValid _ _ _ _ s valid)
]

pub move-IsValid :
    (s : WindowStack) → IsValid s → (id : ℕ) (x y : ℤ) → IsValid (Window.move s id x y)
unfolding Window.move
move-IsValid s valid id x y = update-IsValid s valid id _ (λ v. refl)

pub set_geometry-IsValid :
    (s : WindowStack)
    → IsValid s
    → (id : ℕ) (x y w h : ℤ) → IsValid (Window.set_geometry s id x y w h)
unfolding Window.set_geometry place
set_geometry-IsValid s valid id x y w h = update-IsValid s valid id _ (λ v. refl)
