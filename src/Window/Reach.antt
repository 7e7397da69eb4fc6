-- ===== src/Window/Reach.antt =====
-- Every stack that the calls of src/window.c build from `window_stack_init`.
use crystalline_lattice.Common.{
  ℕ, zero, suc, ◌+◌, ◌≤◌, ◌^◌, ◌<◌, ◌≡◌, refl, Bool, Option, List, [], ◌∷◌, arith, ℤ, Bool-cases,
  inl, inr, Option-cases, get_elem?, leb_ℤ, pos, ◌-◌,
}
use crystalline_lattice.Window
use crystalline_lattice.Window.{
  Window, WindowStack, Role, count, win_max, cycle_from, cycle_index, is_candidate, start_of,
}
use crystalline_lattice.Window.Lookup.{update-revise, destroy-without, raise-without, lower-without}
use crystalline_lattice.Window.Invariant.{
  IsValid, init-IsValid, create-IsValid, destroy-IsValid, raise-IsValid, lower-IsValid,
  focus-IsValid, focus_cycle-IsValid, move-IsValid, set_geometry-IsValid,
}

-- A call that changes the stack.
pub data Call : Type 0 where
  create : Role → ℤ → ℤ → ℤ → ℤ → ℕ → Option (List ℕ) → Call
  destroy : ℕ → Call
  raise : ℕ → Call
  lower : ℕ → Call
  move : ℕ → ℤ → ℤ → Call
  set_geometry : ℕ → ℤ → ℤ → ℤ → ℤ → Call
  focus : ℕ → Call
  focus_cycle : ℤ → Call

unfoldable pub perform : Call → WindowStack → WindowStack
perform (create role x y w h color title) s = (Window.create s role x y w h color title).1
perform (destroy id) s = Window.destroy s id
perform (raise id) s = Window.raise s id
perform (lower id) s = Window.lower s id
perform (move id x y) s = Window.move s id x y
perform (set_geometry id x y w h) s = Window.set_geometry s id x y w h
perform (focus id) s = Window.focus s id
perform (focus_cycle dir) s = Window.focus_cycle s dir

unfoldable pub run : List Call → WindowStack → WindowStack
run [] s = s
run (c ∷ cs) s = run cs (perform c s)

-- How many ids a call asks for, and how many the calls do.
abbrev pub asks : Call → ℕ
asks (create _ _ _ _ _ _ _) = 1
asks _ = 0

pub asks_le : (c : Call) → asks c ≤ 1
asks_le (create _ _ _ _ _ _ _) = omega arith
asks_le (destroy _) = omega arith
asks_le (raise _) = omega arith
asks_le (lower _) = omega arith
asks_le (move _ _ _) = omega arith
asks_le (set_geometry _ _ _ _ _) = omega arith
asks_le (focus _) = omega arith
asks_le (focus_cycle _) = omega arith

abbrev pub creations : List Call → ℕ
creations [] = 0
creations (c ∷ cs) = asks c + creations cs

next_id-raise : (s : WindowStack) (id : ℕ) → (Window.raise s id).next_id ≡ s.next_id
next_id-raise s id = rw raise-without (ground arith)

pub next_id-focus : (s : WindowStack) (id : ℕ) → (Window.focus s id).next_id ≡ s.next_id
unfolding Window.focus
next_id-focus s id = ground (arith, next_id-raise (record s { focus_id = id }) id)

next_id-cycle_from :
    (rounds n : ℕ) (start : ℤ) (forward : Bool) (s : WindowStack)
    → (cycle_from rounds n start forward s).next_id ≡ s.next_id
unfolding cycle_from
next_id-cycle_from zero n start forward s = refl
next_id-cycle_from (suc rounds) n start forward s =
    elim (Option-cases (get_elem? s.windows (cycle_index start forward n (count s)))) [
      | inl e ↦ rw (e, cycle_from) (next_id-cycle_from rounds (suc n) start forward s)
      | inr (v, e) ↦ elim (Bool-cases (is_candidate v)) [
        | inl hit ↦ rw (e, hit, cycle_from) (next_id-focus s v.id)
        | inr miss ↦ rw (e, miss, cycle_from) (next_id-cycle_from rounds (suc n) start forward s)
      ]
    ]

pub next_id-focus_cycle :
    (s : WindowStack) (dir : ℤ) → (Window.focus_cycle s dir).next_id ≡ s.next_id
unfolding Window.focus_cycle
next_id-focus_cycle s dir = ground (
  arith,
  next_id-cycle_from (count s) 1 (start_of (Window.index s s.focus_id)) (leb_ℤ (pos 0) dir) s,
)

-- One call keeps the invariant, and takes at most the id that it asks for.
pub perform-IsValid :
    (c : Call) (left : ℕ) (s : WindowStack)
    → IsValid s
    → s.next_id + (asks c + left) < 2 ^ 32
    → IsValid (perform c s) × ((perform c s).next_id + left < 2 ^ 32)
unfolding perform
perform-IsValid (create role x y w h color title) left s valid room = (
  create-IsValid s valid role x y w h color title (omega arith),
  unfold Window.create in ground arith,
)
perform-IsValid (destroy id) left s valid room =
    (destroy-IsValid s valid id, rw destroy-without (ground arith))
perform-IsValid (raise id) left s valid room =
    (raise-IsValid s valid id, rw next_id-raise (omega arith))
perform-IsValid (lower id) left s valid room =
    (lower-IsValid s valid id, rw lower-without (ground arith))
perform-IsValid (move id x y) left s valid room =
    (move-IsValid s valid id x y, unfold Window.move in rw update-revise (omega arith))
perform-IsValid (set_geometry id x y w h) left s valid room = (
  set_geometry-IsValid s valid id x y w h,
  unfold Window.set_geometry in rw update-revise (omega arith),
)
perform-IsValid (focus id) left s valid room =
    (focus-IsValid s valid id, rw next_id-focus (omega arith))
perform-IsValid (focus_cycle dir) left s valid room =
    (focus_cycle-IsValid s valid dir, rw next_id-focus_cycle (omega arith))

run_from-IsValid :
    (cs : List Call) (s : WindowStack)
    → IsValid s
    → s.next_id + creations cs < 2 ^ 32
    → IsValid (run cs s)
unfolding run
run_from-IsValid [] s valid room = valid
run_from-IsValid (c ∷ cs) s valid room =
    let (valid', room') = perform-IsValid c (creations cs) s valid room in
    run_from-IsValid cs (perform c s) valid' room'

-- After any calls on a fresh stack, of which fewer than 2 ^ 32 - 1 create a window, at most 64
-- windows are there, their ids are nonzero, all different and below the next id, and the focus is
-- 0 or the id of a window that is there.
pub run-IsValid : (cs : List Call) → creations cs < 2 ^ 32 - 1 → IsValid (run cs Window.init)
run-IsValid cs room =
    run_from-IsValid cs Window.init init-IsValid (unfold Window.init in omega arith)
