-- ===== src/Input/Tests.antt =====
-- The device table and the events of src/input.c on concrete inputs.
use crystalline_lattice.Common.{
  ℤ, ℕ, ◌+◌, ◌==◌, ◌≡◌, refl, true, false, none, some, List, [], ◌∷◌, arith, pos,
}
use crystalline_lattice.Server.{input_key}
use crystalline_lattice.Input.{
  enabled, disabled, seat_open, pump, seat_dispatch, seat_event, keyboard_key, other_event,
  input_dispatch, emit, emit_key,
}
use crystalline_lattice.Input.Table.{id_of}
use crystalline_lattice.Input.Devices.{
  Request, opened, refused, closed, serve, serve_ids, serve-serve_ids,
}

-- A mouse is unplugged, and a keyboard gets its descriptor.
abbrev requests : List Request
requests =
    opened 1 10 ∷ opened 2 11 ∷ refused ∷ closed 10 ∷ opened 3 10 ∷ closed 11 ∷ closed 10 ∷ []

serve-serve_ids_example :
    ((fd : ℕ) → id_of (serve requests []).0 fd ≡ (serve_ids requests (λ _. none)).0 fd)
    × ((serve requests []).1 ≡ (serve_ids requests (λ _. none)).1)
serve-serve_ids_example =
    serve-serve_ids requests (omega arith, refl, (omega arith, refl, (omega arith, refl, tt)))

closes_what_it_opened : (serve_ids requests (λ _. none)).1 ≡ 1 ∷ 2 ∷ 3 ∷ []
unfolding serve_ids
closes_what_it_opened = refl

-- The seat is taken away once before it is given for good.
opens_when_active :
    seat_open 3 (some []) (λ n. some (enabled ∷ (disabled ∷ (enabled ∷ []))))
    ≡ some (true, record { has_handle = true; active = true })
unfolding seat_open pump seat_dispatch seat_event
opens_when_active = refl

-- A state that counts the keys, with Alt down after the second.
second_key :
    input_dispatch {Double = ℤ}
      (λ (n code : ℕ). n + code)
      (λ n code pressed. n + 1)
      (λ n. n == 2)
      (pos 800)
      (pos 600)
      (keyboard_key 56 true ∷ other_event ∷ keyboard_key 15 true ∷ [])
      (some 0)
    ≡ (some 2, input_key 64 56 true false ∷ input_key 24 15 true true ∷ [])
unfolding input_dispatch emit emit_key
second_key = refl
