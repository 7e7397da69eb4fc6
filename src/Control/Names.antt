-- ===== src/Control/Names.antt =====
-- The connector names of src/control.c: they fit, and their number is read back.
use crystalline_lattice.Common.{
  ℕ, zero, suc, ◌+◌, ◌-◌, ◌*◌, ◌/◌, ◌%◌, ◌^◌, ◌≤◌, ◌<◌, ◌≡◌, refl, List, [], ◌∷◌, ◌++◌, arith, ltb,
  length, take_whole, length-append, Bool-cases, inl, inr,
}
use crystalline_lattice.Control.Reply.{
  ConnectorType, edp, lvds, display_port, hdmi_a, hdmi_b, vga, dvi_i, dvi_d, dvi_a, virtual, other,
  type_text, decimal, name_size, connector_name,
}

-- The number that digits spell.
abbrev pub value : ℕ → List ℕ → ℕ
value so_far [] = so_far
value so_far (d ∷ ds) = value (10 * so_far + (d - 48)) ds

value-append :
    (so_far d : ℕ) (ds : List ℕ) → value so_far (ds ++ d ∷ []) ≡ 10 * value so_far ds + (d - 48)
value-append so_far d [] = refl
value-append so_far d (e ∷ ds) = value-append (10 * so_far + (e - 48)) d ds

-- Enough digits spell the number.
pub value-decimal : (digits n : ℕ) → n < 10 ^ digits → value 0 (decimal digits n) ≡ n
unfolding decimal
value-decimal zero n h = omega arith
value-decimal (suc digits) n h = elim (Bool-cases (ltb n 10)) [
  | inl e ↦ rw e (ground (arith, e))
  | inr e ↦
      let front = value-decimal digits (n / 10) (omega arith) in
      rw (e, value-append 0 (48 + n % 10) (decimal digits (n / 10)), front) (omega arith)
]

length-decimal : (digits n : ℕ) → length (decimal digits n) ≤ digits
unfolding decimal
length-decimal zero n = omega arith
length-decimal (suc digits) n = elim (Bool-cases (ltb n 10)) [
  | inl e ↦ rw e (omega arith)
  | inr e ↦
      rw (e, length-append (decimal digits (n / 10)) ((48 + n % 10) ∷ []))
        (omega (arith, length-decimal digits (n / 10)))
]

length-type_text : (t : ConnectorType) → length (type_text t) ≤ 7
length-type_text edp = omega arith
length-type_text lvds = omega arith
length-type_text display_port = omega arith
length-type_text hdmi_a = omega arith
length-type_text hdmi_b = omega arith
length-type_text vga = omega arith
length-type_text dvi_i = omega arith
length-type_text dvi_d = omega arith
length-type_text dvi_a = omega arith
length-type_text virtual = omega arith
length-type_text other = omega arith

-- The longest name is shorter than its field.
pub length-name : (t : ConnectorType) (id : ℕ) → length (type_text t ++ 45 ∷ decimal 10 id) ≤ 18
length-name t id =
    rw (length-append (type_text t) (45 ∷ decimal 10 id))
      (omega (arith, length-type_text t, length-decimal 10 id))

pub connector_name-whole :
    (t : ConnectorType) (id : ℕ) → connector_name t id ≡ type_text t ++ 45 ∷ decimal 10 id
unfolding connector_name
connector_name-whole t id = take_whole (name_size - 1) _ (omega (arith, length-name t id))
