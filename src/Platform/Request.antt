-- ===== src/Platform/Request.antt =====
-- src/platform.c: the settings of an atomic request.
use crystalline_lattice.Common.{
  ℕ, suc, ◌*◌, ◌^◌, ◌≡◌, refl, sym, ap, ◌∙◌, Bool, true, false, not, ◌||◌, List, [], ◌∷◌, ◌++◌,
  ◌==◌, arith, Bool-cases, inl, inr, All,
}
use mathlib.Core.List.{append_assoc, append-nil}
use crystalline_lattice.Platform.{
  Setting, Wanted, prop_id, atomic_add, add_all, Kms, Prop, wanted_plane, wanted_modeset,
  kms_atomic_plane, kms_atomic_modeset,
}

-- The entry that a call asks for.
abbrev pub setting_of : Wanted → Setting
setting_of w = record {
  object = w.target;
  property = prop_id w.props w.wanted_name;
  value = w.wanted_value;
}

abbrev pub settings : List Wanted → List Setting
settings [] = []
settings (w ∷ ws) = setting_of w ∷ settings ws

-- The object has the property.
abbrev pub IsKnown : Wanted → Type 0
IsKnown w = (prop_id w.props w.wanted_name == 0) ≡ false

atomic_add-cases :
    (added : Bool) (req : List Setting) (w : Wanted)
    → let (ok, req') = atomic_add added req w.target w.props w.wanted_name w.wanted_value in
      ok ≡ true → IsKnown w × (req' ≡ req ++ setting_of w ∷ [])
unfolding atomic_add
atomic_add-cases added req w = elim (Bool-cases (prop_id w.props w.wanted_name == 0 || not added)) [
  | inl failed ↦ rw failed (λ h. absurd (cc))
  | inr done ↦ rw done (λ h. (ground (arith, done), refl))
]

add_all_complete :
    (answers : ℕ → Bool) (req : List Setting) (ws : List Wanted)
    → let (ok, req') = add_all answers req ws in
      ok ≡ true → All IsKnown ws × (req' ≡ req ++ settings ws)
unfolding add_all
add_all_complete answers req [] h = (tt, sym (append-nil req))
add_all_complete answers req (w ∷ ws) h =
    let now = atomic_add (answers 0) req w.target w.props w.wanted_name w.wanted_value in
    let (known, added) = atomic_add-cases (answers 0) req w (ground (arith, h)) in
    let (knowns, rest) = add_all_complete (λ n. answers (suc n)) now.1 ws (ground (arith, h)) in
    ((known, knowns), rest ∙ rw added (append_assoc req (setting_of w ∷ []) (settings ws)))

add_all-total :
    (answers : ℕ → Bool) (req : List Setting) (ws : List Wanted)
    → All IsKnown ws
    → ((n : ℕ) → answers n ≡ true)
    → (add_all answers req ws).0 ≡ true
unfolding add_all atomic_add
add_all-total answers req [] known memory = refl
add_all-total answers req (w ∷ ws) (known, knowns) memory =
    rw (known, memory 0) (add_all-total (λ n. answers (suc n)) _ ws knowns (λ n. memory (suc n)))

-- What a full modeset is: each object with its properties, the name of one and its value.
abbrev setting : ℕ → List Prop → List ℕ → ℕ → Wanted
setting object props name value = record {
  target = object;
  props = props;
  wanted_name = name;
  wanted_value = value;
}

abbrev pub modeset_settings : Kms → List Wanted
modeset_settings k =
    setting k.connector_id k.conn_props (b'C' ∷ b'R' ∷ b'T' ∷ b'C' ∷ 95 ∷ b'I' ∷ b'D' ∷ [])
      k.crtc_id
    ∷ setting k.crtc_id k.crtc_props (b'M' ∷ b'O' ∷ b'D' ∷ b'E' ∷ 95 ∷ b'I' ∷ b'D' ∷ []) k.mode_blob
    ∷ setting k.crtc_id k.crtc_props (b'A' ∷ b'C' ∷ b'T' ∷ b'I' ∷ b'V' ∷ b'E' ∷ []) 1
    ∷ []

-- The source rectangle is in 16.16 fixed point.
abbrev pub plane_settings : Kms → ℕ → List Wanted
plane_settings k fb_id =
    setting k.plane_id k.plane_props (b'F' ∷ b'B' ∷ 95 ∷ b'I' ∷ b'D' ∷ []) fb_id
    ∷ setting k.plane_id k.plane_props (b'C' ∷ b'R' ∷ b'T' ∷ b'C' ∷ 95 ∷ b'I' ∷ b'D' ∷ []) k.crtc_id
    ∷ setting k.plane_id k.plane_props (b'S' ∷ b'R' ∷ b'C' ∷ 95 ∷ b'X' ∷ []) 0
    ∷ setting k.plane_id k.plane_props (b'S' ∷ b'R' ∷ b'C' ∷ 95 ∷ b'Y' ∷ []) 0
    ∷ setting k.plane_id k.plane_props (b'S' ∷ b'R' ∷ b'C' ∷ 95 ∷ b'W' ∷ [])
        (65536 * k.mode.hdisplay)
    ∷ setting k.plane_id k.plane_props (b'S' ∷ b'R' ∷ b'C' ∷ 95 ∷ b'H' ∷ [])
        (65536 * k.mode.vdisplay)
    ∷ setting k.plane_id k.plane_props (b'C' ∷ b'R' ∷ b'T' ∷ b'C' ∷ 95 ∷ b'X' ∷ []) 0
    ∷ setting k.plane_id k.plane_props (b'C' ∷ b'R' ∷ b'T' ∷ b'C' ∷ 95 ∷ b'Y' ∷ []) 0
    ∷ setting k.plane_id k.plane_props (b'C' ∷ b'R' ∷ b'T' ∷ b'C' ∷ 95 ∷ b'W' ∷ []) k.mode.hdisplay
    ∷ setting k.plane_id k.plane_props (b'C' ∷ b'R' ∷ b'T' ∷ b'C' ∷ 95 ∷ b'H' ∷ []) k.mode.vdisplay
    ∷ []

wanted_plane-settings : (k : Kms) (fb_id : ℕ) → wanted_plane k fb_id ≡ plane_settings k fb_id
wanted_plane-settings k fb_id =
    let w : k.mode.hdisplay * 2 ^ 16 ≡ 65536 * k.mode.hdisplay = omega arith in
    let h : k.mode.vdisplay * 2 ^ 16 ≡ 65536 * k.mode.vdisplay = omega arith in rw (w, h) refl

-- Where `kms_atomic_modeset` and then `kms_atomic_plane` report success for one request, the
-- connector, the CRTC and the plane have each of the thirteen properties, and the request is the
-- old one with their entries behind it, in order: the connector's CRTC, the mode's blob and the
-- activation, and the plane's framebuffer and CRTC, its source rectangle in 16.16 fixed point
-- and its rectangle on the screen, both of the size of the mode.
pub kms_atomic_complete :
    (answers answers' : ℕ → Bool) (req : List Setting) (k : Kms) (fb_id : ℕ)
    → (kms_atomic_modeset answers req k).0 ≡ true
    → (kms_atomic_plane answers' (kms_atomic_modeset answers req k).1 k fb_id).0 ≡ true
    → (All IsKnown (modeset_settings k) × All IsKnown (plane_settings k fb_id))
      × ((kms_atomic_plane answers' (kms_atomic_modeset answers req k).1 k fb_id).1
          ≡ req ++ settings (modeset_settings k) ++ settings (plane_settings k fb_id))
unfolding kms_atomic_plane kms_atomic_modeset
kms_atomic_complete answers answers' req k fb_id ok ok' =
    let (known, added) = add_all_complete answers req (wanted_modeset k) ok in
    let (known', added') = add_all_complete answers' _ (wanted_plane k fb_id) ok' in
    let same = wanted_plane-settings k fb_id in
    (
      (known, known'),
      added'
          ∙ ap (λ r. r ++ settings (wanted_plane k fb_id)) added
          ∙ ap (λ ws. req ++ settings (modeset_settings k) ++ settings ws) same,
    )

-- The series succeeds wherever the objects have the properties and the library has the memory.
kms_atomic_plane-total :
    (answers : ℕ → Bool) (req : List Setting) (k : Kms) (fb_id : ℕ)
    → All IsKnown (wanted_plane k fb_id)
    → ((n : ℕ) → answers n ≡ true)
    → (kms_atomic_plane answers req k fb_id).0 ≡ true
unfolding kms_atomic_plane
kms_atomic_plane-total answers req k fb_id = add_all-total answers req (wanted_plane k fb_id)
