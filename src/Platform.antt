-- ===== src/Platform.antt =====
-- include/platform.h and src/platform.c: the property maps, the requests to the kernel that are built
-- from them, and the framebuffers in memory. What the kernel answers is an argument, and the calls
-- are effects in their order.
pub mod Buffer
pub mod Mode
pub mod Device
pub mod Setup
pub mod Balance
pub mod Search
pub mod Chosen
pub mod Request
pub mod Tests
use crystalline_lattice.Common.{
  ℕ, zero, suc, ◌+◌, ◌*◌, ◌^◌, Bool, true, false, not, ◌&&◌, ◌||◌, Option, none, some, List, [],
  ◌∷◌, ◌++◌, ◌==◌, if◌then◌else◌, ℤ, pos,
}
use crystalline_lattice.Control.{DisplayMode}

-- `struct prop`; a name is its bytes.
pub record Prop : Type 0 where
  pub name : List ℕ
  pub id : ℕ
  pub value : ℕ

-- `strcmp(a, b) == 0`
abbrev pub same_name : List ℕ → List ℕ → Bool
same_name [] [] = true
same_name [] (b ∷ bs) = false
same_name (a ∷ rest) [] = false
same_name (a ∷ rest) (b ∷ bs) = a == b && same_name rest bs

-- The properties of an object, with what `drmModeGetProperty` answers for each; the ones that it
-- does not answer for are left out.
unfoldable pub load_props : List (Option Prop) → List Prop
load_props [] = []
load_props (none ∷ ps) = load_props ps
load_props (some p ∷ ps) = p ∷ load_props ps

-- `prop_map_load`: the properties, if the kernel gives them, and whether there is memory.
unfoldable pub prop_map_load : Option (List (Option Prop)) → Bool → Option (List Prop)
prop_map_load none allocated = none
prop_map_load (some ps) allocated = if allocated then some (load_props ps) else none

unfoldable pub prop_id : List Prop → List ℕ → ℕ
prop_id [] name = 0
prop_id (p ∷ ps) name = if same_name p.name name then p.id else prop_id ps name

unfoldable pub prop_value : List Prop → List ℕ → Option ℕ
prop_value [] name = none
prop_value (p ∷ ps) name = if same_name p.name name then some p.value else prop_value ps name

-- One entry of an atomic request: the object, the property and the value.
pub record Setting : Type 0 where
  pub object : ℕ
  pub property : ℕ
  pub value : ℕ

-- `atomic_add` to the request; `added` is what `drmModeAtomicAddProperty` answers. The first
-- component is whether it succeeds.
unfoldable pub atomic_add : Bool → List Setting → ℕ → List Prop → List ℕ → ℕ → Bool × List Setting
atomic_add added req object m name value =
    let id = prop_id m name in
    if id == 0 || not added
    then (false, req)
    else (true, req ++ record { object = object; property = id; value = value } ∷ [])

-- `struct kms`, less the descriptor.
pub record Kms : Type 0 where
  pub connector_id : ℕ
  pub crtc_id : ℕ
  pub plane_id : ℕ
  pub mode : DisplayMode
  pub mode_blob : ℕ
  pub conn_props : List Prop
  pub crtc_props : List Prop
  pub plane_props : List Prop

-- A call of `atomic_add` in a series: the object, its properties, the name and the value.
pub record Wanted : Type 0 where
  pub target : ℕ
  pub props : List Prop
  pub wanted_name : List ℕ
  pub wanted_value : ℕ

-- `r |= atomic_add(...)` for each call in turn: a failure does not stop the others. `answers` tells
-- of each property that is added whether the kernel library has the memory.
unfoldable pub add_all : (ℕ → Bool) → List Setting → List Wanted → Bool × List Setting
add_all answers req [] = (true, req)
add_all answers req (w ∷ ws) =
    let (ok, req') = atomic_add (answers 0) req w.target w.props w.wanted_name w.wanted_value in
    let (oks, req'') = add_all (λ n. answers (suc n)) req' ws in (ok && oks, req'')

-- "CRTC_ID", "MODE_ID", "ACTIVE", "FB_ID", and "SRC_" and "CRTC_" with "X", "Y", "W" and "H"
abbrev pub name_crtc_id : List ℕ
name_crtc_id = 67 ∷ 82 ∷ 84 ∷ 67 ∷ 95 ∷ 73 ∷ 68 ∷ []

abbrev pub name_mode_id : List ℕ
name_mode_id = 77 ∷ 79 ∷ 68 ∷ 69 ∷ 95 ∷ 73 ∷ 68 ∷ []

abbrev pub name_active : List ℕ
name_active = 65 ∷ 67 ∷ 84 ∷ 73 ∷ 86 ∷ 69 ∷ []

abbrev pub name_fb_id : List ℕ
name_fb_id = 70 ∷ 66 ∷ 95 ∷ 73 ∷ 68 ∷ []

abbrev pub name_src : ℕ → List ℕ
name_src c = 83 ∷ 82 ∷ 67 ∷ 95 ∷ c ∷ []

abbrev pub name_crtc : ℕ → List ℕ
name_crtc c = 67 ∷ 82 ∷ 84 ∷ 67 ∷ 95 ∷ c ∷ []

abbrev pub wanted_modeset : Kms → List Wanted
wanted_modeset k =
    record {
      target = k.connector_id;
      props = k.conn_props;
      wanted_name = name_crtc_id;
      wanted_value = k.crtc_id;
    }
    ∷ record {
      target = k.crtc_id;
      props = k.crtc_props;
      wanted_name = name_mode_id;
      wanted_value = k.mode_blob;
    }
    ∷ record {
      target = k.crtc_id;
      props = k.crtc_props;
      wanted_name = name_active;
      wanted_value = 1;
    }
    ∷ []

unfoldable pub kms_atomic_modeset : (ℕ → Bool) → List Setting → Kms → Bool × List Setting
kms_atomic_modeset answers req k = add_all answers req (wanted_modeset k)

abbrev on_plane : Kms → List ℕ → ℕ → Wanted
on_plane k name value = record {
  target = k.plane_id;
  props = k.plane_props;
  wanted_name = name;
  wanted_value = value;
}

abbrev pub wanted_plane : Kms → ℕ → List Wanted
wanted_plane k fb_id =
    on_plane k name_fb_id fb_id
    ∷ on_plane k name_crtc_id k.crtc_id
    ∷ on_plane k (name_src 88) 0
    ∷ on_plane k (name_src 89) 0
    ∷ on_plane k (name_src 87) (k.mode.hdisplay * 2 ^ 16)
    ∷ on_plane k (name_src 72) (k.mode.vdisplay * 2 ^ 16)
    ∷ on_plane k (name_crtc 88) 0
    ∷ on_plane k (name_crtc 89) 0
    ∷ on_plane k (name_crtc 87) k.mode.hdisplay
    ∷ on_plane k (name_crtc 72) k.mode.vdisplay
    ∷ []

unfoldable pub kms_atomic_plane : (ℕ → Bool) → List Setting → Kms → ℕ → Bool × List Setting
kms_atomic_plane answers req k fb_id = add_all answers req (wanted_plane k fb_id)

-- `struct dumb_fb`; `map` is the address of the mapping, none for NULL and for MAP_FAILED.
pub record DumbFb : Type 0 where
  pub fb_id : ℕ
  pub handle : ℕ
  pub stride : ℕ
  pub size : ℕ
  pub map : Option ℕ
  pub w : ℤ
  pub h : ℤ

-- What the calls make and give back.
pub data Kernel : Type 0 where
  create_dumb destroy_dumb add_fb rm_fb map_memory unmap_memory : ℕ → Kernel
  clear : ℕ → ℕ → Kernel

abbrev pub no_fb : DumbFb
no_fb = record { fb_id = 0; handle = 0; stride = 0; size = 0; map = none; w = pos 0; h = pos 0 }

abbrev when_nonzero : ℕ → Kernel → List Kernel
when_nonzero n e = if n == 0 then [] else e ∷ []

abbrev unmapped : Option ℕ → List Kernel
unmapped none = []
unmapped (some a) = unmap_memory a ∷ []

-- The calls of `dumb_fb_destroy`; then it zeroes the struct.
abbrev pub give_back : DumbFb → List Kernel
give_back fb =
    unmapped fb.map
    ++ (when_nonzero fb.fb_id (rm_fb fb.fb_id) ++ when_nonzero fb.handle (destroy_dumb fb.handle))

unfoldable pub dumb_fb_destroy : DumbFb → DumbFb × List Kernel
dumb_fb_destroy fb = (no_fb, give_back fb)

-- What the kernel answers to `dumb_fb_create`: the handle, the pitch and the size of the buffer, the
-- id of the framebuffer, whether the offset to map is there, and the address of the mapping.
pub record FbAnswers : Type 0 where
  pub created : Option (ℕ × ℕ × ℕ)
  pub added : Option ℕ
  pub offset : Bool
  pub mapped : Option ℕ

-- The error path of `dumb_fb_create`, which is `dumb_fb_destroy`, with the calls before it.
abbrev give_up : List Kernel → DumbFb → Bool × DumbFb × List Kernel
give_up before fb = (false, no_fb, before ++ give_back fb)

abbrev map_fb : Option ℕ → List Kernel → DumbFb → Bool × DumbFb × List Kernel
map_fb none before fb = give_up before fb
map_fb (some a) before fb =
    (true, record fb { map = some a }, before ++ map_memory a ∷ clear a fb.size ∷ [])

abbrev add_fb2 : FbAnswers → List Kernel → DumbFb → Bool × DumbFb × List Kernel
add_fb2 answers before fb = elim answers.added [
  | none ↦ give_up before fb
  | some id ↦
      let fb' = record fb { fb_id = id } in
      let before' = before ++ add_fb id ∷ [] in
      if answers.offset then map_fb answers.mapped before' fb' else give_up before' fb'
]

unfoldable pub dumb_fb_create : FbAnswers → ℤ → ℤ → Bool × DumbFb × List Kernel
dumb_fb_create answers w h = elim answers.created [
  | none ↦ (false, record no_fb { w = w; h = h }, [])
  | some c ↦
      let (handle, pitch, size) = c in
      add_fb2 answers (create_dumb handle ∷ [])
        (record no_fb { handle = handle; stride = pitch; size = size; w = w; h = h })
]
