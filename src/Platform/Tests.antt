-- ===== src/Platform/Tests.antt =====
-- The display platform on concrete nodes, modes and answers of the kernel.
use crystalline_lattice.Common.{
  ℕ, ◌≡◌, ◌⊎◌, refl, true, false, Bool, none, some, List, [], ◌∷◌, pos, All,
}
use crystalline_lattice.Control.{DisplayMode}
use crystalline_lattice.Platform.{
  Prop, Setting, Kms, FbAnswers, prop_id, atomic_add, add_all, kms_atomic_plane, kms_atomic_modeset,
  name_crtc_id, name_mode_id, name_active, name_fb_id, name_src, name_crtc,
}
use crystalline_lattice.Platform.Buffer.{IsManaged, dumb_fb_create_lem}
use crystalline_lattice.Platform.Mode.{kms_set_mode_wh, Fails, Switches, kms_set_mode_wh_lem}
use crystalline_lattice.Platform.Device.{Node, drm_open, drm_open_lem}
use crystalline_lattice.Platform.Setup.{DrmAnswers, kms_setup, name_type}
use crystalline_lattice.Platform.Balance.{account, nothing_held, left, account-kms_setup}
use crystalline_lattice.Platform.Request.{
  IsKnown, modeset_settings, plane_settings, kms_atomic_complete,
}

-- The kernel maps nothing: the buffer and the framebuffer are given back.
abbrev answers : FbAnswers
answers = record { created = some (5, 2560, 4096); added = some 7; offset = true; mapped = none }

dumb_fb_create_lem_example : IsManaged answers (pos 640) (pos 480)
dumb_fb_create_lem_example = dumb_fb_create_lem answers (pos 640) (pos 480) (refl, refl)

abbrev mode : ℕ → Bool → DisplayMode
mode rate interlaced = record {
  clock = 0;
  hdisplay = 640;
  htotal = 0;
  vdisplay = 480;
  vtotal = 0;
  vrefresh = rate;
  interlaced = interlaced;
  preferred = false;
}

abbrev prop : ℕ → List ℕ → Prop
prop id name = record { name = name; id = id; value = 0 }

abbrev kms : Kms
kms = record {
  connector_id = 1;
  crtc_id = 2;
  plane_id = 3;
  mode = mode 60 false;
  mode_blob = 4;
  conn_props = prop 10 name_crtc_id ∷ [];
  crtc_props = prop 11 name_active ∷ prop 12 name_mode_id ∷ [];
  plane_props =
      prop 20 name_fb_id
      ∷ prop 21 name_crtc_id
      ∷ prop 22 (name_src 88)
      ∷ prop 23 (name_src 89)
      ∷ prop 24 (name_src 87)
      ∷ prop 25 (name_src 72)
      ∷ prop 26 (name_crtc 88)
      ∷ prop 27 (name_crtc 89)
      ∷ prop 28 (name_crtc 87)
      ∷ prop 29 (name_crtc 72)
      ∷ [];
}

abbrev modes : List DisplayMode
modes = mode 50 true ∷ mode 75 false ∷ mode 60 false ∷ mode 59 false ∷ []

kms_set_mode_wh_lem_example :
    let (ok, k', destroyed) =
      kms_set_mode_wh (some modes) (some 9) kms (pos 640) (pos 480) (pos 50000) in
    ((ok ≡ false) × (k' ≡ kms) × (destroyed ≡ []) × Fails (pos 640) (pos 480) (some modes) (some 9))
    ⊎ ((ok ≡ true)
        × Switches (pos 640) (pos 480) (pos 50000) (some modes) (some 9) kms k' destroyed)
kms_set_mode_wh_lem_example =
    kms_set_mode_wh_lem (some modes) (some 9) kms (pos 640) (pos 480) (pos 50000)

abbrev set_to : ℕ → ℕ → ℕ → Setting
set_to object property value = record { object = object; property = property; value = value }

kms_atomic_complete_example :
    (All IsKnown (modeset_settings kms) × All IsKnown (plane_settings kms 30))
    × ((kms_atomic_plane (λ _. true) (kms_atomic_modeset (λ _. true) [] kms).1 kms 30).1
        ≡ set_to 1 10 2
          ∷ set_to 2 12 4
          ∷ set_to 2 11 1
          ∷ set_to 3 20 30
          ∷ set_to 3 21 2
          ∷ set_to 3 22 0
          ∷ set_to 3 23 0
          ∷ set_to 3 24 41943040
          ∷ set_to 3 25 31457280
          ∷ set_to 3 26 0
          ∷ set_to 3 27 0
          ∷ set_to 3 28 640
          ∷ set_to 3 29 480
          ∷ [])
unfolding kms_atomic_plane kms_atomic_modeset add_all atomic_add prop_id
kms_atomic_complete_example = kms_atomic_complete (λ _. true) (λ _. true) [] kms 30 refl refl

abbrev node : ℕ → Bool → Node
node fd connected = record {
  opened = some fd;
  atomic = true;
  universal_planes = true;
  connectors = some (none ∷ some connected ∷ []);
}

abbrev nodes : List Node
nodes = node 3 false ∷ node 4 false ∷ node 5 true ∷ []

drm_open_lem_example : let (r, closed) = drm_open none nodes in (r ≡ some 5) × (closed ≡ 4 ∷ [])
drm_open_lem_example = drm_open_lem nodes

-- The first connector is dark; the second has two modes, of which the second is preferred. Its
-- encoder is not in use, and drives the second CRTC, which the second plane can show.
abbrev drm : DrmAnswers
drm = record {
  found = some (
    some (record {
      connector_id = 30;
      connected = false;
      modes = [];
      encoder_id = 0;
      encoders = [];
    })
        ∷ some (record {
          connector_id = 31;
          connected = true;
          modes = mode 60 false ∷ record (mode 75 false) { preferred = true } ∷ [];
          encoder_id = 0;
          encoders = 40 ∷ [];
        })
        ∷ [],
    50 ∷ 51 ∷ [],
  );
  encoder_of = λ id. some (record { encoder_crtc = 0; encoder_crtcs = 2 });
  planes = some (
      some (record { plane_id = 60; plane_crtcs = 1; props = none })
      ∷ some (record {
        plane_id = 61;
        plane_crtcs = 2;
        props = some (record { name = name_type; id = 9; value = 1 } ∷ []);
      })
      ∷ []);
  conn_map = some [];
  crtc_map = some [];
  plane_map = some [];
  blob_made = some 70;
  wild_bit = λ _. false;
}

abbrev chosen : Kms
chosen = record {
  connector_id = 31;
  crtc_id = 51;
  plane_id = 61;
  mode = record (mode 75 false) { preferred = true };
  mode_blob = 70;
  conn_props = [];
  crtc_props = [];
  plane_props = [];
}

-- Without memory for the blob all is given back.
account-kms_setup_example :
    let (r, allocs) = kms_setup 1 (record drm { blob_made = none }) kms in
    account nothing_held allocs ≡ some (left 1 r)
account-kms_setup_example = account-kms_setup 1 (record drm { blob_made = none }) kms
