-- ===== src/Server/Tests.antt =====
-- The theorems on src/server.c, at concrete sessions.
use crystalline_lattice.Common.{
  ℕ, ◌≡◌, refl, ◌⊎◌, Bool, true, false, none, some, List, [], ◌∷◌, ◌++◌, ℤ, pos, if◌then◌else◌,
}
use crystalline_lattice.Window
use crystalline_lattice.Wm.{Wm, btn_left}
use crystalline_lattice.Protocol.{words_bytes, cl_magic}
use crystalline_lattice.Transport.Session.{create}
use crystalline_lattice.Transport.Dispatch.{datagram, would_block, accepting, readable}
use crystalline_lattice.Server.{Server, input_motion_abs, input_button, input_key}
use crystalline_lattice.Server.Session.{Step, input, clients, mode, round_end}
use crystalline_lattice.Control.{DisplayMode}
use crystalline_lattice.Platform.{Kms, DumbFb, no_fb}
use crystalline_lattice.Platform.Mode.{kms_set_mode_wh}
use crystalline_lattice.Server.Display.{
  Screen, Moment, draw, present, display_round, ModeAnswers, change_mode,
}
use crystalline_lattice.Server.Pages.{Panel, Turn, turns, watch, dark, watch-turns}
use crystalline_lattice.Server.Idle.{full_request, display_round-blanked}
use crystalline_lattice.Platform.Device.{Node, drm_open}
use crystalline_lattice.Server.Start.{open_drm, open_drm-drm_open}
use crystalline_lattice.Server.Resolution.{IsReady, change_mode_lem}

abbrev memory : Wm
memory = record {
  stack = Window.init;
  screen_w = pos 0;
  screen_h = pos 0;
  cursor_x = pos 0;
  cursor_y = pos 0;
  moving = false;
  move_id = 0;
  grab_dx = pos 0;
  grab_dy = pos 0;
  reconfigured_id = 77;
}

abbrev server : Server
server = record {
  wm = memory;
  wayland = true;
  xport = some (create Window.init (pos 800) (pos 600));
  dirty = true;
  activity = false;
  running = true;
  ctrl_held = false;
  alt_held = false;
}

-- A press, a client that says HELLO, a smaller screen, and Alt-Tab.
abbrev session : List (Step ℤ)
session =
    input (input_motion_abs (pos 300) (pos 210))
    ∷ input (input_button btn_left true)
    ∷ clients 5 (accepting ((9, true) ∷ []) ∷ [])
    ∷ clients 6 (
        readable 9 (
          datagram (words_bytes (1 ∷ cl_magic ∷ 2 ∷ 1 ∷ 0 ∷ [])) []
            (record { buffer = none; pixels = none })
          ∷ would_block
          ∷ [])
        ∷ [])
    ∷ mode true (pos 200) (pos 150) true
    ∷ round_end
    ∷ input (input_key 0xff09 15 true true)
    ∷ []

abbrev mode_640 : DisplayMode
mode_640 = record {
  clock = 0;
  hdisplay = 640;
  htotal = 0;
  vdisplay = 480;
  vtotal = 0;
  vrefresh = 60;
  interlaced = false;
  preferred = true;
}

abbrev kms : Kms
kms = record {
  connector_id = 1;
  crtc_id = 2;
  plane_id = 3;
  mode = mode_640;
  mode_blob = 4;
  conn_props = [];
  crtc_props = [];
  plane_props = [];
}

abbrev page_fb : ℕ → DumbFb
page_fb id = record no_fb { fb_id = id; handle = id; map = some id }

abbrev screen : Screen
screen = record {
  kms = kms;
  fb = λ page. if page then page_fb 8 else page_fb 7;
  master = false;
  need_modeset = false;
  blanked = false;
  front = false;
  last_activity = pos 0;
}

abbrev moment : ℤ → Moment
moment now = record {
  active = true;
  now = now;
  added_active = true;
  blank_granted = true;
  added = λ _. true;
}

-- There is no memory for the second page.
abbrev mode_answers : ModeAnswers
mode_answers = record {
  conn = some (mode_640 ∷ []);
  blob = some 9;
  pages = λ page. record {
    created = if page then none else some (5, 2560, 4096);
    added = some 7;
    offset = true;
    mapped = some 4096;
  };
}

-- The first frame, an idle time, a key, and a mode for which there is no memory.
abbrev evening : List (Turn ℤ)
evening =
    Turn.display (moment (pos 5))
    ∷ Turn.settled
    ∷ Turn.display (moment (pos 500))
    ∷ Turn.input (input_key 97 30 true false)
    ∷ Turn.display (moment (pos 600))
    ∷ Turn.resolution mode_answers (pos 640) (pos 480) (pos 0)
    ∷ Turn.plugged
    ∷ Turn.display (moment (pos 700))
    ∷ []

watch-turns_example :
    let (s', d', acts) = turns (λ (n : ℤ). n) (pos 100) evening server screen in
    (q : Panel) × (watch (dark false) acts ≡ some q)
    × (q.holding ≡ d'.master)
    × (q.shown ≡ d'.front)
watch-turns_example = watch-turns (λ (n : ℤ). n) (pos 100) evening server screen refl

abbrev asleep : Screen
asleep = record screen { master = true; blanked = true; front = true }

abbrev touched : Server
touched = record server { activity = true }

display_round-blanked_example : display_round (pos 100) (moment (pos 900)) touched asleep ≡ (
  record touched { activity = false; dirty = false },
  record asleep { blanked = false; front = false; need_modeset = false; last_activity = pos 900 },
  draw false ∷ present false true (full_request (λ _. true) asleep false) ∷ [],
)
display_round-blanked_example =
    display_round-blanked (pos 100) (moment (pos 900)) touched asleep refl refl

change_mode_lem_example :
    let (ok, s', d') = change_mode mode_answers (pos 640) (pos 480) (pos 0) server screen in
    let (found, k, _) =
      kms_set_mode_wh (some (mode_640 ∷ [])) (some 9) kms (pos 640) (pos 480) (pos 0) in
    let nw = pos k.mode.hdisplay in
    let nh = pos k.mode.vdisplay in
    ((found ≡ false) × (ok ≡ false) × (s' ≡ server) × (d' ≡ screen))
    ⊎ ((found ≡ true)
        × (ok ≡ true)
        × (d'.kms ≡ k)
        × ((page : Bool) → IsReady nw nh (d'.fb page))
        × (d'.need_modeset ≡ true)
        × (s'.dirty ≡ true)
        × (s'.wm.screen_w ≡ nw)
        × (s'.wm.screen_h ≡ nh))
    ⊎ ((found ≡ true)
        × (ok ≡ false)
        × (s' ≡ server)
        × (d'.kms ≡ k)
        × (d'.need_modeset ≡ false)
        × (page : Bool) × ((d'.fb page).map ≡ none))
change_mode_lem_example = change_mode_lem mode_answers (pos 640) (pos 480) (pos 0) server screen

-- A node without a display, one without the capabilities, and one with a display.
abbrev nodes : List Node
nodes =
    record { opened = some 5; atomic = true; universal_planes = true; connectors = some [] }
    ∷ record { opened = some 6; atomic = false; universal_planes = true; connectors = none }
    ∷ record {
      opened = some 7;
      atomic = true;
      universal_planes = true;
      connectors = some (none ∷ some true ∷ []);
    }
    ∷ []

open_drm-drm_open_example :
    let (r, closed) = open_drm none nodes in
    (r ≡ (drm_open none nodes).0)
    × (r ≡ some 7)
    × (closed ≡ (drm_open none nodes).1 ++ 5 ∷ [])
    × ((drm_open none nodes).1 ≡ 6 ∷ [])
open_drm-drm_open_example = open_drm-drm_open nodes
