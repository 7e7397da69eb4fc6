-- ===== src/Wayland/Session.antt =====
-- src/wayland.c: the requests of the Wayland clients between the calls that the server's other
-- parts make on the shared window stack.
use crystalline_lattice.Common.{
  ℕ, suc, ◌+◌, ◌^◌, ◌<◌, ◌≡◌, refl, ap, ◌∙◌, ◌⊎◌, ◌++◌, inl, inr, true, false, ◌&&◌, Option, none,
  some, List, [], ◌∷◌, arith, ◌==◌, leb, Bool-cases, Option-cases, All, ℤ, length,
}
use mathlib.Core.Option
use mathlib.Core.Option.{Option}
use crystalline_lattice.Window
use crystalline_lattice.Window.{Window, WindowStack, Role, count, win_max, place, new_window}
use crystalline_lattice.Window.Reach.{
  Call, create, destroy, raise, lower, move, set_geometry, focus, focus_cycle, perform, asks_le,
  perform-IsValid,
}
use crystalline_lattice.Window.Invariant
use crystalline_lattice.Window.Effects.{
  by_id-new, by_id-destroy, by_id-raise, by_id-lower, by_id-focus, by_id-focus_cycle, by_id-update,
}
use crystalline_lattice.Wayland
use crystalline_lattice.Wayland.{Frontend, FeSurface, Event}
use crystalline_lattice.Wayland.Requests.{Request, request}
use crystalline_lattice.Wayland.Backing.{Shows, is_mapped, IsBacked}
use crystalline_lattice.Wayland.Live.{addresses, live_after, IsStale}
use crystalline_lattice.Wayland.Sound.{IsSound, IsFreshFor, live_or_IsStale, request-Goes}

-- The window with the id is there after the call, and shows what it showed.
abbrev Stays : WindowStack → WindowStack → ℕ → Window → Type 0
Stays st st' j v =
    (v' : Window) × (Window.by_id st' j ≡ some v') × ((s : FeSurface) → Shows s v → Shows s v')

-- A call destroys no window of a Wayland surface.
abbrev pub Spares : Call → FeSurface → Type 0
Spares (destroy id) s = (is_mapped s && id == s.server_id) ≡ false
Spares _ s = Unit

module _ (st : WindowStack) (valid : Invariant.IsValid st) (j : ℕ) (v : Window)
    (there : Window.by_id st j ≡ some v) where
  same-Stays : (st' : WindowStack) → Window.by_id st' j ≡ Window.by_id st j → Stays st st' j v
  same-Stays st' e = (v, e ∙ there, λ s shows. shows)

  update-Stays :
      (id : ℕ) (f : Window → Window)
      → ((u : Window) → (f u).id ≡ u.id)
      → ((s : FeSurface) (u : Window) → Shows s u → Shows s (f u))
      → Stays st (Window.update st id f) j v
  update-Stays id f keeps shown = elim (Bool-cases (id == j)) [
    | inl e ↦ (f v, rw by_id-update (ground (arith, e, keeps, there)), λ s shows. shown s v shows)
    | inr e ↦ (v, rw by_id-update (ground (arith, e, keeps, there)), λ s shows. shows)
  ]

  create-Stays :
      (role : Role) (x y w h : ℤ) (color : ℕ) (title : Option (List ℕ))
      → Stays st (Window.create st role x y w h color title).1 j v
  create-Stays role x y w h color title = elim (Bool-cases (leb win_max (count st))) [
    | inl full ↦ same-Stays _ (unfold Window.create in rw full refl)
    | inr fits ↦
        let (fresh, look) = by_id-new st valid role x y w h color title j (ground arith) in
        (v, rw look (ground (arith, fresh, there)), λ s shows. shows)
  ]

  perform-Stays :
      (c : Call) (s : FeSurface)
      → Spares c s
      → is_mapped s ≡ true
      → s.server_id ≡ j
      → Stays st (perform c st) j v
  unfolding perform Window.move Window.set_geometry place
  perform-Stays (create role x y w h color title) s spares up e =
      create-Stays role x y w h color title
  perform-Stays (destroy id) s spares up e =
      (v, rw (by_id-destroy st valid id j) (ground (arith, spares, up, e, there)), λ s shows. shows)
  perform-Stays (raise id) s spares up e = same-Stays _ (by_id-raise st valid id j)
  perform-Stays (lower id) s spares up e = same-Stays _ (by_id-lower st valid id j)
  perform-Stays (move id x y) s spares up e = update-Stays id _ (λ _. refl) (λ _ _ shows. shows)
  perform-Stays (set_geometry id x y w h) s spares up e =
      update-Stays id _ (λ _. refl) (λ _ _ shows. shows)
  perform-Stays (focus id) s spares up e = same-Stays _ (by_id-focus st valid id j)
  perform-Stays (focus_cycle dir) s spares up e = same-Stays _ (by_id-focus_cycle st dir j valid)

perform-IsBacked :
    (st : WindowStack) (c : Call) (ss : List FeSurface)
    → Invariant.IsValid st
    → All (Spares c) ss
    → All (IsBacked (Window.by_id st)) ss
    → All (IsBacked (Window.by_id (perform c st))) ss
perform-IsBacked st c [] valid spares backed = tt
perform-IsBacked st c (s ∷ ss) valid (p, spares) (b, backed) = (
  λ up.
      let (content, toplevel, v, there, shows) = b up in
      let (v', there', shown) = perform-Stays st valid s.server_id v there c s p up refl in
      (content, toplevel, v', there', shown s shows),
  perform-IsBacked st c ss valid spares backed,
)

-- A step: a request of a Wayland client, or a call of another part of the server.
pub data Step : Type 0 where
  wayland : Request → Step
  other : Call → Step

unfoldable pub step : Step → Frontend → Option Frontend
step (wayland r) fe = Option.map (λ p. p.0) (request r fe)
step (other c) fe = some (record fe { stack = perform c fe.stack })

unfoldable pub run : List Step → Frontend → Option Frontend
run [] fe = some fe
run (e ∷ es) fe = elim (step e fe) [ none ↦ none | some fe' ↦ run es fe' ]

abbrev pub Allowed : Step → Frontend → Type 0
Allowed (wayland r) fe = IsFreshFor r fe
Allowed (other c) fe = All (Spares c) fe.surfaces

-- Each step is allowed where it is taken.
abbrev pub AllAllowed : List Step → Frontend → Type 0
AllAllowed [] fe = Unit
AllAllowed (e ∷ es) fe =
    Allowed e fe × elim (step e fe) [ none ↦ Unit | some fe' ↦ AllAllowed es fe' ]

-- The structs of surfaces that are live after steps.
abbrev pub live_of : List Step → List ℕ → List ℕ
live_of [] live = live
live_of (wayland r ∷ es) live = live_of es (live_after r live)
live_of (other c ∷ es) live = live_of es live

-- The steps up to one that is handed a freed struct: all went through, and left a sound state.
pub record Stumbles (es : List Step) (fe : Frontend) : Type 0 where
  pub before : List Step
  pub request_there : Request
  pub behind : List Step
  pub split : es ≡ before ++ wayland request_there ∷ behind
  pub reached : Frontend
  pub runs : run before fe ≡ some reached
  pub sound : IsSound 0 reached
  pub stale : IsStale request_there (live_of before (addresses fe.surfaces))

step-IsSound :
    (room : ℕ) (e : Step) (fe : Frontend)
    → IsSound (suc room) fe
    → Allowed e fe
    → ((fe' : Frontend) × (step e fe ≡ some fe')
        × IsSound room fe'
        × (addresses fe'.surfaces ≡ live_of (e ∷ []) (addresses fe.surfaces)))
      ⊎ ((r : Request) × (e ≡ wayland r) × IsStale r (addresses fe.surfaces))
unfolding step
step-IsSound room (wayland r) fe sound ok = elim (live_or_IsStale r fe ok) [
  | inr stale ↦ inr (r, refl, stale)
  | inl live ↦
      let goes = request-Goes room fe sound r live in
      elim (Option-cases (request r fe)) [
        | inl none_there ↦ absurd (rw none_there at goes)
        | inr (p, e) ↦ let (sound', live') = rw e at goes in inl (p.0, rw e refl, sound', live')
      ]
]
step-IsSound room (other c) fe sound ok =
    let (valid, roomy) =
      perform-IsValid c room fe.stack sound.valid (omega (arith, sound.roomy, asks_le c)) in
    inl (
      record fe { stack = perform c fe.stack },
      refl,
      record {
        valid = valid;
        roomy = roomy;
        backed = perform-IsBacked fe.stack c fe.surfaces sound.valid ok sound.backed;
        apart = sound.apart;
      },
      refl,
    )

live_of-cons :
    (e : Step) (es : List Step) (live : List ℕ)
    → live_of es (live_of (e ∷ []) live) ≡ live_of (e ∷ es) live
live_of-cons (wayland r) es live = refl
live_of-cons (other c) es live = refl

IsSound-weaken : (n : ℕ) (fe : Frontend) → IsSound n fe → IsSound 0 fe
IsSound-weaken n fe sound = record {
  valid = sound.valid;
  roomy = omega (arith, sound.roomy);
  backed = sound.backed;
  apart = sound.apart;
}

-- The steps all go through, or one is handed a freed struct.
abbrev pub Ends : List Step → Frontend → Type 0
Ends es fe =
    ((fe' : Frontend) × (run es fe ≡ some fe')
      × IsSound 0 fe'
      × (addresses fe'.surfaces ≡ live_of es (addresses fe.surfaces)))
    ⊎ Stumbles es fe

run-IsSound :
    (es : List Step) (fe : Frontend) → IsSound (length es) fe → AllAllowed es fe → Ends es fe
unfolding run
run-IsSound [] fe sound ok = inl (fe, refl, sound, refl)
run-IsSound (e ∷ es) fe sound (ok, oks) = elim (step-IsSound (length es) e fe sound ok) [
  | inr (r, same, stale) ↦ inr (record {
    before = [];
    request_there = r;
    behind = es;
    split = ap (λ (d : Step). d ∷ es) same;
    reached = fe;
    runs = refl;
    sound = IsSound-weaken (suc (length es)) fe sound;
    stale = stale;
  })
  | inl (fe', e', sound', live') ↦ elim (run-IsSound es fe' sound' (rw (e', AllAllowed) at oks)) [
    | inl (last, done, good, left) ↦
        inl (last, rw (e', run) done, good, left ∙ ap (live_of es) live' ∙ live_of-cons e es _)
    | inr s ↦ inr (record {
      before = e ∷ s.before;
      request_there = s.request_there;
      behind = s.behind;
      split = ap (◌∷◌ e) s.split;
      reached = s.reached;
      runs = rw (e', run) s.runs;
      sound = s.sound;
      stale = rw (live_of-cons e s.before _) at (rw live' at s.stale);
    })
  ]
]

-- Once the frontend is created over a well-formed stack, and whatever the Wayland clients ask for
-- and whatever calls the rest of the server makes on the window stack in between, the steps end in
-- one of two ways. Either all are taken, and then: the stack is well formed; each surface that has
-- a window has content and the toplevel role, and its window is there, has the role NORMAL and
-- shows the surface's own content with its size; no two surfaces share a window; and the structs in
-- the frontend's list are those that were made for a surface and whose surface's own resource has not
-- ended. Or all but the last holds up to a request or a destructor that is handed a struct whose
-- surface's resource has ended before, or that was never made. The allocator gives unused memory, no other part
-- destroys a surface's window, and the window ids do not wrap.
pub run-create-IsSound :
    (es : List Step) (st : WindowStack) (sw sh : ℤ) (keymap_size : Option ℕ)
    → Invariant.IsValid st
    → st.next_id + length es < 2 ^ 32
    → AllAllowed es (Wayland.create st sw sh keymap_size)
    → Ends es (Wayland.create st sw sh keymap_size)
unfolding Wayland.create
run-create-IsSound es st sw sh keymap_size valid room ok =
    run-IsSound es (Wayland.create st sw sh keymap_size)
      (record { valid = valid; roomy = room; backed = tt; apart = tt }) ok
