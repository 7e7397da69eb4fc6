-- ===== src/Server/Pages.antt =====
-- The display in the main loop of src/server.c: what each commit may build on.
use crystalline_lattice.Common.{
  ℕ, ◌≡◌, refl, ◌∙◌, Bool, true, false, not, ◌&&◌, ◌||◌, Option, none, some, List, [], ◌∷◌, ◌++◌,
  arith, if◌then◌else◌, ℤ, ap, sym, Bool-cases, Option-cases, inl, inr,
}
use crystalline_lattice.Transport.Dispatch.{Ready}
use crystalline_lattice.Server.{InputEvent, Server, on_input, serve_clients, settle}
use crystalline_lattice.Platform.Mode.{kms_set_mode_wh}
use crystalline_lattice.Server.Display.{
  Screen, Act, set_master, drop_master, blank, draw, present, Moment, hold_master, wake, is_idle,
  rest, render, display_round, hotplug, ModeAnswers, change_mode,
}

-- What the acts so far have come to: whether the server is DRM master, whether the panel is on by a
-- commit that set the mode since then, the page that is shown, and the one that is drawn and not
-- shown yet.
pub record Panel : Type 0 where
  pub holding : Bool
  pub lit : Bool
  pub shown : Bool
  pub drawn : Option Bool

abbrev same : Bool → Bool → Bool
same true q = q
same false q = not q

abbrev is_drawn : Bool → Option Bool → Bool
is_drawn page none = false
is_drawn page (some q) = same page q

-- The panel one act later; `none` where the act is out of place.
unfoldable pub observe : Panel → Act → Option Panel
observe p set_master = if p.holding then none else some (record p { holding = true; lit = false })
observe p drop_master = if p.holding then some (record p { holding = false }) else none
observe p (blank granted req) =
    if p.holding then some (record p { lit = p.lit && not granted }) else none
observe p (draw page) = if same page p.shown then none else some (record p { drawn = some page })
observe p (present page modeset req) =
    if p.holding && is_drawn page p.drawn && (modeset || p.lit)
    then some (record p { lit = true; shown = page; drawn = none })
    else none

unfoldable pub watch : Panel → List Act → Option Panel
watch p [] = some p
watch p (a ∷ as') = elim (observe p a) [ none ↦ none | some q ↦ watch q as' ]

-- The panel before the server is master.
abbrev pub dark : Bool → Panel
dark page = record { holding = false; lit = false; shown = page; drawn = none }

-- The panel is as the variables of the server say.
pub record Agrees (p : Panel) (d : Screen) : Type 0 where
  pub holding : p.holding ≡ d.master
  pub shown : p.shown ≡ d.front
  pub drawn : p.drawn ≡ none
  pub lit : (d.master && not d.need_modeset && not d.blanked && not p.lit) ≡ false

abbrev Continues : Panel → List Act → Screen → Type 0
Continues p acts d = (q : Panel) × (watch p acts ≡ some q) × Agrees q d

watch-append :
    (p q : Panel) (acts more : List Act)
    → watch p acts ≡ some q
    → watch p (acts ++ more) ≡ watch q more
unfolding watch
watch-append p q [] more e =
    ap (λ (o : Option Panel). elim o [ none ↦ none | some r ↦ watch r more ]) e
watch-append p q (a ∷ acts) more e = elim (Option-cases (observe p a)) [
  | inl f ↦ absurd (ground (arith, e, f))
  | inr (r, f) ↦ rw (f, watch) (watch-append r q acts more (rw (f, watch) at e))
]

hold_master-Continues :
    (p : Panel) (active : Bool) (s : Server) (d : Screen)
    → Agrees p d
    → let (s', d', acts) = hold_master active s d in Continues p acts d'
unfolding hold_master watch observe
hold_master-Continues p active s d h = elim (Bool-cases (active && not d.master)) [
  | inl e ↦ rw e (
    record p { holding = true; lit = false },
    ground (arith, e, h.holding),
    record { holding = refl; shown = h.shown; drawn = h.drawn; lit = ground arith },
  )
  | inr e ↦ elim (Bool-cases (not active && d.master)) [
    | inl f ↦
        rw (e, f)
          (
            record p { holding = false },
            ground (arith, f, h.holding),
            record { holding = refl; shown = h.shown; drawn = h.drawn; lit = refl },
          )
    | inr f ↦ rw (e, f) (p, refl, h)
  ]
]

wake-Agrees :
    (p : Panel) (now : ℤ) (s : Server) (d : Screen) → Agrees p d → Agrees p (wake now s d).1
unfolding wake
wake-Agrees p now s d h = ground (arith, h.lit)

rest-Continues :
    (p : Panel) (idle_ms : ℤ) (m : Moment) (d : Screen)
    → Agrees p d
    → let (d', acts) = rest idle_ms m d in Continues p acts d'
unfolding rest watch observe is_idle
rest-Continues p idle_ms m d h = elim (Bool-cases (is_idle idle_ms m.now d)) [
  | inl e ↦
      let on : d.master ≡ true = ground (arith, e) in
      rw e (
        record p { lit = p.lit && not m.blank_granted },
        ground (arith, on, h.holding),
        record {
          holding = h.holding;
          shown = h.shown;
          drawn = h.drawn;
          lit = ground (arith, h.lit, e);
        },
      )
  | inr e ↦ rw e (p, refl, h)
]

render-Continues :
    (p : Panel) (added : ℕ → Bool) (s : Server) (d : Screen)
    → Agrees p d
    → let (s', d', acts) = render added s d in Continues p acts d'
unfolding render watch observe
render-Continues p added s d h = elim (Bool-cases (d.master && s.dirty && not d.blanked)) [
  | inl e ↦ rw e (
    record p { lit = true; shown = not d.front; drawn = none },
    ground (arith, e, h.holding, h.shown, h.lit),
    record { holding = h.holding; shown = refl; drawn = refl; lit = ground arith },
  )
  | inr e ↦ rw e (p, refl, h)
]

-- What the main loop does in turn: a round up to `poll`, and what it finds there.
pub data Turn (Double : Type 0) : Type 0 where
  display : Moment → Turn Double
  input : InputEvent Double → Turn Double
  clients : ℕ → List Ready → Turn Double
  wayland_dirty : Turn Double
  resolution : ModeAnswers → ℤ → ℤ → ℤ → Turn Double
  plugged : Turn Double
  settled : Turn Double

module _ {Double : Type 0} (to_int : Double → ℤ) (idle_ms : ℤ) where
  unfoldable pub turn : Turn Double → Server → Screen → Server × Screen × List Act
  turn (display m) s d = display_round idle_ms m s d
  turn (input e) s d = ((on_input to_int e s).0, d, [])
  turn (clients now events) s d = ((serve_clients s now events).0, d, [])
  turn wayland_dirty s d = (record s { dirty = true }, d, [])
  turn (resolution answers w h refresh_mhz) s d =
      let (_, s', d') = change_mode answers w h refresh_mhz s d in (s', d', [])
  turn plugged s d = let (s', d') = hotplug s d in (s', d', [])
  turn settled s d = ((settle s).0, d, [])

  unfoldable pub turns : List (Turn Double) → Server → Screen → Server × Screen × List Act
  turns [] s d = (s, d, [])
  turns (t ∷ ts) s d =
      let (s', d', acts) = turn t s d in
      let (s'', d'', more) = turns ts s' d' in (s'', d'', acts ++ more)

  display_round-Continues :
      (p : Panel) (m : Moment) (s : Server) (d : Screen)
      → Agrees p d
      → let (s', d', acts) = display_round idle_ms m s d in Continues p acts d'
  unfolding display_round
  display_round-Continues p m s d h =
      let (s1, d1, mastered) = hold_master m.active s d in
      let (s2, d2) = wake m.now s1 d1 in
      let (d3, rested) = rest idle_ms m d2 in
      let (_, _, rendered) = render m.added s2 d3 in
      let (p1, e1, h1) = hold_master-Continues p m.active s d h in
      let (p3, e3, h3) = rest-Continues p1 idle_ms m d2 (wake-Agrees p1 m.now s1 d1 h1) in
      let (p4, e4, h4) = render-Continues p3 m.added s2 d3 h3 in
      (
        p4,
        watch-append p p1 mastered (rested ++ rendered) e1
            ∙ watch-append p1 p3 rested rendered e3
            ∙ e4,
        h4,
      )

  turn-Continues :
      (p : Panel) (t : Turn Double) (s : Server) (d : Screen)
      → Agrees p d
      → let (s', d', acts) = turn t s d in Continues p acts d'
  unfolding turn watch hotplug change_mode
  turn-Continues p (display m) s d h = display_round-Continues p m s d h
  turn-Continues p (input e) s d h = (p, refl, h)
  turn-Continues p (clients now events) s d h = (p, refl, h)
  turn-Continues p wayland_dirty s d h = (p, refl, h)
  turn-Continues p (resolution answers w h' r) s d h =
      let found = (kms_set_mode_wh answers.conn answers.blob d.kms w h' r).0 in
      (
        p,
        refl,
        elim (Bool-cases found) [
          | inl e ↦ rw e (record {
            holding = h.holding;
            shown = h.shown;
            drawn = h.drawn;
            lit = ground (arith, h.lit);
          })
          | inr e ↦ rw e h
        ],
      )
  turn-Continues p plugged s d h = (
    p,
    refl,
    record { holding = h.holding; shown = h.shown; drawn = h.drawn; lit = ground arith },
  )
  turn-Continues p settled s d h = (p, refl, h)

  turns-Continues :
      (ts : List (Turn Double)) (p : Panel) (s : Server) (d : Screen)
      → Agrees p d
      → let (s', d', acts) = turns ts s d in Continues p acts d'
  unfolding turns watch
  turns-Continues [] p s d h = (p, refl, h)
  turns-Continues (t ∷ ts) p s d h =
      let (s', d', acts) = turn t s d in
      let (q, e, h') = turn-Continues p t s d h in
      let (r, f, h'') = turns-Continues ts q s' d' h' in
      (r, watch-append p q acts (turns ts s' d').2 e ∙ f, h'')

  -- Whatever the loop finds in any rounds, from a server that is not DRM master yet: it becomes
  -- master and gives that up in turn; it commits only as master; no page is drawn while it is the
  -- one committed last, and each that is committed was drawn for it; and a commit that may not set
  -- the mode comes only after one that may, since the server last became master or blanked the
  -- panel. At the end the server's variables say who is master and which page came last.
  pub watch-turns :
      (ts : List (Turn Double)) (s : Server) (d : Screen)
      → d.master ≡ false
      → let (s', d', acts) = turns ts s d in
        (q : Panel) × (watch (dark d.front) acts ≡ some q)
        × (q.holding ≡ d'.master)
        × (q.shown ≡ d'.front)
  watch-turns ts s d off =
      let (q, e, h) =
        turns-Continues ts (dark d.front) s d
          (record { holding = sym off; shown = refl; drawn = refl; lit = rw off refl }) in
      (q, e, h.holding, h.shown)
