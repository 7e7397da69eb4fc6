-- ===== src/Server/Start.antt =====
-- The start of `server_run` in src/server.c: the DRM device, which is opened through the seat.
use crystalline_lattice.Common.{
  ℕ, ◌≡◌, refl, sym, ap, ◌∙◌, not, is_some, ◌++◌, inl, inr, true, Option, none, some, List, [], ◌∷◌,
  if◌then◌else◌, Bool-cases, Option-cases,
}
use crystalline_lattice.Platform.Device.{
  Node, drm_set_caps, drm_has_connected, has_display, drm_has_connected-has_display, drm_open,
  first, displaying, usable, or_else, candidate, surplus, listed, drm_open_lem,
}

-- The device that is used, none for a failure, and those that the seat is asked to close. A device
-- is the id that the seat gives it, which is `opened` of the node; a node that `access` does not
-- find is one that is not opened.
abbrev pub Probed : Type 0
Probed = Option ℕ × List ℕ

-- What is done once the loop has ended, with the candidate that was kept.
unfoldable pub settle_for : Option ℕ → Option ℕ → Probed
settle_for none kept = (kept, [])
settle_for (some dev) none = (some dev, [])
settle_for (some dev) (some kept) = (some dev, kept ∷ [])

abbrev closing : ℕ → Probed → Probed
closing dev (r, closed) = (r, dev ∷ closed)

-- The loop over the nodes that are left.
unfoldable pub probe_seat : Option ℕ → List Node → Probed
probe_seat kept [] = settle_for none kept
probe_seat kept (n ∷ ns) =
    let skipped = probe_seat kept ns in
    elim n.opened [
      | none ↦ skipped
      | some dev ↦
          if drm_set_caps n
          then (if drm_has_connected n then settle_for (some dev) kept else elim kept [
            | none ↦ probe_seat (some dev) ns
            | some k ↦ closing dev (probe_seat (some k) ns)
          ])
          else closing dev skipped
    ]

-- With a path, the one node; `seat_close` is left to close a device that lacks the capabilities.
unfoldable pub open_drm : Option Node → List Node → Probed
open_drm none nodes = probe_seat none nodes
open_drm (some n) nodes = elim n.opened [
  | none ↦ (none, [])
  | some dev ↦ if drm_set_caps n then (some dev, []) else (none, [])
]

probe_seat-first :
    (kept : Option ℕ) (ns : List Node)
    → (probe_seat kept ns).0 ≡ or_else (first displaying ns) (or_else kept (first usable ns))
unfolding probe_seat settle_for drm_set_caps
probe_seat-first none [] = refl
probe_seat-first (some k) [] = refl
probe_seat-first none (n ∷ ns) = elim (Option-cases n.opened) [
  | inl e ↦ rw (e, probe_seat) (probe_seat-first none ns)
  | inr (dev, e) ↦ elim (Bool-cases (drm_set_caps n)) [
    | inr lacking ↦ rw (e, lacking, probe_seat) (probe_seat-first none ns)
    | inl able ↦ elim (Bool-cases (has_display n)) [
      | inl shows ↦ rw (e, able, drm_has_connected-has_display n, shows, probe_seat) (refl)
      | inr dark ↦
          rw (e, able, drm_has_connected-has_display n, dark, probe_seat)
            (probe_seat-first (some dev) ns)
    ]
  ]
]
probe_seat-first (some k) (n ∷ ns) = elim (Option-cases n.opened) [
  | inl e ↦ rw (e, probe_seat) (probe_seat-first (some k) ns)
  | inr (dev, e) ↦ elim (Bool-cases (drm_set_caps n)) [
    | inr lacking ↦ rw (e, lacking, probe_seat) (probe_seat-first (some k) ns)
    | inl able ↦ elim (Bool-cases (has_display n)) [
      | inl shows ↦ rw (e, able, drm_has_connected-has_display n, shows, probe_seat) (refl)
      | inr dark ↦
          rw (e, able, drm_has_connected-has_display n, dark, probe_seat)
            (probe_seat-first (some k) ns)
    ]
  ]
]

-- The candidate that is given up for a node with a display is closed last.
last_closed : Option ℕ → List Node → List ℕ
last_closed kept ns =
    if is_some (first displaying ns) then listed (or_else kept (candidate ns)) else []

probe_seat-surplus :
    (kept : Option ℕ) (ns : List Node)
    → (probe_seat kept ns).1 ≡ surplus (not (is_some kept)) ns ++ last_closed kept ns
unfolding probe_seat settle_for drm_set_caps last_closed
probe_seat-surplus none [] = refl
probe_seat-surplus (some k) [] = refl
probe_seat-surplus none (n ∷ ns) = elim (Option-cases n.opened) [
  | inl e ↦ rw (e, probe_seat) (probe_seat-surplus none ns)
  | inr (dev, e) ↦ elim (Bool-cases (drm_set_caps n)) [
    | inr lacking ↦ rw (e, lacking, probe_seat) (ap (◌∷◌ dev) (probe_seat-surplus none ns))
    | inl able ↦ elim (Bool-cases (has_display n)) [
      | inl shows ↦ rw (e, able, drm_has_connected-has_display n, shows, probe_seat) refl
      | inr dark ↦
          rw (e, able, drm_has_connected-has_display n, dark, probe_seat)
            (probe_seat-surplus (some dev) ns)
    ]
  ]
]
probe_seat-surplus (some k) (n ∷ ns) = elim (Option-cases n.opened) [
  | inl e ↦ rw (e, probe_seat) (probe_seat-surplus (some k) ns)
  | inr (dev, e) ↦ elim (Bool-cases (drm_set_caps n)) [
    | inr lacking ↦ rw (e, lacking, probe_seat) (ap (◌∷◌ dev) (probe_seat-surplus (some k) ns))
    | inl able ↦ elim (Bool-cases (has_display n)) [
      | inl shows ↦ rw (e, able, drm_has_connected-has_display n, shows, probe_seat) refl
      | inr dark ↦
          rw (e, able, drm_has_connected-has_display n, dark, probe_seat)
            (ap (◌∷◌ dev) (probe_seat-surplus (some k) ns))
    ]
  ]
]

-- Without a path, the server takes the same node that `drm_open` takes: the first that can be used
-- and has a connected display, or else the first that can be used, and none where none can. It
-- closes what `drm_open` closes, and after that the one device that `drm_open` leaves open: the
-- first that can be used, where one with a display comes after it.
pub open_drm-drm_open :
    (nodes : List Node)
    → let (r, closed) = open_drm none nodes in
      (r ≡ (drm_open none nodes).0)
      × (r ≡ or_else (first displaying nodes) (first usable nodes))
      × (closed
          ≡ (drm_open none nodes).1
            ++ (if is_some (first displaying nodes) then listed (candidate nodes) else []))
      × ((drm_open none nodes).1 ≡ surplus true nodes)
unfolding open_drm last_closed
open_drm-drm_open nodes =
    let same = probe_seat-first none nodes in
    let (taken, others) = drm_open_lem nodes in
    (same ∙ sym taken, same, rw others (probe_seat-surplus none nodes), others)
