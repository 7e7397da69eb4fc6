-- ===== src/Platform/Device.antt =====
-- src/platform.c: the choice of the device node.
use crystalline_lattice.Common.{
  ℕ, ◌≡◌, inl, inr, refl, ap, not, Bool, true, false, ◌&&◌, Option, none, some, List, [], ◌∷◌,
  if◌then◌else◌, is_some, Bool-cases, Option-cases,
}

-- A node as `drm_open` finds it: the descriptor of `open`, none where that fails, what the kernel
-- answers to the two capabilities, and the states of the connectors, none where the kernel gives
-- no resources or no connector.
pub record Node : Type 0 where
  pub opened : Option ℕ
  pub atomic : Bool
  pub universal_planes : Bool
  pub connectors : Option (List (Option Bool))

-- `drm_set_caps`
unfoldable pub drm_set_caps : Node → Bool
drm_set_caps n = n.atomic && n.universal_planes

-- The loop of `drm_has_connected`: whether each connector that is there is connected.
abbrev pub any_connected : List (Option Bool) → Bool
any_connected [] = false
any_connected (none ∷ cs) = any_connected cs
any_connected (some c ∷ cs) = if c then true else any_connected cs

unfoldable pub drm_has_connected : Node → Bool
drm_has_connected n = elim n.connectors [ none ↦ false | some cs ↦ any_connected cs ]

-- The descriptor that is returned, none for -1, and the ones that are closed.
abbrev pub Opened : Type 0
Opened = Option ℕ × List ℕ

abbrev after_close : ℕ → Opened → Opened
after_close fd (r, closed) = (r, fd ∷ closed)

-- The loop of `drm_open` over the nodes that are left.
unfoldable pub probe : Option ℕ → List Node → Opened
probe fallback [] = (fallback, [])
probe fallback (n ∷ ns) = elim n.opened [
  | none ↦ probe fallback ns
  | some fd ↦
      if drm_set_caps n
      then (if drm_has_connected n then (some fd, []) else elim fallback [
        | none ↦ probe (some fd) ns
        | some kept ↦ after_close fd (probe (some kept) ns)
      ])
      else after_close fd (probe fallback ns)
]

-- `drm_open`: the node that was asked for, or the 16 nodes of the directory.
unfoldable pub drm_open : Option Node → List Node → Opened
drm_open none nodes = probe none nodes
drm_open (some n) nodes = elim n.opened [
  | none ↦ (none, [])
  | some fd ↦ if drm_set_caps n then (some fd, []) else (none, fd ∷ [])
]

-- A node that can be used, and one that has a display, too.
abbrev pub usable : Node → Bool
usable n = is_some n.opened && (n.atomic && n.universal_planes)

abbrev pub is_lit : List (Option Bool) → Bool
is_lit [] = false
is_lit (some true ∷ cs) = true
is_lit (some false ∷ cs) = is_lit cs
is_lit (none ∷ cs) = is_lit cs

abbrev pub has_display : Node → Bool
has_display n = elim n.connectors [ none ↦ false | some cs ↦ is_lit cs ]

abbrev pub displaying : Node → Bool
displaying n = usable n && has_display n

any_connected-is_lit : (cs : List (Option Bool)) → any_connected cs ≡ is_lit cs
any_connected-is_lit [] = refl
any_connected-is_lit (some true ∷ cs) = refl
any_connected-is_lit (some false ∷ cs) = any_connected-is_lit cs
any_connected-is_lit (none ∷ cs) = any_connected-is_lit cs

pub drm_has_connected-has_display : (n : Node) → drm_has_connected n ≡ has_display n
unfolding drm_has_connected
drm_has_connected-has_display n = elim (Option-cases n.connectors) [
  | inl e ↦ rw (e, drm_has_connected, has_display)
  | inr (cs, e) ↦ rw (e, drm_has_connected, has_display) (any_connected-is_lit cs)
]

-- The descriptor of the first node with the property.
abbrev pub first : (Node → Bool) → List Node → Option ℕ
first p [] = none
first p (n ∷ ns) = if p n then n.opened else first p ns

-- The first one, or else the second.
abbrev pub or_else : Option ℕ → Option ℕ → Option ℕ
or_else none b = b
or_else (some a) b = some a

probe-first :
    (fallback : Option ℕ) (ns : List Node)
    → (probe fallback ns).0 ≡ or_else (first displaying ns) (or_else fallback (first usable ns))
unfolding probe drm_set_caps
probe-first none [] = refl
probe-first (some k) [] = refl
probe-first none (n ∷ ns) = elim (Option-cases n.opened) [
  | inl e ↦ rw (e, probe) (probe-first none ns)
  | inr (fd, e) ↦ elim (Bool-cases (drm_set_caps n)) [
    | inr lacking ↦ rw (e, lacking, probe) (probe-first none ns)
    | inl able ↦ elim (Bool-cases (has_display n)) [
      | inl shows ↦ rw (e, able, drm_has_connected-has_display n, shows, probe) refl
      | inr dark ↦
          rw (e, able, drm_has_connected-has_display n, dark, probe) (probe-first (some fd) ns)
    ]
  ]
]
probe-first (some k) (n ∷ ns) = elim (Option-cases n.opened) [
  | inl e ↦ rw (e, probe) (probe-first (some k) ns)
  | inr (fd, e) ↦ elim (Bool-cases (drm_set_caps n)) [
    | inr lacking ↦ rw (e, lacking, probe) (probe-first (some k) ns)
    | inl able ↦ elim (Bool-cases (has_display n)) [
      | inl shows ↦ rw (e, able, drm_has_connected-has_display n, shows, probe) refl
      | inr dark ↦
          rw (e, able, drm_has_connected-has_display n, dark, probe) (probe-first (some k) ns)
    ]
  ]
]

-- The first node that can be used, where it comes before the one with a display.
abbrev pub candidate : List Node → Option ℕ
candidate [] = none
candidate (n ∷ ns) = if displaying n then none else (if usable n then n.opened else candidate ns)

-- The descriptors that are opened before that of the node with a display, in order, less, where
-- `skip` says so, that of the first node that can be used.
abbrev pub surplus : Bool → List Node → List ℕ
surplus skip [] = []
surplus skip (n ∷ ns) =
    let here = surplus skip ns in
    let later = surplus false ns in
    if displaying n then [] else elim n.opened [
      | none ↦ here
      | some fd ↦ if skip && n.atomic && n.universal_planes then later else fd ∷ here
    ]

abbrev pub listed : Option ℕ → List ℕ
listed none = []
listed (some fd) = fd ∷ []

probe-surplus :
    (fallback : Option ℕ) (ns : List Node)
    → (probe fallback ns).1 ≡ surplus (not (is_some fallback)) ns
unfolding probe drm_set_caps
probe-surplus none [] = refl
probe-surplus (some k) [] = refl
probe-surplus none (n ∷ ns) = elim (Option-cases n.opened) [
  | inl e ↦ rw (e, probe) (probe-surplus none ns)
  | inr (fd, e) ↦ elim (Bool-cases (drm_set_caps n)) [
    | inr lacking ↦ rw (e, lacking, probe) (ap (◌∷◌ fd) (probe-surplus none ns))
    | inl able ↦ elim (Bool-cases (has_display n)) [
      | inl shows ↦ rw (e, able, drm_has_connected-has_display n, shows, probe) refl
      | inr dark ↦
          rw (e, able, drm_has_connected-has_display n, dark, probe) (probe-surplus (some fd) ns)
    ]
  ]
]
probe-surplus (some k) (n ∷ ns) = elim (Option-cases n.opened) [
  | inl e ↦ rw (e, probe) (probe-surplus (some k) ns)
  | inr (fd, e) ↦ elim (Bool-cases (drm_set_caps n)) [
    | inr lacking ↦ rw (e, lacking, probe) (ap (◌∷◌ fd) (probe-surplus (some k) ns))
    | inl able ↦ elim (Bool-cases (has_display n)) [
      | inl shows ↦ rw (e, able, drm_has_connected-has_display n, shows, probe) refl
      | inr dark ↦
          rw (e, able, drm_has_connected-has_display n, dark, probe)
            (ap (◌∷◌ fd) (probe-surplus (some k) ns))
    ]
  ]
]

-- Without a path, `drm_open` returns the first node that can be used and has a connected display,
-- or else the first that can be used, and fails where none can. It closes, in order, every
-- descriptor that it opened before the one of the node with a display, or at all where there is
-- none, but for that of the first node that can be used: where a node with a display comes after
-- it, the descriptor of the first node that can be used is left open.
pub drm_open_lem :
    (nodes : List Node)
    → let (r, closed) = drm_open none nodes in
      (r ≡ or_else (first displaying nodes) (first usable nodes)) × (closed ≡ surplus true nodes)
unfolding drm_open
drm_open_lem nodes = (probe-first none nodes, probe-surplus none nodes)
