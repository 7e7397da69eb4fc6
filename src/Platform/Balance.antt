-- ===== src/Platform/Balance.antt =====
-- `kms_setup` of src/platform.c: what it takes from libdrm it gives back once, or keeps for the caller.
use crystalline_lattice.Common.{
  ℕ, zero, suc, ◌≡◌, refl, ◌∙◌, ap, Bool, Option, none, some, List, [], ◌∷◌, ◌++◌, ◌==◌, Bool-cases,
  Option-cases, inl, inr,
}
use crystalline_lattice.Platform.{Kms}
use crystalline_lattice.Platform.Setup.{
  Connector, Encoder, Plane, Resource, resources, connector, encoder, plane_resources, plane,
  props_of, blob, Alloc, take, give, DrmAnswers, pick_connector, current_crtc, find_crtc,
  first_crtc, find_plane, load_all, setup_plane, setup_crtc, kms_setup, crtc_index_of, has_bit,
  is_usable,
}

-- How many of each resource are held.
pub record Held : Type 0 where
  pub resource_lists : ℕ
  pub connectors : ℕ
  pub encoders : ℕ
  pub plane_lists : ℕ
  pub planes : ℕ
  pub maps : ℕ
  pub blobs : ℕ

abbrev pub nothing_held : Held
nothing_held = record {
  resource_lists = 0;
  connectors = 0;
  encoders = 0;
  plane_lists = 0;
  planes = 0;
  maps = 0;
  blobs = 0;
}

-- The three maps and the blob that `struct kms` owns.
abbrev pub kms_held : Held
kms_held = record nothing_held { maps = 3; blobs = 1 }

abbrev more : Held → Resource → Held
more h resources = record h { resource_lists = suc h.resource_lists }
more h connector = record h { connectors = suc h.connectors }
more h encoder = record h { encoders = suc h.encoders }
more h plane_resources = record h { plane_lists = suc h.plane_lists }
more h plane = record h { planes = suc h.planes }
more h props_of = record h { maps = suc h.maps }
more h blob = record h { blobs = suc h.blobs }

abbrev one_less : ℕ → (ℕ → Held) → Option Held
one_less zero f = none
one_less (suc n) f = some (f n)

-- `none` where nothing is held that could be given.
abbrev less : Held → Resource → Option Held
less h resources = one_less h.resource_lists (λ n. record h { resource_lists = n })
less h connector = one_less h.connectors (λ n. record h { connectors = n })
less h encoder = one_less h.encoders (λ n. record h { encoders = n })
less h plane_resources = one_less h.plane_lists (λ n. record h { plane_lists = n })
less h plane = one_less h.planes (λ n. record h { planes = n })
less h props_of = one_less h.maps (λ n. record h { maps = n })
less h blob = one_less h.blobs (λ n. record h { blobs = n })

unfoldable pub account : Held → List Alloc → Option Held
account h [] = some h
account h (take r ∷ rest) = account (more h r) rest
account h (give r ∷ rest) = elim (less h r) [ none ↦ none | some h' ↦ account h' rest ]

account-append :
    (xs ys : List Alloc) (h h' : Held)
    → account h xs ≡ some h'
    → account h (xs ++ ys) ≡ account h' ys
unfolding account
account-append [] ys h h' e =
    ap (λ (o : Option Held). elim o [ none ↦ none | some g ↦ account g ys ]) e
account-append (take r ∷ xs) ys h h' e = account-append xs ys (more h r) h' e
account-append (give r ∷ xs) ys h h' e = elim (Option-cases (less h r)) [
  | inl f ↦ let stuck : ◌≡◌ {A = Option Held} none (some h') = rw (f, account) at e in absurd (cc)
  | inr (g, f) ↦ rw (f, account) (account-append xs ys g h' (rw (f, account) at e))
]

-- What is picked is held.
abbrev picked : Held → Option Connector → Held
picked h none = h
picked h (some c) = more h connector

pick_connector-account :
    (cs : List (Option Connector)) (h : Held)
    → let (r, allocs) = pick_connector cs in account h allocs ≡ some (picked h r)
unfolding pick_connector account
pick_connector-account [] h = refl
pick_connector-account (none ∷ cs) h = pick_connector-account cs h
pick_connector-account (some c ∷ cs) h = elim (Bool-cases (is_usable c)) [
  | inl e ↦ rw e refl
  | inr e ↦ rw e (pick_connector-account cs h)
]

current_crtc-account :
    (encoder_of : ℕ → Option Encoder) (id : ℕ) (h : Held)
    → account h (current_crtc encoder_of id).1 ≡ some h
unfolding current_crtc account
current_crtc-account encoder_of id h = elim (Bool-cases (id == 0)) [
  | inl e ↦ rw e refl
  | inr e ↦ elim (Option-cases (encoder_of id)) [
    | inl f ↦ rw (e, f, current_crtc) refl
    | inr (enc, f) ↦ rw (e, f, current_crtc) refl
  ]
]

find_crtc-account :
    (encoder_of : ℕ → Option Encoder) (crtcs : List ℕ) (crtc : ℕ) (ids : List ℕ) (h : Held)
    → account h (find_crtc encoder_of crtcs crtc ids).1 ≡ some h
unfolding find_crtc account
find_crtc-account encoder_of crtcs crtc [] h = refl
find_crtc-account encoder_of crtcs crtc (id ∷ ids) h = elim (Bool-cases (crtc == 0)) [
  | inr e ↦ rw e refl
  | inl e ↦ elim (Option-cases (encoder_of id)) [
    | inl f ↦ rw (e, f, find_crtc) (find_crtc-account encoder_of crtcs crtc ids h)
    | inr (enc, f) ↦
        rw (e, f, find_crtc)
          (find_crtc-account encoder_of crtcs (first_crtc enc.encoder_crtcs 0 crtcs) ids h)
  ]
]

module _ (primary : ℕ) where
  find_plane-account :
      (on_crtc : ℕ → Bool) (id : ℕ) (ps : List (Option Plane)) (h : Held)
      → account h (find_plane primary on_crtc id ps).1 ≡ some h
  unfolding find_plane account
  find_plane-account on_crtc id [] h = refl
  find_plane-account on_crtc id (none ∷ ps) h = find_plane-account on_crtc id ps h
  find_plane-account on_crtc id (some p ∷ ps) h =
      let rest = λ (n : ℕ). find_plane-account on_crtc n ps h in
      elim (Bool-cases (id == 0)) [
        | inr e ↦ rw e refl
        | inl e ↦ elim (Bool-cases (on_crtc p.plane_crtcs)) [
          | inr f ↦ rw (e, f) (rest 0)
          | inl f ↦ elim (Option-cases p.props) [
            | inl g ↦ rw (e, f, g) (rest _)
            | inr (ps', g) ↦ rw (e, f, g) (rest _)
          ]
        ]
      ]

  -- What is left at the end: nothing where the set-up fails.
  abbrev pub left : Option Kms → Held
  left none = nothing_held
  left (some k) = kms_held

  abbrev two_held : Held
  two_held = record nothing_held { resource_lists = 1; connectors = 1 }

  load_all-account :
      (a : DrmAnswers) (k : Kms)
      → let (r, allocs) = load_all a k in account two_held allocs ≡ some (left r)
  unfolding load_all account
  load_all-account a k = elim (Option-cases a.conn_map) [
    | inl e ↦ rw (e, load_all) refl
    | inr (ps, e) ↦ elim (Option-cases a.crtc_map) [
      | inl f ↦ rw (e, f, load_all) refl
      | inr (qs, f) ↦ elim (Option-cases a.plane_map) [
        | inl g ↦ rw (e, f, g, load_all) refl
        | inr (rs, g) ↦ elim (Option-cases a.blob_made) [
          | inl b ↦ rw (e, f, g, b, load_all) refl
          | inr (id, b) ↦ rw (e, f, g, b, load_all) refl
        ]
      ]
    ]
  ]

  -- Some steps that leave what is held, one that is taken before them, and the rest.
  around :
      (xs ys : List Alloc) (h g : Held) (o : Option Held)
      → account h xs ≡ some g
      → account g ys ≡ o
      → account h (xs ++ ys) ≡ o
  around xs ys h g o e f = account-append xs ys h g e ∙ f

  setup_plane-account :
      (a : DrmAnswers) (crtcs : List ℕ) (k : Kms)
      → let (r, allocs) = setup_plane primary a crtcs k in account two_held allocs ≡ some (left r)
  unfolding setup_plane account
  setup_plane-account a crtcs k = elim (Option-cases a.planes) [
    | inl e ↦ rw (e, setup_plane) refl
    | inr (ps, e) ↦
        let on_crtc : ℕ → Bool = elim (crtc_index_of k.crtc_id 0 crtcs) [
          | none ↦ a.wild_bit
          | some i ↦ λ mask. has_bit mask i
        ] in
        let found = find_plane primary on_crtc 0 ps in
        let seen = find_plane-account on_crtc 0 ps (more two_held plane_resources) in
        elim (Bool-cases (found.0 == 0)) [
          | inl f ↦ rw (e, f, setup_plane) (around found.1 _ _ _ _ seen refl)
          | inr f ↦
              rw (e, f, setup_plane)
                (around found.1 _ _ _ _ seen (load_all-account a (record k { plane_id = found.0 })))
        ]
  ]

  setup_crtc-account :
      (a : DrmAnswers) (crtcs : List ℕ) (c : Connector) (k : Kms)
      → let (r, allocs) = setup_crtc primary a crtcs c k in account two_held allocs ≡ some (left r)
  unfolding setup_crtc account
  setup_crtc-account a crtcs c k =
      let now = current_crtc a.encoder_of c.encoder_id in
      let found = find_crtc a.encoder_of crtcs now.0 c.encoders in
      let first = current_crtc-account a.encoder_of c.encoder_id two_held in
      let second = find_crtc-account a.encoder_of crtcs now.0 c.encoders two_held in
      elim (Bool-cases (found.0 == 0)) [
        | inl e ↦ rw e (around now.1 _ _ _ _ first (around found.1 _ _ _ _ second refl))
        | inr e ↦ rw e (
            around now.1 _ _ _ _ first (
              around found.1 _ _ _ _ second
                (setup_plane-account a crtcs (record k { crtc_id = found.0 }))))
      ]

  -- Whatever libdrm answers, `kms_setup` gives back nothing that it does not hold, and at its end
  -- it holds nothing where it fails, and where it succeeds the three property maps and the blob
  -- of the mode that `struct kms` owns, and nothing else.
  pub account-kms_setup :
      (a : DrmAnswers) (memory : Kms)
      → let (r, allocs) = kms_setup primary a memory in account nothing_held allocs ≡ some (left r)
  unfolding kms_setup account
  account-kms_setup a memory = elim (Option-cases a.found) [
    | inl e ↦ rw (e, kms_setup) refl
    | inr (res, e) ↦
        let seen = pick_connector-account res.0 (more nothing_held resources) in
        elim (Option-cases (pick_connector res.0).0) [
          | inl f ↦
              rw (e, f, kms_setup) (around (pick_connector res.0).1 _ _ _ _ (rw f at seen) refl)
          | inr (c, f) ↦
              rw (e, f, kms_setup)
                (around (pick_connector res.0).1 _ _ _ _ (rw f at seen)
                  (setup_crtc-account a res.1 c _))
        ]
  ]
