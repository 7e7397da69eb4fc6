-- ===== src/Wayland/Monitor.antt =====
-- src/wayland.c: the order that the Wayland protocol asks of the events for one device: `enter`
-- a surface first, then use, then `leave` that surface.
use crystalline_lattice.Common.{
  ℕ, ◌≡◌, refl, ◌∙◌, ◌⊎◌, inl, inr, false, Option, none, some, List, [], ◌∷◌, ◌++◌, arith, ◌==◌,
  if◌then◌else◌, Bool-cases, Option-cases, All, All-mono,
}
use mathlib.Core.List.{append_assoc}
use crystalline_lattice.Wayland.{Resource, FeSurface, Event}
use crystalline_lattice.Wayland.Input.{for_client}

-- What an event means for the device that it is sent on.
pub data Deed : Type 0 where
  enters : Resource → Resource → Deed
  leaves : Resource → Resource → Deed
  uses : Resource → Deed
  nothing : Deed

-- The device `d` with the surface that it has entered, one deed later; `none` where the deed is
-- against the protocol.
unfoldable pub observe : ℕ → Option ℕ → Deed → Option (Option ℕ)
observe d over (enters r s) =
    if r.id == d then (elim over [ none ↦ some (some s.id) | some o ↦ none ]) else some over
observe d over (leaves r s) =
    if r.id == d
    then (elim over [ none ↦ none | some o ↦ if o == s.id then some none else none ])
    else some over
observe d over (uses r) =
    if r.id == d then (elim over [ none ↦ none | some o ↦ some (some o) ]) else some over
observe d over nothing = some over

unfoldable pub watch : (Event → Deed) → ℕ → Option ℕ → List Event → Option (Option ℕ)
watch deed d over [] = some over
watch deed d over (e ∷ es) = elim (observe d over (deed e)) [
  | none ↦ none
  | some over' ↦ watch deed d over' es
]

-- The device is in the list, and no other has its identity.
abbrev pub IsOnce : Resource → List Resource → Type 0
IsOnce r [] = ⊥
IsOnce r (q ∷ qs) =
    ((q ≡ r) × All (λ u. (u.id == r.id) ≡ false) qs) ⊎ (((q.id == r.id) ≡ false) × IsOnce r qs)

-- The surface that a device of the client is over, where the surface has the focus.
abbrev pub entered : Resource → Option FeSurface → Option ℕ
entered r none = none
entered r (some s) = if r.client == s.surface.client then some s.surface.id else none

module _ (deed : Event → Deed) (d : ℕ) where
  -- Events that the device takes no notice of.
  abbrev pub IsUnseen : List Event → Type 0
  IsUnseen es =
      (over : Option ℕ) (rest : List Event)
      → watch deed d over (es ++ rest) ≡ watch deed d over rest

  pub append-IsUnseen : (xs ys : List Event) → IsUnseen xs → IsUnseen ys → IsUnseen (xs ++ ys)
  append-IsUnseen xs ys hx hy over rest = rw append_assoc (hx over (ys ++ rest) ∙ hy over rest)

  pub for_client-IsUnseen :
      (c : ℕ) (body : Resource → List Event) (qs : List Resource)
      → All (λ q. IsUnseen (body q)) qs
      → IsUnseen (for_client c body qs)
  unfolding for_client
  for_client-IsUnseen c body [] unseen = λ over rest. refl
  for_client-IsUnseen c body (q ∷ qs) (u, unseen) = elim (Bool-cases (q.client == c)) [
    | inl e ↦
        rw e
          (append-IsUnseen (body q) (for_client c body qs) u (for_client-IsUnseen c body qs unseen))
    | inr e ↦ rw e (for_client-IsUnseen c body qs unseen)
  ]

  watch-after :
      (xs ys zs : List Event)
      → ((over : Option ℕ) → watch deed d over ys ≡ watch deed d over zs)
      → (over : Option ℕ) → watch deed d over (xs ++ ys) ≡ watch deed d over (xs ++ zs)
  unfolding watch
  watch-after [] ys zs same over = same over
  watch-after (e ∷ xs) ys zs same over = elim (Option-cases (observe d over (deed e))) [
    | inl h ↦ rw (h, watch)
    | inr (over', h) ↦ rw (h, watch) (watch-after xs ys zs same over')
  ]

  -- A loop over a list that the device is in runs its body for the device, when the client is its.
  pub for_client-mine :
      (c : ℕ) (body : Resource → List Event) (r : Resource) (qs : List Resource)
      → r.id ≡ d
      → IsOnce r qs
      → ((q : Resource) → (q.id == d) ≡ false → IsUnseen (body q))
      → (over : Option ℕ) (rest : List Event)
      → watch deed d over (for_client c body qs ++ rest)
        ≡ (if r.client == c then watch deed d over (body r ++ rest) else watch deed d over rest)
  unfolding for_client
  for_client-mine c body r [] mine once unseen over rest = absurd once
  for_client-mine c body r (q ∷ qs) mine (inl (same, others)) unseen over rest =
      let others' =
        for_client-IsUnseen c body qs
          (All-mono _ _ qs (λ u other. unseen u (rw mine at other)) others) in
      rw same (elim (Bool-cases (r.client == c)) [
        | inl e ↦ rw e (rw append_assoc (watch-after (body r) _ _ (λ o. others' o rest) over))
        | inr e ↦ rw e (others' over rest)
      ])
  for_client-mine c body r (q ∷ qs) mine (inr (other, once)) unseen over rest =
      elim (Bool-cases (q.client == c)) [
        | inl e ↦ rw e (
            rw append_assoc (
              unseen q (rw mine at other) over (for_client c body qs ++ rest)
              ∙ for_client-mine c body r qs mine once unseen over rest))
        | inr e ↦ rw e (for_client-mine c body r qs mine once unseen over rest)
      ]

  watch-seen :
      (over over' : Option ℕ) (e : Event) (x : Deed) (es : List Event)
      → deed e ≡ x
      → observe d over x ≡ some over'
      → watch deed d over (e ∷ es) ≡ watch deed d over' es
  unfolding watch
  watch-seen over over' e x es means seen =
      let h : observe d over (deed e) ≡ some over' = rw means seen in rw (h, watch)

  -- An event that means what the deed of a device `q` means, ahead of unseen events.
  cons-IsUnseen :
      (e : Event) (x : Deed) (tail : List Event)
      → deed e ≡ x
      → ((over : Option ℕ) → observe d over x ≡ some over)
      → IsUnseen tail
      → IsUnseen (e ∷ tail)
  cons-IsUnseen e x tail means seen unseen over rest =
      watch-seen over over e x (tail ++ rest) means (seen over) ∙ unseen over rest

module _ (deed : Event → Deed) (r : Resource) (ps : List Resource) (once : IsOnce r ps) where
  -- Each device of the surface's client leaves the surface.
  pub leave_all-watch :
      (ev : Resource → Event) (s : FeSurface)
      → ((q : Resource) → deed (ev q) ≡ leaves q s.surface)
      → (rest : List Event)
      → watch deed r.id
          (entered r (some s))
          (for_client s.surface.client (λ p. ev p ∷ []) ps ++ rest)
        ≡ watch deed r.id none rest
  unfolding observe
  leave_all-watch ev s means rest =
      let mine =
        for_client-mine deed r.id s.surface.client (λ p. ev p ∷ []) r ps refl once
          (λ q other.
            cons-IsUnseen deed r.id (ev q) (leaves q s.surface) [] (means q) (λ over. rw other refl)
              (λ over rest. refl))
          (entered r (some s)) rest in
      mine ∙ elim (Bool-cases (r.client == s.surface.client)) [
        | inl e ↦ rw e (
            watch-seen deed r.id (some s.surface.id) none (ev r) (leaves r s.surface) rest (means r)
              (ground arith))
        | inr e ↦ rw e refl
      ]

  -- Each device of the surface's client enters the surface, with unseen events after it.
  pub enter_all-watch :
      (ev : Resource → Event) (tail : List Event) (s : FeSurface)
      → ((q : Resource) → deed (ev q) ≡ enters q s.surface)
      → IsUnseen deed r.id tail
      → (rest : List Event)
      → watch deed r.id none (for_client s.surface.client (λ p. ev p ∷ tail) ps ++ rest)
        ≡ watch deed r.id (entered r (some s)) rest
  unfolding observe
  enter_all-watch ev tail s means unseen rest =
      let mine =
        for_client-mine deed r.id s.surface.client (λ p. ev p ∷ tail) r ps refl once
          (λ q other.
            cons-IsUnseen deed r.id (ev q) (enters q s.surface) tail (means q)
              (λ over. rw other refl) unseen)
          none rest in
      mine ∙ elim (Bool-cases (r.client == s.surface.client)) [
        | inl e ↦ rw e (
            watch-seen deed r.id none (some s.surface.id) (ev r) (enters r s.surface) (tail ++ rest)
              (means r) (ground arith)
            ∙ unseen (some s.surface.id) rest)
        | inr e ↦ rw e refl
      ]

  -- Each device of the client of the surface that they have entered is used.
  pub use_all-watch :
      (ev : Resource → Event) (s : FeSurface)
      → ((q : Resource) → deed (ev q) ≡ uses q)
      → (rest : List Event)
      → watch deed r.id
          (entered r (some s))
          (for_client s.surface.client (λ p. ev p ∷ []) ps ++ rest)
        ≡ watch deed r.id (entered r (some s)) rest
  unfolding observe
  use_all-watch ev s means rest =
      let mine =
        for_client-mine deed r.id s.surface.client (λ p. ev p ∷ []) r ps refl once
          (λ q other.
            cons-IsUnseen deed r.id (ev q) (uses q) [] (means q) (λ over. rw other refl)
              (λ over rest. refl))
          (entered r (some s)) rest in
      mine ∙ elim (Bool-cases (r.client == s.surface.client)) [
        | inl e ↦ rw e (
            watch-seen deed r.id (some s.surface.id) (some s.surface.id) (ev r) (uses r) rest
              (means r) (ground arith))
        | inr e ↦ rw e refl
      ]
