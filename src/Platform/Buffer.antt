-- ===== src/Platform/Buffer.antt =====
-- src/platform.c: what the kernel holds for a framebuffer, when it is made and when that fails.
use crystalline_lattice.Common.{
  ℕ, ◌≡◌, refl, Bool, true, false, ◌&&◌, Option, none, some, List, [], ◌∷◌, ◌++◌, ◌==◌, arith,
  if◌then◌else◌, is_some, ℤ,
}
use crystalline_lattice.Platform.{
  Kernel, create_dumb, destroy_dumb, add_fb, rm_fb, map_memory, unmap_memory, clear, DumbFb,
  FbAnswers, dumb_fb_create, dumb_fb_destroy,
}

-- The buffers, framebuffers and mappings that are made and not yet given back.
pub record Held : Type 0 where
  pub dumbs : List ℕ
  pub fbs : List ℕ
  pub maps : List ℕ

abbrev pub nothing_held : Held
nothing_held = record { dumbs = []; fbs = []; maps = [] }

abbrev forget : ℕ → List ℕ → List ℕ
forget n [] = []
forget n (m ∷ ms) = let rest = forget n ms in if m == n then ms else m ∷ rest

abbrev pub after : Held → Kernel → Held
after l (create_dumb n) = record l { dumbs = n ∷ l.dumbs }
after l (destroy_dumb n) = record l { dumbs = forget n l.dumbs }
after l (add_fb n) = record l { fbs = n ∷ l.fbs }
after l (rm_fb n) = record l { fbs = forget n l.fbs }
after l (map_memory n) = record l { maps = n ∷ l.maps }
after l (unmap_memory n) = record l { maps = forget n l.maps }
after l (clear a size) = l

abbrev pub held : Held → List Kernel → Held
held l [] = l
held l (e ∷ es) = held (after l e) es

-- The kernel numbers its objects from 1.
abbrev pub IsNumbered : FbAnswers → Type 0
IsNumbered answers =
    elim answers.created [ none ↦ Unit | some c ↦ (c.0 == 0) ≡ false ]
    × elim answers.added [ none ↦ Unit | some n ↦ (n == 0) ≡ false ]

-- Whether each call of `dumb_fb_create` succeeds.
abbrev pub all_answered : FbAnswers → Bool
all_answered answers =
    is_some answers.created && is_some answers.added && answers.offset && is_some answers.mapped

-- What is held after the framebuffer is made, and what once it is destroyed, too.
abbrev pub fb_held : DumbFb → Held
fb_held fb = record {
  dumbs = if fb.handle == 0 then [] else fb.handle ∷ [];
  fbs = if fb.fb_id == 0 then [] else fb.fb_id ∷ [];
  maps = elim fb.map [ none ↦ [] | some a ↦ a ∷ [] ];
}

-- The answer, what is held then, and what is held once the struct is destroyed.
abbrev pub IsManaged : FbAnswers → ℤ → ℤ → Type 0
IsManaged answers w h =
    let (ok, fb, effects) = dumb_fb_create answers w h in
    (ok ≡ all_answered answers)
    × (held nothing_held effects ≡ fb_held fb)
    × (is_some fb.map ≡ ok)
    × (if ok then Unit else (fb_held fb ≡ nothing_held))
    × (held nothing_held (effects ++ (dumb_fb_destroy fb).1) ≡ nothing_held)

eq_self : (k : ℕ) → (k == k) ≡ true
eq_self k = ground arith

managed :
    (c : Option (ℕ × ℕ × ℕ)) (a : Option ℕ) (o : Bool) (m : Option ℕ) (w h : ℤ)
    → IsNumbered (record { created = c; added = a; offset = o; mapped = m })
    → IsManaged (record { created = c; added = a; offset = o; mapped = m }) w h
unfolding dumb_fb_create dumb_fb_destroy
managed none a o m w h numbered = (refl, refl, refl, refl, refl)
managed (some c) none o m w h (n, u) = (refl, simp (n, eq_self), refl, refl, simp (n, eq_self))
managed (some c) (some i) false m w h (n, u) =
    (refl, simp (n, u, eq_self), refl, refl, simp (n, u, eq_self))
managed (some c) (some i) true none w h (n, u) =
    (refl, simp (n, u, eq_self), refl, refl, simp (n, u, eq_self))
managed (some c) (some i) true (some x) w h (n, u) =
    (refl, simp (n, u), refl, tt, simp (n, u, eq_self))

-- `dumb_fb_create` succeeds exactly where each of its calls does. The kernel then holds the
-- buffer, the framebuffer and the mapping that the struct names, and nothing after
-- `dumb_fb_destroy`. Where a call fails, whichever it is, everything that was made is given
-- back and the struct names nothing. The kernel's numbers are not 0.
pub dumb_fb_create_lem :
    (answers : FbAnswers) (w h : ℤ) → IsNumbered answers → IsManaged answers w h
dumb_fb_create_lem answers w h numbered =
    managed answers.created answers.added answers.offset answers.mapped w h numbered
