-- ===== src/Control/Layout.antt =====
-- The reply to a GET_OUTPUTS of src/control.c: where its parts stand.
use crystalline_lattice.Common.{
  ℕ, zero, suc, ◌+◌, ◌-◌, ◌*◌, ◌^◌, ◌≤◌, ◌<◌, ◌≡◌, refl, sym, ap, ◌∙◌, some, List, [], ◌∷◌, ◌++◌,
  arith, ◌==◌, ◌≢◌, length, take, drop, get_or, get_elem?, replicate, All, take-append, All-append,
  length-append, Bool-cases, inl, inr,
}
use crystalline_lattice.Protocol.{u32_at, words_bytes}
use crystalline_lattice.Control.{
  DisplayMode, GlctlMode, list_modes, mode_refresh_mhz, glctl_mode_of, glctl_max_modes,
}
use crystalline_lattice.Control.Reply.{name_size, mode_words, padded, filled_modes}
use crystalline_lattice.Protocol.{word}
use crystalline_lattice.Protocol.RoundTrip.{word-words_bytes}

get_or-append :
    (xs ys : List ℕ) (j i : ℕ) → j ≡ length xs + i → get_or (xs ++ ys) j 0 ≡ get_or ys i 0
get_or-append [] ys j i h = ap (λ (k : ℕ). get_or ys k 0) (omega (arith, h))
get_or-append (x ∷ xs) ys zero i h = absurd (omega arith)
get_or-append (x ∷ xs) ys (suc j) i h = get_or-append xs ys j i (omega (arith, h))

u32_at-append : (xs ys : List ℕ) (j i : ℕ) → j ≡ length xs + i → u32_at j (xs ++ ys) ≡ u32_at i ys
unfolding u32_at
u32_at-append xs ys j i h = omega (
  arith,
  get_or-append xs ys j i h,
  get_or-append xs ys (j + 1) (i + 1) (omega (arith, h)),
  get_or-append xs ys (j + 2) (i + 2) (omega (arith, h)),
  get_or-append xs ys (j + 3) (i + 3) (omega (arith, h)),
)

pub length-replicate : (n : ℕ) → length {A = ℕ} (replicate n 0) ≡ n
length-replicate zero = refl
length-replicate (suc n) = ap suc (length-replicate n)

length-words_bytes : (ns : List ℕ) → length (words_bytes ns) ≡ 4 * length ns
unfolding words_bytes
length-words_bytes [] = refl
length-words_bytes (n ∷ ns) = omega (arith, length-words_bytes ns)

pub length-padded : (name : List ℕ) → length name ≤ name_size → length (padded name) ≡ name_size
length-padded name h =
    length-append name _ ∙ rw (length-replicate (name_size - length name)) (omega arith)

length-mode_words : (gs : List GlctlMode) → length (mode_words gs) ≡ 4 * length gs
length-mode_words [] = refl
length-mode_words (g ∷ gs) = omega (arith, length-mode_words gs)

first_four :
    (a b c d : ℕ) (rest : List ℕ) (j : ℕ)
    → j < 4
    → get_or (a ∷ b ∷ c ∷ d ∷ rest) j 0 ≡ get_or (a ∷ b ∷ c ∷ d ∷ []) j 0
first_four a b c d rest zero h = refl
first_four a b c d rest (suc zero) h = refl
first_four a b c d rest (suc (suc zero)) h = refl
first_four a b c d rest (suc (suc (suc zero))) h = refl
first_four a b c d rest (suc (suc (suc (suc j)))) h = absurd (omega arith)

pub index_in_range :
    (gs : List GlctlMode) (i : ℕ) (g : GlctlMode) → get_elem? gs i ≡ some g → i < length gs
index_in_range [] i g e = absurd (cc)
index_in_range (g' ∷ gs) zero g e = omega arith
index_in_range (g' ∷ gs) (suc i) g e = omega (arith, index_in_range gs i g e)

-- The words of the `i`-th mode stand at 4 i.
mode_words-at :
    (gs : List GlctlMode) (rest : List ℕ) (i j : ℕ) (g : GlctlMode)
    → get_elem? gs i ≡ some g
    → j < 4
    → get_or (mode_words gs ++ rest) (4 * i + j) 0 ≡ get_or (mode_words (g ∷ [])) j 0
mode_words-at [] rest i j g e h = absurd (cc)
mode_words-at (g' ∷ gs) rest zero j g e h =
    let same : g' ≡ g = cc in
    get_or-append [] (mode_words (g' ∷ gs) ++ rest) (4 * 0 + j) j (omega arith)
    ∙ first_four g'.w g'.h g'.refresh_mhz g'.flags (mode_words gs ++ rest) j h
    ∙ ap (λ (v : GlctlMode). get_or (mode_words (v ∷ [])) j 0) same
mode_words-at (g' ∷ gs) rest (suc i) j g e h =
    get_or-append (mode_words (g' ∷ [])) (mode_words gs ++ rest) (4 * suc i + j) (4 * i + j)
      (omega arith)
    ∙ mode_words-at gs rest i j g e h

abbrev pub FitsWords : List ℕ → Type 0
FitsWords ns = All (λ n. n < 2 ^ 32) ns

FitsWords-replicate : (n : ℕ) → FitsWords (replicate n 0)
FitsWords-replicate zero = tt
FitsWords-replicate (suc n) = (omega arith, FitsWords-replicate n)

-- A mode's size is two `uint16_t`.
abbrev pub IsSized : DisplayMode → Type 0
IsSized m = (m.hdisplay < 2 ^ 16) × (m.vdisplay < 2 ^ 16)

mode_refresh_mhz-fits : (m : DisplayMode) → mode_refresh_mhz m < 2 ^ 32
unfolding mode_refresh_mhz
mode_refresh_mhz-fits m = ground arith

glctl_mode_of-Fits :
    (now m : DisplayMode) → IsSized m → FitsWords (mode_words (glctl_mode_of now m ∷ []))
unfolding glctl_mode_of
glctl_mode_of-Fits now m (w, h) =
    let refresh = mode_refresh_mhz-fits m in
    (omega arith, (omega arith, (refresh, (ground arith, tt))))

FitsWords-cons :
    (g : GlctlMode) (gs : List GlctlMode)
    → FitsWords (mode_words (g ∷ []))
    → FitsWords (mode_words gs)
    → FitsWords (mode_words (g ∷ gs))
FitsWords-cons g gs (w, (h, (refresh, (flags, done)))) rest = (w, (h, (refresh, (flags, rest))))

pub mode_words-Fits :
    (room : ℕ) (now : DisplayMode) (ms : List DisplayMode)
    → All IsSized ms
    → FitsWords (mode_words (list_modes room now ms))
unfolding list_modes
mode_words-Fits room now [] sized = tt
mode_words-Fits room now (m ∷ ms) (here, sized) = elim (Bool-cases (room == 0)) [
  | inl e ↦ rw e tt
  | inr e ↦ elim (Bool-cases m.interlaced) [
    | inl f ↦ rw (e, f) (mode_words-Fits room now ms sized)
    | inr f ↦
        simp (e, f)
          (FitsWords-cons (glctl_mode_of now m) _ (glctl_mode_of-Fits now m here)
            (mode_words-Fits (room - 1) now ms sized))
  ]
]

listed_modes-few :
    (room : ℕ) (now : DisplayMode) (ms : List DisplayMode) → length (list_modes room now ms) ≤ room
unfolding list_modes
listed_modes-few room now [] = omega arith
listed_modes-few room now (m ∷ ms) = elim (Bool-cases (room == 0)) [
  | inl e ↦ rw e (omega arith)
  | inr e ↦ elim (Bool-cases m.interlaced) [
    | inl f ↦ rw (e, f) (listed_modes-few room now ms)
    | inr f ↦
        let some_room : room ≢ 0 = ground (arith, e) in
        rw (e, f) (omega (arith, listed_modes-few (room - 1) now ms))
  ]
]

drop-append : (xs ys : List ℕ) → drop (length xs) (xs ++ ys) ≡ ys
drop-append [] ys = refl
drop-append (x ∷ xs) ys = drop-append xs ys

-- A datagram of three words, a name of 32 bytes, more words, and a rest.
module _ (hs : List ℕ) (three : length hs ≡ 3) (head : FitsWords hs) (name : List ℕ)
    (long : length name ≡ name_size) (ws : List ℕ) (body : FitsWords ws) (rest : List ℕ) where
  abbrev whole : List ℕ
  whole = words_bytes hs ++ (name ++ (words_bytes ws ++ rest))

  pub head-at : (i : ℕ) → i < 3 → word i whole ≡ get_or hs i 0
  head-at i h = word-words_bytes hs i (name ++ (words_bytes ws ++ rest)) head (omega (arith, three))

  pub take-name : take name_size (drop 12 whole) ≡ name
  take-name =
      let twelve : length (words_bytes hs) ≡ 12 = omega (arith, length-words_bytes hs, three) in
      let after : drop 12 whole ≡ name ++ (words_bytes ws ++ rest) =
        ap (λ (k : ℕ). drop k whole) (sym twelve) ∙ drop-append (words_bytes hs) _ in
      rw after
        (ap (λ (k : ℕ). take k (name ++ (words_bytes ws ++ rest))) (sym long) ∙ take-append name _)

  pub body-at : (j k : ℕ) → j ≡ 44 + 4 * k → k < length ws → u32_at j whole ≡ get_or ws k 0
  body-at j k e h =
      u32_at-append (words_bytes hs) (name ++ (words_bytes ws ++ rest)) j (32 + 4 * k)
        (omega (arith, length-words_bytes hs, three, e))
      ∙ u32_at-append name (words_bytes ws ++ rest) (32 + 4 * k) (4 * k) (omega (arith, long))
      ∙ word-words_bytes ws k rest body h

  pub length-whole : length whole ≡ 44 + 4 * length ws + length rest
  length-whole = omega (
    arith,
    length-append (words_bytes hs) (name ++ (words_bytes ws ++ rest)),
    length-append name (words_bytes ws ++ rest),
    length-append (words_bytes ws) rest,
    length-words_bytes hs,
    length-words_bytes ws,
    three,
    long,
  )

pub length-filled :
    (gs : List GlctlMode) → length gs ≤ glctl_max_modes → length (filled_modes gs) ≡ 259
length-filled gs few =
    let zeros : List ℕ = replicate (4 * (glctl_max_modes - length gs)) 0 in
    omega (
      arith,
      few,
      length-append (mode_words gs) zeros,
      length-mode_words gs,
      length-replicate (4 * (glctl_max_modes - length gs)),
    )

pub filled_modes-Fits :
    (gs : List GlctlMode)
    → length gs ≤ glctl_max_modes
    → FitsWords (mode_words gs)
    → FitsWords (filled_modes gs)
filled_modes-Fits gs few fit =
    let zeros = FitsWords-replicate (4 * (glctl_max_modes - length gs)) in
    (
      omega arith,
      (omega arith, (omega arith, All-append (λ (n : ℕ). n < 2 ^ 32) (mode_words gs) _ fit zeros)),
    )

pub filled_modes-at :
    (gs : List GlctlMode) (i j : ℕ) (g : GlctlMode)
    → get_elem? gs i ≡ some g
    → j < 4
    → get_or (filled_modes gs) (3 + 4 * i + j) 0 ≡ get_or (mode_words (g ∷ [])) j 0
filled_modes-at gs i j g e h =
    let zeros : List ℕ = replicate (4 * (glctl_max_modes - length gs)) 0 in
    get_or-append (0 ∷ 0 ∷ length gs ∷ []) (mode_words gs ++ zeros) (3 + 4 * i + j) (4 * i + j)
      (omega arith)
    ∙ mode_words-at gs zeros i j g e h
