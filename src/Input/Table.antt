-- ===== src/Input/Table.antt =====
-- The array of devices in src/input.c, with its entries taken out and added.
use crystalline_lattice.Common.{
  ℕ, zero, suc, ◌+◌, ◌-◌, ◌≡◌, refl, sym, ap, ◌∙◌, ◌==◌, false, Option, none, some, List, [], ◌∷◌,
  ◌++◌, arith, set, get_elem?, length, take, if◌then◌else◌, Bool-cases, inl, inr,
}
use crystalline_lattice.Input.{Device, take_out, close_from}

-- The id under which the device with the descriptor was opened.
abbrev pub id_of : List Device → ℕ → Option ℕ
id_of [] fd = none
id_of (d ∷ ds) fd = if d.fd == fd then some d.devid else id_of ds fd

-- No two entries have the same descriptor.
abbrev pub Distinct : List Device → Type 0
Distinct [] = Unit
Distinct (d ∷ ds) = (id_of ds d.fd ≡ none) × Distinct ds

-- The last entry, and the entries before it.
abbrev front : Device → List Device → List Device
front d [] = []
front d (e ∷ ds) = d ∷ front e ds

abbrev last_of : Device → List Device → Device
last_of d [] = d
last_of d (e ∷ ds) = last_of e ds

get_elem?-last :
    (d : Device) (ds : List Device) → get_elem? (d ∷ ds) (length ds) ≡ some (last_of d ds)
get_elem?-last d [] = refl
get_elem?-last d (e ∷ ds) = get_elem?-last e ds

take-length : (d : Device) (ds : List Device) → take (length ds) (d ∷ ds) ≡ front d ds
take-length d [] = refl
take-length d (e ∷ ds) = ap (◌∷◌ d) (take-length e ds)

-- The last entry in the place of entry `i`, or nothing there where it is the last.
abbrev pub fill_gap : ℕ → Device → List Device → List Device
fill_gap zero d [] = []
fill_gap zero d (e ∷ ds) = last_of e ds ∷ front e ds
fill_gap (suc i) d [] = []
fill_gap (suc i) d (e ∷ ds) = d ∷ fill_gap i e ds

take-set :
    (i : ℕ) (d : Device) (ds : List Device)
    → take (length ds) (set (d ∷ ds) i (last_of d ds)) ≡ fill_gap i d ds
take-set zero d [] = refl
take-set zero d (e ∷ ds) = ap (◌∷◌ (last_of e ds)) (take-length e ds)
take-set (suc i) d [] = refl
take-set (suc i) d (e ∷ ds) = ap (◌∷◌ d) (take-set i e ds)

pub take_out-fill_gap :
    (i : ℕ) (d : Device) (ds : List Device) → take_out i (d ∷ ds) ≡ fill_gap i d ds
unfolding take_out
take_out-fill_gap i d ds =
    let e : suc (length ds) - 1 ≡ length ds = omega arith in
    rw (e, get_elem?-last d ds, take_out, e) (take-set i d ds)

-- Moving the last entry to the front changes no lookup.
id_of-front :
    (d : Device) (ds : List Device) (fd : ℕ)
    → Distinct (d ∷ ds)
    → id_of (last_of d ds ∷ front d ds) fd ≡ id_of (d ∷ ds) fd
id_of-front d [] fd h = refl
id_of-front d (e ∷ ds) fd (fresh, h) =
    ground (arith, fresh, id_of-front e ds fd h, id_of-front e ds d.fd h)

Distinct-front :
    (d : Device) (ds : List Device) → Distinct (d ∷ ds) → Distinct (last_of d ds ∷ front d ds)
Distinct-front d [] h = h
Distinct-front d (e ∷ ds) (fresh, h) =
    let (apart, rest) = Distinct-front e ds h in
    let gone = id_of-front e ds d.fd h ∙ fresh in
    (ground (arith, apart, gone), (ground (arith, gone), rest))

id_of-none :
    (ds : List Device) (i fd : ℕ) (d : Device)
    → get_elem? ds i ≡ some d
    → id_of ds fd ≡ none
    → (d.fd == fd) ≡ false
id_of-none [] i fd d e h = absurd (cc)
id_of-none (x ∷ ds) zero fd d e h = let same : x ≡ d = cc in rw (sym same) (ground (arith, h))
id_of-none (x ∷ ds) (suc i) fd d e h = id_of-none ds i fd d e (ground (arith, h))

pub id_of-fill_gap :
    (i : ℕ) (d x : Device) (ds : List Device) (fd : ℕ)
    → Distinct (d ∷ ds)
    → get_elem? (d ∷ ds) i ≡ some x
    → id_of (fill_gap i d ds) fd ≡ (if x.fd == fd then none else id_of (d ∷ ds) fd)
id_of-fill_gap zero d x [] fd h there = let same : d ≡ x = cc in rw (sym same) (ground arith)
id_of-fill_gap zero d x (e ∷ ds) fd (fresh, h) there =
    let same : d ≡ x = cc in rw (sym same) (ground (arith, id_of-front e ds fd h, fresh))
id_of-fill_gap (suc i) d x [] fd h there = absurd (cc)
id_of-fill_gap (suc i) d x (e ∷ ds) fd (fresh, h) there =
    ground (arith, id_of-fill_gap i e x ds fd h there, id_of-none (e ∷ ds) i d.fd x there fresh)

pub Distinct-fill_gap :
    (i : ℕ) (d x : Device) (ds : List Device)
    → Distinct (d ∷ ds)
    → get_elem? (d ∷ ds) i ≡ some x
    → Distinct (fill_gap i d ds)
Distinct-fill_gap zero d x [] h there = tt
Distinct-fill_gap zero d x (e ∷ ds) (fresh, h) there = Distinct-front e ds h
Distinct-fill_gap (suc i) d x [] h there = absurd (cc)
Distinct-fill_gap (suc i) d x (e ∷ ds) (fresh, h) there = (
  ground (arith, id_of-fill_gap i e x ds d.fd h there, fresh),
  Distinct-fill_gap i e x ds h there,
)

length-front : (d : Device) (ds : List Device) → length (front d ds) ≡ length ds
length-front d [] = refl
length-front d (e ∷ ds) = ap suc (length-front e ds)

pub length-fill_gap :
    (i : ℕ) (d x : Device) (ds : List Device)
    → get_elem? (d ∷ ds) i ≡ some x
    → length (fill_gap i d ds) ≡ length ds
length-fill_gap zero d x [] there = refl
length-fill_gap zero d x (e ∷ ds) there = ap suc (length-front e ds)
length-fill_gap (suc i) d x [] there = absurd (cc)
length-fill_gap (suc i) d x (e ∷ ds) there = ap suc (length-fill_gap i e x ds there)

-- The loop of `close_restricted` finds the entry that the descriptor has, counted from `i`.
pub data Closes (fd i : ℕ) (rest devs : List Device) : Type 0 where
  missing : id_of rest fd ≡ none → close_from fd i rest devs ≡ (devs, []) → Closes fd i rest devs
  at_entry :
      (j : ℕ) (d : Device)
      → get_elem? rest j ≡ some d
      → d.fd ≡ fd
      → id_of rest fd ≡ some d.devid
      → close_from fd i rest devs ≡ (take_out (i + j) devs, d.devid ∷ [])
      → Closes fd i rest devs

pub close_from-Closes : (fd i : ℕ) (rest devs : List Device) → Closes fd i rest devs
unfolding close_from
close_from-Closes fd i [] devs = missing refl refl
close_from-Closes fd i (d ∷ rest) devs = elim (Bool-cases (d.fd == fd)) [
  | inl e ↦
      at_entry 0 d refl (ground (arith, e)) (rw e refl)
        (rw e (ap (λ (n : ℕ). (take_out n devs, d.devid ∷ [])) (omega arith)))
  | inr e ↦ elim (close_from-Closes fd (suc i) rest devs) [
    | missing none_there same ↦ missing (rw e none_there) (rw e same)
    | at_entry j x there same_fd same_id closed ↦
        at_entry (suc j) x there same_fd (rw e same_id)
          (rw e (closed ∙ ap (λ (n : ℕ). (take_out n devs, x.devid ∷ [])) (omega arith)))
  ]
]

-- A new entry at the end.
pub id_of-append :
    (devs : List Device) (x : Device) (fd : ℕ)
    → id_of devs x.fd ≡ none
    → id_of (devs ++ x ∷ []) fd ≡ (if x.fd == fd then some x.devid else id_of devs fd)
id_of-append [] x fd fresh = refl
id_of-append (d ∷ devs) x fd fresh = ground (arith, fresh, id_of-append devs x fd)

pub Distinct-append :
    (devs : List Device) (x : Device)
    → Distinct devs
    → id_of devs x.fd ≡ none
    → Distinct (devs ++ x ∷ [])
Distinct-append [] x h fresh = (refl, tt)
Distinct-append (d ∷ devs) x (apart, h) fresh = (
  ground (arith, fresh, apart, id_of-append devs x d.fd),
  Distinct-append devs x h (ground (arith, fresh)),
)

pub length-append : (devs : List Device) (x : Device) → length (devs ++ x ∷ []) ≡ suc (length devs)
length-append [] x = refl
length-append (d ∷ devs) x = ap suc (length-append devs x)
