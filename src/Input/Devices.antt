-- ===== src/Input/Devices.antt =====
-- The table of devices in src/input.c is a map from descriptors to the seat's ids.
use crystalline_lattice.Common.{
  ℕ, suc, ◌-◌, ◌<◌, ◌≡◌, refl, sym, ap, ◌∙◌, ◌==◌, ltb, true, Option, none, some, List, [], ◌∷◌,
  ◌++◌, arith, get_elem?, length, if◌then◌else◌,
}
use crystalline_lattice.Input.{
  Device, max_devs, open_restricted, take_out, close_from, close_restricted,
}
use crystalline_lattice.Input.Table.{
  id_of, Distinct, take_out-fill_gap, id_of-fill_gap, Distinct-fill_gap, length-fill_gap, missing,
  at_entry, close_from-Closes, id_of-append, Distinct-append, length-append,
}

-- What libinput asks for: a device is opened by the seat, with its id and its descriptor, or it is
-- refused; or a descriptor is closed.
pub data Request : Type 0 where
  opened : ℕ → ℕ → Request
  refused : Request
  closed : ℕ → Request

-- The table after the requests, and the devices that the seat was asked to close.
unfoldable pub serve : List Request → List Device → List Device × List ℕ
serve [] devs = (devs, [])
serve (opened id fd ∷ rs) devs = serve rs (open_restricted (some (id, fd)) devs).0
serve (refused ∷ rs) devs = serve rs (open_restricted none devs).0
serve (closed fd ∷ rs) devs =
    let (devs', here) = close_restricted fd devs in
    let (last, more) = serve rs devs' in (last, here ++ more)

-- The same on a map from the open descriptors to the ids under which the seat opened them.
abbrev pub Ids : Type 0
Ids = ℕ → Option ℕ

abbrev pub listed : Option ℕ → List ℕ
listed none = []
listed (some id) = id ∷ []

unfoldable pub serve_ids : List Request → Ids → Ids × List ℕ
serve_ids [] m = (m, [])
serve_ids (opened id fd ∷ rs) m = serve_ids rs (λ x. if fd == x then some id else m x)
serve_ids (refused ∷ rs) m = serve_ids rs m
serve_ids (closed fd ∷ rs) m =
    let (last, more) = serve_ids rs (λ x. if fd == x then none else m x) in
    (last, listed (m fd) ++ more)

-- With `n` devices open: a descriptor that the kernel hands out is not open, and no more than 64 are
-- open at a time.
abbrev pub Fits : ℕ → Ids → List Request → Type 0
Fits n m [] = Unit
Fits n m (opened id fd ∷ rs) =
    (n < max_devs) × (m fd ≡ none) × Fits (suc n) (λ x. if fd == x then some id else m x) rs
Fits n m (refused ∷ rs) = Fits n m rs
Fits n m (closed fd ∷ rs) =
    Fits (n - length (listed (m fd))) (λ x. if fd == x then none else m x) rs

-- The table stands for the map.
record Stands (devs : List Device) (n : ℕ) (m : Ids) : Type 0 where
  distinct : Distinct devs
  counted : length devs ≡ n
  looked : (fd : ℕ) → id_of devs fd ≡ m fd

opened-Stands :
    (devs : List Device) (n : ℕ) (m : Ids) (id fd : ℕ)
    → Stands devs n m
    → n < max_devs
    → m fd ≡ none
    → Stands
        (open_restricted (some (id, fd)) devs).0
        (suc n)
        (λ x. if fd == x then some id else m x)
unfolding open_restricted
opened-Stands devs n m id fd s room fresh =
    let x : Device = record { fd = fd; devid = id } in
    let unused : id_of devs fd ≡ none = s.looked fd ∙ fresh in
    let below : ltb (length devs) max_devs ≡ true = ground (arith, s.counted, room) in
    rw below (record {
      distinct = Distinct-append devs x s.distinct unused;
      counted = length-append devs x ∙ ap suc s.counted;
      looked = λ y. ground (arith, id_of-append devs x y unused, s.looked y);
    })

-- The entry `j` is taken out of a table.
taken-Stands :
    (devs : List Device) (n j : ℕ) (m : Ids) (d : Device)
    → Stands devs n m
    → get_elem? devs j ≡ some d
    → Stands (take_out j devs) (n - 1) (λ x. if d.fd == x then none else m x)
taken-Stands [] n j m d s there = absurd (cc)
taken-Stands (e ∷ devs) n j m d s there = rw (take_out-fill_gap j e devs) (record {
  distinct = Distinct-fill_gap j e d devs s.distinct there;
  counted = length-fill_gap j e d devs there ∙ omega (arith, s.counted);
  looked = λ x. ground (arith, id_of-fill_gap j e d devs x s.distinct there, s.looked x);
})

closed-Stands :
    (devs : List Device) (n : ℕ) (m : Ids) (fd : ℕ)
    → Stands devs n m
    → Stands
        (close_restricted fd devs).0
        (n - length (listed (m fd)))
        (λ x. if fd == x then none else m x)
      × ((close_restricted fd devs).1 ≡ listed (m fd))
unfolding close_restricted
closed-Stands devs n m fd s = elim (close_from-Closes fd 0 devs devs) [
  | missing none_there same ↦
      let unknown : m fd ≡ none = sym (s.looked fd) ∙ none_there in
      rw (same, unknown)
        (
          record {
            distinct = s.distinct;
            counted = omega (arith, s.counted);
            looked = λ x. ground (arith, s.looked x, unknown);
          },
          refl,
        )
  | at_entry j d there same_fd same_id gone ↦
      let known : m fd ≡ some d.devid = sym (s.looked fd) ∙ same_id in
      let gone' : close_from fd 0 devs devs ≡ (take_out j devs, d.devid ∷ []) =
        gone ∙ ap (λ (k : ℕ). (take_out k devs, d.devid ∷ [])) (omega arith) in
      rw (gone', known, sym same_fd) (taken-Stands devs n j m d s there, refl)
]

serve-Stands :
    (rs : List Request) (devs : List Device) (n : ℕ) (m : Ids)
    → Stands devs n m
    → Fits n m rs
    → ((fd : ℕ) → id_of (serve rs devs).0 fd ≡ (serve_ids rs m).0 fd)
      × ((serve rs devs).1 ≡ (serve_ids rs m).1)
unfolding serve serve_ids open_restricted
serve-Stands [] devs n m s fits = (s.looked, refl)
serve-Stands (opened id fd ∷ rs) devs n m s (room, fresh, fits) =
    serve-Stands rs (open_restricted (some (id, fd)) devs).0 (suc n)
      (λ x. if fd == x then some id else m x) (opened-Stands devs n m id fd s room fresh) fits
serve-Stands (refused ∷ rs) devs n m s fits = serve-Stands rs devs n m s fits
serve-Stands (closed fd ∷ rs) devs n m s fits =
    let (s', here) = closed-Stands devs n m fd s in
    let (last, more) =
      serve-Stands rs (close_restricted fd devs).0 (n - length (listed (m fd)))
        (λ x. if fd == x then none else m x) s' fits in
    (last, rw (here, more) refl)

-- While at most 64 devices are open at a time and no descriptor is handed out that is still open,
-- the array of `struct input`, where an entry that is closed is overwritten by the last one, is a
-- map from the open descriptors to the ids under which the seat opened them: after any requests of
-- libinput a lookup in the array gives what the map has, and each close of an open descriptor has
-- closed the device with the id under which it was opened, and no other, in the order of the
-- closes.
pub serve-serve_ids :
    (rs : List Request)
    → Fits 0 (λ _. none) rs
    → let (devs, calls) = serve rs [] in
      let (m, wanted) = serve_ids rs (λ _. none) in
      ((fd : ℕ) → id_of devs fd ≡ m fd) × (calls ≡ wanted)
serve-serve_ids rs fits =
    serve-Stands rs [] 0 (λ _. none) (record { distinct = tt; counted = refl; looked = λ _. refl })
      fits
