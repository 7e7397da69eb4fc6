-- ===== src/Protocol/Link.antt =====
-- src/protocol.c: one datagram with its descriptors, sent and received. What the kernel answers to
-- each call in a row is an argument.
use crystalline_lattice.Common.{
  ℕ, zero, suc, ◌-◌, ◌==◌, ◌≤◌, ◌<◌, ◌≡◌, refl, sym, ap, ◌∙◌, Bool, true, false, ◌||◌, Option, none,
  some, List, [], ◌∷◌, ◌++◌, arith, length, take, drop, if◌then◌else◌, ℤ, pos, negsuc, ltb_ℤ,
  take-append, take_whole,
}
use mathlib.Core.List.{append-nil}
use crystalline_lattice.Protocol.{cl_max_fds}

-- A control message: descriptors, or of another kind.
pub data Control : Type 0 where
  rights : List ℕ → Control
  other_control : Control

-- What `recvmsg` answers: it was interrupted, it failed or the peer is gone (the number that it
-- returns), or it read a datagram, with its control messages and whether they were truncated.
pub data Received : Type 0 where
  interrupted : Received
  nothing_read : ℤ → Received
  datagram : List ℕ → List Control → Bool → Received

-- The caller's `fds` after `memcpy(fds, CMSG_DATA(c), sizeof(int) * got)`.
abbrev write_front : List ℕ → List ℕ → List ℕ
write_front new old = new ++ drop (length new) old

-- The loop over the control messages: `got`, and the caller's array where it gives one.
unfoldable pub take_rights : List Control → ℕ × Option (List ℕ) → ℕ × Option (List ℕ)
take_rights [] s = s
take_rights (other_control ∷ cs) s = take_rights cs s
take_rights (rights received ∷ cs) (got, none) =
    take_rights cs (length (take cl_max_fds received), none)
take_rights (rights received ∷ cs) (got, some fds) =
    let new = take cl_max_fds received in take_rights cs (length new, some (write_front new fds))

-- What `cl_recv` returns: the result, `*nfds`, the caller's array, and the descriptors it closes.
pub record Receipt : Type 0 where
  pub returned : ℤ
  pub nfds : ℕ
  pub fds : Option (List ℕ)
  pub closed : List ℕ

abbrev closed_of : ℕ × Option (List ℕ) → List ℕ
closed_of (got, none) = []
closed_of (got, some fds) = take got fds

unfoldable pub accept_rights : List ℕ → ℕ × Option (List ℕ) → Bool → Receipt
accept_rights bytes s true = record {
  returned = pos (length bytes);
  nfds = 0;
  fds = s.1;
  closed = closed_of s;
}
accept_rights bytes s false = record {
  returned = pos (length bytes);
  nfds = s.0;
  fds = s.1;
  closed = [];
}

-- `cl_recv` with the caller's array, none for NULL. The call is made again for as long as it is
-- interrupted: `fuel` bounds the calls, and `none` is a call too many.
unfoldable pub cl_recv : ℕ → (ℕ → Received) → Option (List ℕ) → Option Receipt
cl_recv zero answers fds = none
cl_recv (suc fuel) answers fds = elim (answers 0) [
  | interrupted ↦ cl_recv fuel (λ n. answers (suc n)) fds
  | nothing_read r ↦ some (record { returned = r; nfds = 0; fds = fds; closed = [] })
  | datagram bytes controls truncated ↦
      if length bytes == 0
      then some (record { returned = pos 0; nfds = 0; fds = fds; closed = [] })
      else some (accept_rights bytes (take_rights controls (0, fds)) truncated)
]

-- What is to be sent: the bytes and the descriptors that ride along.
pub record Datagram : Type 0 where
  pub bytes : List ℕ
  pub riders : List ℕ

-- `cl_send`: `sent` is what each call of `sendmsg` answers, none where it is interrupted. The
-- result is whether it returns 0, and the datagram that was given to the kernel, if any.
unfoldable pub cl_send :
    ℕ → (ℕ → Option Bool) → List ℕ → List ℕ → ℤ → Option (Bool × Option Datagram)
cl_send zero sent msg fds nfds = none
cl_send (suc fuel) sent msg fds nfds =
    let again = cl_send fuel (λ n. sent (suc n)) msg fds nfds in
    if ltb_ℤ nfds (pos 0) || ltb_ℤ (pos cl_max_fds) nfds
    then some (false, none)
    else elim (sent 0) [
      | none ↦ again
      | some ok ↦ some (ok, some (record { bytes = msg; riders = take (count_of nfds) fds }))
    ]
  where
    count_of : ℤ → ℕ
    count_of (pos n) = n
    count_of (negsuc n) = 0

-- "glacier-0" and "/tmp"
abbrev socket_name : List ℕ
socket_name = 103 ∷ 108 ∷ 97 ∷ 99 ∷ 105 ∷ 101 ∷ 114 ∷ 45 ∷ 48 ∷ []

abbrev pub tmp : List ℕ
tmp = 47 ∷ 116 ∷ 109 ∷ 112 ∷ []

-- A variable of the environment that is set and not empty.
abbrev pub or_path : Option (List ℕ) → List ℕ → (List ℕ → List ℕ) → List ℕ
or_path none other path = other
or_path (some []) other path = other
or_path (some (c ∷ cs)) other path = path (c ∷ cs)

-- `cl_default_socket_path` with `CL_SOCKET_ENV` and `XDG_RUNTIME_DIR` of the environment.
unfoldable pub cl_default_socket_path : Option (List ℕ) → Option (List ℕ) → ℕ → List ℕ
cl_default_socket_path given runtime_dir len =
    or_path given (take (len - 1) (or_path runtime_dir tmp (λ dir. dir) ++ 47 ∷ socket_name))
      (λ path. take (len - 1) path)

-- The descriptors that came with the control messages, and how many messages brought some.
abbrev pub rights_of : List Control → List ℕ
rights_of [] = []
rights_of (other_control ∷ cs) = rights_of cs
rights_of (rights received ∷ cs) = received ++ rights_of cs

abbrev pub count_rights : List Control → ℕ
count_rights [] = 0
count_rights (other_control ∷ cs) = count_rights cs
count_rights (rights received ∷ cs) = suc (count_rights cs)

abbrev pub is_interrupted : Received → Bool
is_interrupted interrupted = true
is_interrupted _ = false

-- The kernel interrupts the first calls, as many as the number says, and then answers.
abbrev pub AnswersAt : ℕ → (ℕ → Received) → Received → Type 0
AnswersAt zero answers a = (answers 0 ≡ a) × (is_interrupted a ≡ false)
AnswersAt (suc n) answers a = (answers 0 ≡ interrupted) × AnswersAt n (λ i. answers (suc i)) a

-- The control buffer has room for one message with `CL_MAX_FDS` descriptors.
abbrev pub IsRoomFor : Received → Type 0
IsRoomFor (datagram bytes controls truncated) =
    (count_rights controls ≤ 1) × (length (rights_of controls) ≤ cl_max_fds)
IsRoomFor _ = Unit

-- What the caller has in its array, as far as `*nfds` goes.
abbrev pub delivered : Receipt → List ℕ
delivered r = elim r.fds [ none ↦ [] | some fds ↦ take r.nfds fds ]

-- The result for the answer, with each descriptor either handed to the caller or closed, unless
-- the datagram is empty.
abbrev pub IsReceiptFor : Received → Receipt → Type 0
IsReceiptFor interrupted r = ⊥
IsReceiptFor (nothing_read n) r =
    (r.returned ≡ n) × (r.nfds ≡ 0) × (delivered r ≡ []) × (r.closed ≡ [])
IsReceiptFor (datagram [] controls truncated) r =
    (r.returned ≡ pos 0) × (r.nfds ≡ 0) × (delivered r ≡ []) × (r.closed ≡ [])
IsReceiptFor (datagram (b ∷ bytes) controls truncated) r =
    (r.returned ≡ pos (length (b ∷ bytes)))
    × (r.nfds ≡ length (delivered r))
    × (delivered r ≡ (if truncated then [] else rights_of controls))
    × (r.closed ≡ (if truncated then rights_of controls else []))

no_rights :
    (cs : List Control) (s : ℕ × Option (List ℕ))
    → count_rights cs ≤ 0
    → take_rights cs s ≡ s × rights_of cs ≡ []
unfolding take_rights
no_rights [] s h = (refl, refl)
no_rights (other_control ∷ cs) s h = no_rights cs s h
no_rights (rights received ∷ cs) s h = absurd (omega arith)

take_rights-one :
    (cs : List Control) (fds : List ℕ)
    → count_rights cs ≤ 1
    → length (rights_of cs) ≤ cl_max_fds
    → take_rights cs (0, some fds) ≡ (length (rights_of cs), some (write_front (rights_of cs) fds))
unfolding take_rights
take_rights-one [] fds one few = refl
take_rights-one (other_control ∷ cs) fds one few = take_rights-one cs fds one few
take_rights-one (rights received ∷ cs) fds one few =
    let (same, no_more) =
      no_rights cs (length received, some (write_front received fds)) (omega arith) in
    let whole : received ++ rights_of cs ≡ received =
      ap (λ r. received ++ r) no_more ∙ append-nil received in
    let short : length received ≤ cl_max_fds = rw whole at few in
    rw (take_whole cl_max_fds received short, whole) same

accept_rights-IsReceiptFor :
    (b : ℕ) (bytes : List ℕ) (cs : List Control) (truncated : Bool) (fds : List ℕ)
    → IsRoomFor (datagram (b ∷ bytes) cs truncated)
    → IsReceiptFor
        (datagram (b ∷ bytes) cs truncated)
        (accept_rights (b ∷ bytes) (take_rights cs (0, some fds)) truncated)
unfolding accept_rights
accept_rights-IsReceiptFor b bytes cs true fds (one, few) =
    rw (take_rights-one cs fds one few) (refl, refl, refl, take-append (rights_of cs) _)
accept_rights-IsReceiptFor b bytes cs false fds (one, few) =
    let front = take-append (rights_of cs) (drop (length (rights_of cs)) fds) in
    rw (take_rights-one cs fds one few) (refl, ap length (sym front), front, refl)

-- `cl_recv` returns as soon as the kernel answers with something else than an interruption: any
-- number of calls above that of the interruptions is enough. It then returns what the kernel
-- answered; every descriptor that came with a datagram of at least one byte is handed to the caller, who is told how
-- many there are, or, where the control message was truncated, closed. The caller gives an array,
-- and the kernel puts the descriptors in one message, at most as many as there is room for. An empty datagram is
-- returned as one without descriptors: none is handed over and none is closed.
pub cl_recv_lem :
    (n fuel : ℕ) (answers : ℕ → Received) (a : Received) (fds : List ℕ)
    → AnswersAt n answers a
    → IsRoomFor a
    → n < fuel
    → (r : Receipt) × (cl_recv fuel answers (some fds) ≡ some r) × IsReceiptFor a r
unfolding cl_recv
cl_recv_lem n zero answers a fds at room enough = absurd (omega arith)
cl_recv_lem zero (suc fuel) answers interrupted fds (e, h) room enough = absurd (cc)
cl_recv_lem zero (suc fuel) answers (nothing_read z) fds (e, h) room enough =
    rw (e, cl_recv) (_, refl, (refl, refl, refl, refl))
cl_recv_lem zero (suc fuel) answers (datagram [] cs truncated) fds (e, h) room enough =
    rw (e, cl_recv) (_, refl, (refl, refl, refl, refl))
cl_recv_lem zero (suc fuel) answers (datagram (b ∷ bytes) cs truncated) fds (e, h) room enough =
    let some_bytes : (length (b ∷ bytes) == 0) ≡ false = ground arith in
    rw (e, some_bytes, cl_recv) (_, refl, accept_rights-IsReceiptFor b bytes cs truncated fds room)
cl_recv_lem (suc n) (suc fuel) answers a fds (e, at) room enough =
    rw (e, cl_recv) (cl_recv_lem n fuel (λ i. answers (suc i)) a fds at room (omega arith))
