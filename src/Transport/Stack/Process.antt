-- ===== src/Transport/Stack/Process.antt =====
-- The loops of `transport_process` in src/transport.c, round after round.
use crystalline_lattice.Common.{
  ℕ, suc, ◌+◌, ◌-◌, ◌^◌, ◌≤◌, ◌<◌, ◌≡◌, refl, ◌∙◌, Bool, List, [], ◌∷◌, arith, length, ◌==◌,
  Bool-cases, Option-cases, inl, inr, ℤ,
}
use crystalline_lattice.Window
use crystalline_lattice.Window.{Window, WindowStack}
use crystalline_lattice.Window.Invariant.{IsValid, init-IsValid}
use crystalline_lattice.Transport.{Transport}
use crystalline_lattice.Transport.Session.{orphans_expire, create, add_client}
use crystalline_lattice.Transport.Dispatch.{
  dispatch, Received, datagram, would_block, ended, client_readable, Ready, accepting, hung_up,
  readable, client_by_fd, accept_pending, serve, serve_all, process,
}
use crystalline_lattice.Transport.Room.{Fits}
use crystalline_lattice.Transport.Stack.Rounds.{
  dispatch-Fits, client_drop-Fits, orphans_expire-Fits,
}

-- How many datagrams there are.
abbrev pub datagrams : List Received → ℕ
datagrams [] = 0
datagrams (datagram b fds answers ∷ rs) = suc (datagrams rs)
datagrams (would_block ∷ rs) = datagrams rs
datagrams (ended ∷ rs) = datagrams rs

abbrev pub ready_datagrams : List Ready → ℕ
ready_datagrams [] = 0
ready_datagrams (accepting fds ∷ es) = ready_datagrams es
ready_datagrams (hung_up fd ∷ es) = ready_datagrams es
ready_datagrams (readable fd rs ∷ es) = datagrams rs + ready_datagrams es

abbrev pub all_datagrams : List (ℕ × List Ready) → ℕ
all_datagrams [] = 0
all_datagrams ((now, events) ∷ rounds) = ready_datagrams events + all_datagrams rounds

-- One call of `transport_process` for each round, each with the clock and the events that it finds.
unfoldable pub run : List (ℕ × List Ready) → Transport → Transport
run [] t = t
run ((now, events) ∷ rounds) t = run rounds (process t now events).0

Fits-weaken : (m n : ℕ) (s : WindowStack) → m ≤ n → Fits n s → Fits m s
Fits-weaken m n s h (valid, fits) = (valid, omega arith)

client_readable-Fits :
    (room : ℕ) (t : Transport) (i now : ℕ) (rs : List Received)
    → Fits (datagrams rs + room) t.stack
    → Fits room (client_readable t i now rs).0.stack
unfolding client_readable
client_readable-Fits room t i now [] fits = Fits-weaken room (0 + room) t.stack (omega arith) fits
client_readable-Fits room t i now (would_block ∷ rs) fits =
    Fits-weaken room (datagrams rs + room) t.stack (omega arith) fits
client_readable-Fits room t i now (ended ∷ rs) fits =
    client_drop-Fits room t i now
      (Fits-weaken room (datagrams rs + room) t.stack (omega arith) fits)
client_readable-Fits room t i now (datagram b fds answers ∷ rs) fits =
    let o = dispatch t i b fds answers in
    let now_fits =
      Fits-weaken (suc (datagrams rs + room)) (suc (datagrams rs) + room) t.stack (omega arith)
        fits in
    let left = dispatch-Fits (datagrams rs + room) t i b fds answers now_fits in
    elim (Bool-cases (length b == 0)) [
      | inl empty ↦ rw empty (
          client_drop-Fits room t i now
            (Fits-weaken room (suc (datagrams rs) + room) t.stack (omega arith) fits))
      | inr some_bytes ↦ elim (Bool-cases o.alive) [
        | inl e ↦ rw (some_bytes, e) (client_readable-Fits room o.state i now rs left)
        | inr e ↦
            rw (some_bytes, e)
              (client_drop-Fits room o.state i now
                (Fits-weaken room (datagrams rs + room) o.state.stack (omega arith) left))
      ]
    ]

accept_pending-stack :
    (t : Transport) (fds : List (ℕ × Bool)) → (accept_pending t fds).0.stack ≡ t.stack
unfolding accept_pending add_client
accept_pending-stack t [] = refl
accept_pending-stack t ((fd, registered) ∷ rest) =
    accept_pending-stack (add_client t fd registered).0 rest ∙ ground arith

serve-Fits :
    (room : ℕ) (t : Transport) (now : ℕ) (e : Ready) (es : List Ready)
    → Fits (ready_datagrams (e ∷ es) + room) t.stack
    → Fits (ready_datagrams es + room) (serve t now e).0.stack
unfolding serve
serve-Fits room t now (accepting fds) es fits = rw accept_pending-stack fits
serve-Fits room t now (hung_up fd) es fits = elim (Option-cases (client_by_fd t fd)) [
  | inl e ↦ rw (e, serve) fits
  | inr (i, e) ↦ rw (e, serve) (client_drop-Fits (ready_datagrams es + room) t i now fits)
]
serve-Fits room t now (readable fd rs) es fits =
    let later = ready_datagrams es + room in
    let total : (datagrams rs + ready_datagrams es) + room ≡ datagrams rs + later = omega arith in
    let fits' : Fits (datagrams rs + later) t.stack = rw total at fits in
    elim (Option-cases (client_by_fd t fd)) [
      | inl e ↦ rw (e, serve) (Fits-weaken later (datagrams rs + later) t.stack (omega arith) fits')
      | inr (i, e) ↦ rw (e, serve) (client_readable-Fits later t i now rs fits')
    ]

serve_all-Fits :
    (room : ℕ) (t : Transport) (now : ℕ) (es : List Ready)
    → Fits (ready_datagrams es + room) t.stack
    → Fits room (serve_all t now es).0.stack
unfolding serve_all
serve_all-Fits room t now [] fits = Fits-weaken room (0 + room) t.stack (omega arith) fits
serve_all-Fits room t now (e ∷ es) fits =
    serve_all-Fits room (serve t now e).0 now es (serve-Fits room t now e es fits)

pub process-Fits :
    (room : ℕ) (t : Transport) (now : ℕ) (es : List Ready)
    → Fits (ready_datagrams es + room) t.stack
    → Fits room (process t now es).0.stack
unfolding process
process-Fits room t now es fits =
    serve_all-Fits room (orphans_expire t now).0 now es
      (orphans_expire-Fits (ready_datagrams es + room) t now fits)

run-Fits :
    (rounds : List (ℕ × List Ready)) (t : Transport)
    → Fits (all_datagrams rounds) t.stack
    → IsValid (run rounds t).stack
unfolding run
run-Fits [] t fits = fits.0
run-Fits ((now, es) ∷ rounds) t fits =
    run-Fits rounds (process t now es).0 (process-Fits (all_datagrams rounds) t now es fits)

-- Whatever the clients do in any rounds of the transport that start from a fresh transport and a
-- fresh stack, connect, hang up or send any datagrams with any descriptors, fewer than 2 ^ 32 - 1
-- datagrams in all, and whatever the kernel answers, the window stack is well formed at the end: at
-- most 64 windows, with nonzero ids that are all different and below the next id, and the focus 0 or
-- on a window that is there.
pub run_lem :
    (sw sh : ℤ) (rounds : List (ℕ × List Ready))
    → all_datagrams rounds < 2 ^ 32 - 1
    → IsValid (run rounds (create Window.init sw sh)).stack
run_lem sw sh rounds room =
    run-Fits rounds (create Window.init sw sh)
      (unfold create Window.init in (init-IsValid, omega arith))
