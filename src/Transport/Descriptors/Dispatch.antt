-- ===== src/Transport/Descriptors/Dispatch.antt =====
-- Every path of `dispatch` in src/transport.c, and the descriptors that it closes.
use crystalline_lattice.Common.{
  ℕ, ◌≡◌, Bool, ◌&&◌, List, ◌++◌, arith, leb, ◌==◌, if◌then◌else◌, length, Bool-cases, inl, inr,
}
use crystalline_lattice.Protocol.{
  word, read_commit, read_create_window, read_destroy_window, read_set_cursor, read_hello, Hello,
}
use crystalline_lattice.Protocol.MsgType
use crystalline_lattice.Protocol.Size
use crystalline_lattice.Transport.{Transport, close_fds, client_at, send_to}
use crystalline_lattice.Transport.Handlers.{on_create_window, on_destroy_window}
use crystalline_lattice.Transport.Dispatch.{
  Answers, dispatch, handle, handshake, greet, welcome_message, accepts,
}
use crystalline_lattice.Transport.Descriptors.{
  closed, fence_closed, quiet_then_close, closed-close_fds, closed-send_to, closed-on_create_window,
  closed-on_commit, closed-on_destroy_window, closed-on_set_cursor,
}

-- Whether a datagram is a COMMIT of the whole length.
abbrev pub is_commit : List ℕ → Bool
is_commit b = word 0 b == MsgType.commit && leb Size.commit (length b)

closed-handshake :
    (t : Transport) (i : ℕ) (h : Hello) (fds : List ℕ) → closed (handshake t i h fds).effects ≡ fds
unfolding handshake
closed-handshake t i h fds = elim (Bool-cases (accepts h)) [
  | inr e ↦ rw e (closed-close_fds fds)
  | inl e ↦
      let t' = greet t i h.reconnect_token in
      let c = client_at t' i in
      rw e (
        quiet_then_close (send_to c (welcome_message t' c.token)) fds
          (closed-send_to c (welcome_message t' c.token)))
]

closed-handle :
    (t : Transport) (i type : ℕ) (b fds : List ℕ) (answers : Answers)
    → closed (handle t i type b fds answers).effects ≡ (
        if type == MsgType.commit && leb Size.commit (length b)
        then fence_closed (read_commit b) fds
        else fds)
unfolding handle
closed-handle t i type b fds answers =
    let quiet : closed (close_fds fds) ≡ fds = closed-close_fds fds in
    let created : closed ((on_create_window t i (read_create_window b)).1 ++ close_fds fds) ≡ fds =
      quiet_then_close (on_create_window t i (read_create_window b)).1 fds
        (closed-on_create_window t i (read_create_window b)) in
    let destroyed : closed ((on_destroy_window t i (read_destroy_window b)).1 ++ close_fds fds)
        ≡ fds =
      quiet_then_close (on_destroy_window t i (read_destroy_window b)).1 fds
        (closed-on_destroy_window t i (read_destroy_window b)) in
    let committed = closed-on_commit t i (read_commit b) fds answers.buffer in
    let pointed = closed-on_set_cursor t (read_set_cursor b) fds answers.pixels in ground arith

-- Whichever client a datagram comes from and whatever it holds, dispatch closes exactly the
-- descriptors that came with it, in their order, except for a COMMIT of the whole length from a
-- client past its HELLO: there it closes none where none came, the first where one came, and of two or more
-- the first and, where the message announces a fence, the second as well, the fence first.
pub dispatch-closed :
    (t : Transport) (i : ℕ) (b fds : List ℕ) (answers : Answers)
    → closed (dispatch t i b fds answers).effects ≡ (
        if (client_at t i).hello && leb 4 (length b) && is_commit b
        then fence_closed (read_commit b) fds
        else fds)
unfolding dispatch
dispatch-closed t i b fds answers =
    let quiet : closed (close_fds fds) ≡ fds = closed-close_fds fds in
    let met = closed-handshake t i (read_hello b) fds in
    let handled = closed-handle t i (word 0 b) b fds answers in ground arith
