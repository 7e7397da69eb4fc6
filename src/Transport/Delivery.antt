-- ===== src/Transport/Delivery.antt =====
-- src/transport.c, `dispatch` and `handle`: what becomes of each message that a client sends.
use crystalline_lattice.Common.{
  ℕ, ◌≡◌, refl, true, false, List, [], length, ltb, ◌==◌, if◌then◌else◌, not, ◌||◌,
}
use crystalline_lattice.Protocol.{word, read_hello}
use crystalline_lattice.Protocol.MsgType
use crystalline_lattice.Protocol.Size
use crystalline_lattice.Protocol.Messages.{
  ClientMessage, hello, create_window, set_title, commit, destroy_window, set_geometry, set_cursor,
  client_bytes, IsWire, IsReadAs,
}
use crystalline_lattice.Protocol.Reading.{client_bytes-IsReadAs}
use crystalline_lattice.Transport.{Transport, client_at}
use crystalline_lattice.Transport.Handlers.{
  on_create_window, on_set_title, on_commit, on_destroy_window, on_set_geometry, on_set_cursor,
}
use crystalline_lattice.Transport.Dispatch.{
  Answers, Outcome, outcome, closing, refuse, handle, dispatch, handshake,
}

-- The handler of a message from a client that has been greeted, and whether the caller looks for
-- another datagram. A second hello changes nothing.
abbrev pub handler : Transport → ℕ → ClientMessage → List ℕ → Answers → Outcome
handler t i (hello m) fds answers = outcome (closing fds (t, [])) false
handler t i (create_window m) fds answers = outcome (closing fds (on_create_window t i m)) true
handler t i (set_title m) fds answers = outcome (closing fds (on_set_title t i m, [])) false
handler t i (commit m) fds answers = outcome (on_commit t i m fds answers.buffer) true
handler t i (destroy_window m) fds answers = outcome (closing fds (on_destroy_window t i m)) true
handler t i (set_geometry m) fds answers = outcome (closing fds (on_set_geometry t i m, [])) true
handler t i (set_cursor m) fds answers = outcome (on_set_cursor t m fds answers.pixels) true

-- A client that has not been greeted may only say hello.
abbrev pub first_handler : Transport → ℕ → ClientMessage → List ℕ → Outcome
first_handler t i (hello m) fds = handshake t i m fds
first_handler t i _ fds = refuse t fds

-- `handle` and `dispatch`, given what the server reads in the datagram.
handle-IsReadAs :
    (t : Transport) (i : ℕ) (m : ClientMessage) (b fds : List ℕ) (answers : Answers)
    → IsReadAs m b
    → handle t i (word 0 b) b fds answers ≡ handler t i m fds answers
unfolding handle
handle-IsReadAs t i (hello m) b fds answers (type, size, read) = rw type refl
handle-IsReadAs t i (create_window m) b fds answers (type, size, read) = rw (type, size, read) refl
handle-IsReadAs t i (set_title m) b fds answers (type, size, read) = rw (type, size, read) refl
handle-IsReadAs t i (commit m) b fds answers (type, size, read) = rw (type, size, read) refl
handle-IsReadAs t i (destroy_window m) b fds answers (type, size, read) = rw (type, size, read) refl
handle-IsReadAs t i (set_geometry m) b fds answers (type, size, read) = rw (type, size, read) refl
handle-IsReadAs t i (set_cursor m) b fds answers (type, size, read) = rw (type, size, read) refl

first-IsReadAs :
    (t : Transport) (i : ℕ) (m : ClientMessage) (b fds : List ℕ)
    → IsReadAs m b
    → (if not (word 0 b == MsgType.hello) || ltb (length b) Size.hello_v1
        then refuse t fds
        else handshake t i (read_hello b) fds)
      ≡ first_handler t i m fds
first-IsReadAs t i (hello m) b fds (type, size, read) = rw (type, size, read) refl
first-IsReadAs t i (create_window m) b fds (type, size, read) = rw type refl
first-IsReadAs t i (set_title m) b fds (type, size, read) = rw type refl
first-IsReadAs t i (commit m) b fds (type, size, read) = rw type refl
first-IsReadAs t i (destroy_window m) b fds (type, size, read) = rw type refl
first-IsReadAs t i (set_geometry m) b fds (type, size, read) = rw type refl
first-IsReadAs t i (set_cursor m) b fds (type, size, read) = rw type refl

long_enough : (m : ClientMessage) (b : List ℕ) → IsReadAs m b → ltb (length b) 4 ≡ false
long_enough (hello m) b (type, size, read) = rw size refl
long_enough (create_window m) b (type, size, read) = rw size refl
long_enough (set_title m) b (type, size, read) = rw size refl
long_enough (commit m) b (type, size, read) = rw size refl
long_enough (destroy_window m) b (type, size, read) = rw size refl
long_enough (set_geometry m) b (type, size, read) = rw size refl
long_enough (set_cursor m) b (type, size, read) = rw size refl

-- A message whose fields have the widths of its struct arrives as it was sent: the server makes of
-- its datagram exactly what its handler makes of the message itself, every field as the client set
-- it, where the client has been greeted. Until then a HELLO comes to the handshake with its fields,
-- and any other message loses the client its connection, with the state as before and the
-- descriptors of the datagram closed.
pub dispatch-client_bytes :
    (t : Transport) (i : ℕ) (m : ClientMessage) (fds : List ℕ) (answers : Answers)
    → IsWire m
    → dispatch t i (client_bytes m) fds answers
      ≡ (if (client_at t i).hello then handler t i m fds answers else first_handler t i m fds)
unfolding dispatch
dispatch-client_bytes t i m fds answers fit =
    let b = client_bytes m in
    let read = client_bytes-IsReadAs m fit in
    rw
      (
        long_enough m b read,
        handle-IsReadAs t i m b fds answers read,
        first-IsReadAs t i m b fds read,
      )
      refl
