-- ===== src/Transport/Handshake.antt =====
-- What a client may do before its HELLO, in `dispatch` of src/transport.c.
use crystalline_lattice.Common.{ℕ, ◌≡◌, false, ◌&&◌, List, arith, leb, ◌==◌, length}
use crystalline_lattice.Protocol.{word, read_hello, cl_magic}
use crystalline_lattice.Transport.{Transport, client_at}
use crystalline_lattice.Transport.Dispatch.{Answers, dispatch, handshake, accepts, negotiated}

-- A client that has not said HELLO stays exactly where its datagram has the 16 bytes of the first version's
-- HELLO, the type and the magic number of one, and offers at least version 1, and at least the
-- lowest version that it asks for itself, which is not above 2. Where it does not stay, the state of
-- the transport is as before.
pub dispatch-gate :
    (t : Transport) (i : ℕ) (b fds : List ℕ) (answers : Answers)
    → (client_at t i).hello ≡ false
    → ((dispatch t i b fds answers).alive ≡ (
        leb 16 (length b)
        && word 0 b == 1
        && word 1 b == cl_magic
        && leb 1 (word 2 b)
        && leb (word 3 b) (word 2 b)
        && leb (word 3 b) 2))
      × ((dispatch t i b fds answers).alive ≡ false → (dispatch t i b fds answers).state ≡ t)
unfolding dispatch handshake accepts negotiated read_hello
dispatch-gate t i b fds answers silent = (ground arith, λ refused. ground arith)
