-- ===== src/Protocol/Tests.antt =====
-- The theorems on include/protocol.h and src/protocol.c, each at a concrete datagram.
use crystalline_lattice.Common.{ℕ, zero, suc, ◌≡◌, refl, true, some, [], ◌∷◌, arith}
use crystalline_lattice.Protocol.Link.{
  Received, interrupted, datagram, rights, other_control, Receipt, cl_recv, IsReceiptFor,
  cl_recv_lem,
}

-- Two interruptions, then a datagram with one descriptor in a truncated control message.
abbrev answers : ℕ → Received
answers zero = interrupted
answers (suc zero) = interrupted
answers (suc (suc n)) = datagram (1 ∷ 2 ∷ []) (other_control ∷ rights (7 ∷ []) ∷ []) true

cl_recv_lem_example :
    (r : Receipt) × (cl_recv 5 answers (some (0 ∷ 0 ∷ [])) ≡ some r) × IsReceiptFor (answers 2) r
cl_recv_lem_example =
    cl_recv_lem 2 5 answers (answers 2) (0 ∷ 0 ∷ []) (refl, (refl, (refl, refl)))
      (omega arith, omega arith) (omega arith)
