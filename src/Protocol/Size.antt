-- ===== src/Protocol/Size.antt =====
-- `sizeof` of each request of include/protocol.h, with its `type` word and the padding of
-- `struct cl_buffer`, which starts at an offset that its `uint64_t` aligns; and
-- `offsetof(struct cl_hello, reconnect_token)`.
use crystalline_lattice.Common.{ℕ}

abbrev pub hello : ℕ
hello = 20

abbrev pub hello_v1 : ℕ
hello_v1 = 16

abbrev pub create_window : ℕ
create_window = 28

abbrev pub set_title : ℕ
set_title = 72

abbrev pub commit : ℕ
commit = 48

abbrev pub destroy_window : ℕ
destroy_window = 8

abbrev pub set_geometry : ℕ
set_geometry = 24

abbrev pub set_cursor : ℕ
set_cursor = 24
