-- ===== src/Protocol/MsgType.antt =====
-- `enum cl_msg_type` of include/protocol.h.
use crystalline_lattice.Common.{ℕ}

abbrev pub hello : ℕ
hello = 1

abbrev pub create_window : ℕ
create_window = 2

abbrev pub set_title : ℕ
set_title = 3

abbrev pub commit : ℕ
commit = 4

abbrev pub destroy_window : ℕ
destroy_window = 5

abbrev pub set_geometry : ℕ
set_geometry = 6

abbrev pub set_cursor : ℕ
set_cursor = 7

abbrev pub welcome : ℕ
welcome = 128

abbrev pub configure : ℕ
configure = 129

abbrev pub focus : ℕ
focus = 130

abbrev pub input : ℕ
input = 132

abbrev pub screen : ℕ
screen = 133
