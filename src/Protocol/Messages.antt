-- ===== src/Protocol/Messages.antt =====
-- include/protocol.h: the datagram of every message that a client can send, and the fields that
-- the server finds in it.
use crystalline_lattice.Common.{
  ℕ, ◌-◌, ◌/◌, ◌%◌, ◌^◌, ◌<◌, ◌≡◌, List, [], ◌∷◌, ◌++◌, length, ℤ, pos, negsuc, ◌≤ℤ◌, u32_of_int,
}
use crystalline_lattice.Protocol.{
  cl_title_max, word, words_bytes, Hello, CreateWindow, SetTitle, Commit, DestroyWindow,
  SetGeometry, SetCursor, read_hello, read_create_window, read_set_title, read_commit,
  read_destroy_window, read_set_geometry, read_set_cursor,
}
use crystalline_lattice.Protocol.MsgType
use crystalline_lattice.Protocol.Size

pub data ClientMessage : Type 0 where
  hello : Hello → ClientMessage
  create_window : CreateWindow → ClientMessage
  set_title : SetTitle → ClientMessage
  commit : Commit → ClientMessage
  destroy_window : DestroyWindow → ClientMessage
  set_geometry : SetGeometry → ClientMessage
  set_cursor : SetCursor → ClientMessage

-- The words of a message: `struct cl_buffer` has four bytes before its `uint64_t`, and `_pad`.
abbrev pub hello_words : Hello → List ℕ
hello_words m = MsgType.hello ∷ m.magic ∷ m.version ∷ m.min_version ∷ m.reconnect_token ∷ []

abbrev pub create_window_words : CreateWindow → List ℕ
create_window_words m =
    MsgType.create_window ∷ m.wid ∷ m.role ∷ u32_of_int m.x ∷ u32_of_int m.y ∷ m.w ∷ m.h ∷ []

abbrev pub commit_words : Commit → List ℕ
commit_words m =
    MsgType.commit
    ∷ m.wid
    ∷ m.buffer.kind
    ∷ m.buffer.width
    ∷ m.buffer.height
    ∷ m.buffer.stride
    ∷ m.buffer.format
    ∷ 0
    ∷ (m.buffer.modifier % 2 ^ 32)
    ∷ (m.buffer.modifier / 2 ^ 32)
    ∷ m.buffer.has_fence
    ∷ 0
    ∷ []

abbrev pub destroy_window_words : DestroyWindow → List ℕ
destroy_window_words m = MsgType.destroy_window ∷ m.wid ∷ []

abbrev pub set_geometry_words : SetGeometry → List ℕ
set_geometry_words m =
    MsgType.set_geometry ∷ m.wid ∷ u32_of_int m.x ∷ u32_of_int m.y ∷ m.w ∷ m.h ∷ []

abbrev pub set_cursor_words : SetCursor → List ℕ
set_cursor_words m =
    MsgType.set_cursor
    ∷ m.width
    ∷ m.height
    ∷ u32_of_int m.hotspot_x
    ∷ u32_of_int m.hotspot_y
    ∷ m.hide
    ∷ []

unfoldable pub client_bytes : ClientMessage → List ℕ
client_bytes (hello m) = words_bytes (hello_words m)
client_bytes (create_window m) = words_bytes (create_window_words m)
client_bytes (set_title m) = words_bytes (MsgType.set_title ∷ m.wid ∷ []) ++ m.title
client_bytes (commit m) = words_bytes (commit_words m)
client_bytes (destroy_window m) = words_bytes (destroy_window_words m)
client_bytes (set_geometry m) = words_bytes (set_geometry_words m)
client_bytes (set_cursor m) = words_bytes (set_cursor_words m)

-- An `int32_t`.
abbrev pub IsInt32 : ℤ → Type 0
IsInt32 i = (negsuc (2 ^ 31 - 1) ≤ℤ i) × (i ≤ℤ pos (2 ^ 31 - 1))

-- The fields of a message have the widths of the struct's.
abbrev pub IsWire : ClientMessage → Type 0
IsWire (hello m) =
    (m.magic < 2 ^ 32)
    × (m.version < 2 ^ 32)
    × (m.min_version < 2 ^ 32)
    × (m.reconnect_token < 2 ^ 32)
IsWire (create_window m) =
    (m.wid < 2 ^ 32)
    × (m.role < 2 ^ 32)
    × IsInt32 m.x
    × IsInt32 m.y
    × (m.w < 2 ^ 32)
    × (m.h < 2 ^ 32)
IsWire (set_title m) = (m.wid < 2 ^ 32) × (length m.title ≡ cl_title_max)
IsWire (commit m) =
    (m.wid < 2 ^ 32)
    × (m.buffer.kind < 2 ^ 32)
    × (m.buffer.width < 2 ^ 32)
    × (m.buffer.height < 2 ^ 32)
    × (m.buffer.stride < 2 ^ 32)
    × (m.buffer.format < 2 ^ 32)
    × (m.buffer.modifier < 2 ^ 64)
    × (m.buffer.has_fence < 2 ^ 32)
IsWire (destroy_window m) = m.wid < 2 ^ 32
IsWire (set_geometry m) =
    (m.wid < 2 ^ 32) × IsInt32 m.x × IsInt32 m.y × (m.w < 2 ^ 32) × (m.h < 2 ^ 32)
IsWire (set_cursor m) =
    (m.width < 2 ^ 32)
    × (m.height < 2 ^ 32)
    × IsInt32 m.hotspot_x
    × IsInt32 m.hotspot_y
    × (m.hide < 2 ^ 32)

-- What the server makes of a datagram of the message's type: its type word, `sizeof` of the
-- struct, and the struct.
abbrev pub IsReadAs : ClientMessage → List ℕ → Type 0
IsReadAs (hello m) b = (word 0 b ≡ MsgType.hello) × (length b ≡ Size.hello) × (read_hello b ≡ m)
IsReadAs (create_window m) b =
    (word 0 b ≡ MsgType.create_window)
    × (length b ≡ Size.create_window)
    × (read_create_window b ≡ m)
IsReadAs (set_title m) b =
    (word 0 b ≡ MsgType.set_title) × (length b ≡ Size.set_title) × (read_set_title b ≡ m)
IsReadAs (commit m) b = (word 0 b ≡ MsgType.commit) × (length b ≡ Size.commit) × (read_commit b ≡ m)
IsReadAs (destroy_window m) b =
    (word 0 b ≡ MsgType.destroy_window)
    × (length b ≡ Size.destroy_window)
    × (read_destroy_window b ≡ m)
IsReadAs (set_geometry m) b =
    (word 0 b ≡ MsgType.set_geometry) × (length b ≡ Size.set_geometry) × (read_set_geometry b ≡ m)
IsReadAs (set_cursor m) b =
    (word 0 b ≡ MsgType.set_cursor) × (length b ≡ Size.set_cursor) × (read_set_cursor b ≡ m)
