-- ===== src/Protocol/Reading.antt =====
-- include/protocol.h: each message of a client is read back from its datagram.
use crystalline_lattice.Common.{
  ℕ, ◌+◌, ◌*◌, ◌/◌, ◌%◌, ◌^◌, ◌<◌, ◌≡◌, refl, sym, ap, ◌∙◌, List, [], ◌∷◌, ◌++◌, arith, get_or,
  length, All, ℤ, u32_of_int, int_of_u32, int_of_u32-u32_of_int, take_whole,
}
use mathlib.Core.List.{append-nil}
use crystalline_lattice.Protocol.{
  cl_title_max, word, words_bytes, Hello, CreateWindow, SetTitle, Commit, DestroyWindow,
  SetGeometry, SetCursor, read_hello, read_create_window, read_set_title, read_commit,
  read_destroy_window, read_set_geometry, read_set_cursor,
}
use crystalline_lattice.Protocol.MsgType
use crystalline_lattice.Protocol.RoundTrip.{word-words_bytes}
use crystalline_lattice.Protocol.Messages.{
  ClientMessage, hello, create_window, set_title, commit, destroy_window, set_geometry, set_cursor,
  hello_words, create_window_words, commit_words, destroy_window_words, set_geometry_words,
  set_cursor_words, client_bytes, IsInt32, IsWire, IsReadAs,
}

-- Every word of a structure of words is read back.
words_read :
    (ns : List ℕ)
    → All (λ n. n < 2 ^ 32) ns
    → (i : ℕ) → i < length ns
    → word i (words_bytes ns) ≡ get_or ns i 0
words_read ns fit i h =
    ap (word i) (sym (append-nil (words_bytes ns))) ∙ word-words_bytes ns i [] fit h

u32_of_int-fits : (i : ℤ) → u32_of_int i < 2 ^ 32
unfolding u32_of_int
u32_of_int-fits i = omega arith

int_read : (i : ℤ) → IsInt32 i → int_of_u32 (u32_of_int i) ≡ i
int_read i (lo, hi) = int_of_u32-u32_of_int i lo hi

hello-IsReadAs : (m : Hello) → IsWire (hello m) → IsReadAs (hello m) (words_bytes (hello_words m))
unfolding read_hello words_bytes
hello-IsReadAs m (magic, version, lowest, token) =
    let read =
      words_read (hello_words m) (omega arith, (magic, (version, (lowest, (token, tt))))) in
    (
      read 0 (omega arith),
      refl,
      rw (read 1 (omega arith), read 2 (omega arith), read 3 (omega arith), read 4 (omega arith))
          refl,
    )

create_window-IsReadAs :
    (m : CreateWindow)
    → IsWire (create_window m)
    → IsReadAs (create_window m) (words_bytes (create_window_words m))
unfolding read_create_window words_bytes
create_window-IsReadAs m (wid, role, x, y, w, h) =
    let read =
      words_read (create_window_words m)
        (omega arith, (wid, (role, (u32_of_int-fits m.x, (u32_of_int-fits m.y, (w, (h, tt))))))) in
    (
      read 0 (omega arith),
      refl,
      rw
          (
            read 1 (omega arith),
            read 2 (omega arith),
            read 3 (omega arith),
            read 4 (omega arith),
            read 5 (omega arith),
            read 6 (omega arith),
            int_read m.x x,
            int_read m.y y,
          )
          refl,
    )

set_geometry-IsReadAs :
    (m : SetGeometry)
    → IsWire (set_geometry m)
    → IsReadAs (set_geometry m) (words_bytes (set_geometry_words m))
unfolding read_set_geometry words_bytes
set_geometry-IsReadAs m (wid, x, y, w, h) =
    let read =
      words_read (set_geometry_words m)
        (omega arith, (wid, (u32_of_int-fits m.x, (u32_of_int-fits m.y, (w, (h, tt)))))) in
    (
      read 0 (omega arith),
      refl,
      rw
          (
            read 1 (omega arith),
            read 2 (omega arith),
            read 3 (omega arith),
            read 4 (omega arith),
            read 5 (omega arith),
            int_read m.x x,
            int_read m.y y,
          )
          refl,
    )

set_cursor-IsReadAs :
    (m : SetCursor)
    → IsWire (set_cursor m)
    → IsReadAs (set_cursor m) (words_bytes (set_cursor_words m))
unfolding read_set_cursor words_bytes
set_cursor-IsReadAs m (width, height, x, y, hide) =
    let read = words_read (set_cursor_words m) (
      omega arith,
      (width, (height, (u32_of_int-fits m.hotspot_x, (u32_of_int-fits m.hotspot_y, (hide, tt))))),
    ) in
    (
      read 0 (omega arith),
      refl,
      rw
          (
            read 1 (omega arith),
            read 2 (omega arith),
            read 3 (omega arith),
            read 4 (omega arith),
            read 5 (omega arith),
            int_read m.hotspot_x x,
            int_read m.hotspot_y y,
          )
          refl,
    )

destroy_window-IsReadAs :
    (m : DestroyWindow)
    → IsWire (destroy_window m)
    → IsReadAs (destroy_window m) (words_bytes (destroy_window_words m))
unfolding read_destroy_window words_bytes
destroy_window-IsReadAs m wid =
    let read = words_read (destroy_window_words m) (omega arith, (wid, tt)) in
    (read 0 (omega arith), refl, rw (read 1 (omega arith)) refl)

set_title-IsReadAs :
    (m : SetTitle)
    → IsWire (set_title m)
    → IsReadAs (set_title m) (words_bytes (MsgType.set_title ∷ m.wid ∷ []) ++ m.title)
unfolding read_set_title words_bytes
set_title-IsReadAs m (wid, whole) =
    let read = λ (i : ℕ).
      word-words_bytes (MsgType.set_title ∷ m.wid ∷ []) i m.title (omega arith, (wid, tt)) in
    (
      read 0 (omega arith),
      omega (arith, whole),
      rw (read 1 (omega arith), take_whole cl_title_max m.title (omega (arith, whole))) refl,
    )

commit-IsReadAs :
    (m : Commit) → IsWire (commit m) → IsReadAs (commit m) (words_bytes (commit_words m))
unfolding read_commit words_bytes
commit-IsReadAs m (wid, kind, width, height, stride, format, modifier, has_fence) =
    let read = words_read (commit_words m) (
      omega arith,
      (
        wid,
        (
          kind,
          (
            width,
            (
              height,
              (
                stride,
                (
                  format,
                  (omega arith, (omega arith, (omega arith, (has_fence, (omega arith, tt))))),
                ),
              ),
            ),
          ),
        ),
      ),
    ) in
    let joined : m.buffer.modifier % 2 ^ 32 + 2 ^ 32 * (m.buffer.modifier / 2 ^ 32)
        ≡ m.buffer.modifier =
      omega arith in
    (
      read 0 (omega arith),
      refl,
      rw
          (
            read 1 (omega arith),
            read 2 (omega arith),
            read 3 (omega arith),
            read 4 (omega arith),
            read 5 (omega arith),
            read 6 (omega arith),
            read 8 (omega arith),
            read 9 (omega arith),
            read 10 (omega arith),
            joined,
          )
          refl,
    )

-- Every message of a client whose fields have the widths of its struct is read back whole from its
-- datagram: the datagram has the type word that the server switches on and the length that it
-- checks for that type, and the struct that the server copies out of it has every field as sent,
-- negative coordinates, the 64 bit modifier behind the padding and all bytes of a title included.
pub client_bytes-IsReadAs : (m : ClientMessage) → IsWire m → IsReadAs m (client_bytes m)
unfolding client_bytes
client_bytes-IsReadAs (hello m) fit = hello-IsReadAs m fit
client_bytes-IsReadAs (create_window m) fit = create_window-IsReadAs m fit
client_bytes-IsReadAs (set_title m) fit = set_title-IsReadAs m fit
client_bytes-IsReadAs (commit m) fit = commit-IsReadAs m fit
client_bytes-IsReadAs (destroy_window m) fit = destroy_window-IsReadAs m fit
client_bytes-IsReadAs (set_geometry m) fit = set_geometry-IsReadAs m fit
client_bytes-IsReadAs (set_cursor m) fit = set_cursor-IsReadAs m fit
