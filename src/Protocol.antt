-- ===== src/Protocol.antt =====
-- include/protocol.h: the messages of the CrystallineLattice wire format. A datagram is the list of
-- its bytes. Both ends copy their structs, so a field is a word in the host's byte order, which is
-- taken to be little-endian.
pub mod Tests
pub mod MsgType
pub mod Size
pub mod RoundTrip
pub mod Messages
pub mod Reading
pub mod Link
use crystalline_lattice.Common.{
  ℕ, zero, suc, ◌+◌, ◌*◌, ◌/◌, ◌%◌, ◌^◌, Bool, true, false, Option, none, some, List, [], ◌∷◌, ◌++◌,
  get_or, take, drop, leb, if◌then◌else◌, length, ℤ, int_of_u32, u32_of_int,
}

abbrev pub cl_magic : ℕ
cl_magic = 0x4C435243

abbrev pub cl_version : ℕ
cl_version = 2

abbrev pub cl_min_version : ℕ
cl_min_version = 1

abbrev pub cl_max_fds : ℕ
cl_max_fds = 2

abbrev pub cl_title_max : ℕ
cl_title_max = 64

abbrev pub cl_format_xrgb8888 : ℕ
cl_format_xrgb8888 = 0x34325258

abbrev pub cl_buf_shm : ℕ
cl_buf_shm = 0

-- `enum cl_input_kind`
abbrev pub cl_in_motion : ℕ
cl_in_motion = 0

abbrev pub cl_in_button : ℕ
cl_in_button = 1

abbrev pub cl_in_key : ℕ
cl_in_key = 2

-- The bytes of a `uint32_t`, and the word at an offset.
abbrev pub u32_bytes : ℕ → List ℕ
u32_bytes n = n % 256 ∷ (n / 256 % 256) ∷ (n / 65536 % 256) ∷ (n / 16777216 % 256) ∷ []

unfoldable pub u32_at : ℕ → List ℕ → ℕ
u32_at i b =
    get_or b i 0
    + 256 * get_or b (i + 1) 0
    + 65536 * get_or b (i + 2) 0
    + 16777216 * get_or b (i + 3) 0

-- The `i`-th word of a struct.
abbrev pub word : ℕ → List ℕ → ℕ
word i b = u32_at (4 * i) b

pub record Hello : Type 0 where
  pub magic : ℕ
  pub version : ℕ
  pub min_version : ℕ
  pub reconnect_token : ℕ

pub record CreateWindow : Type 0 where
  pub wid : ℕ
  pub role : ℕ
  pub x : ℤ
  pub y : ℤ
  pub w : ℕ
  pub h : ℕ

pub record SetTitle : Type 0 where
  pub wid : ℕ
  pub title : List ℕ

pub record Buffer : Type 0 where
  pub kind : ℕ
  pub width : ℕ
  pub height : ℕ
  pub stride : ℕ
  pub format : ℕ
  pub modifier : ℕ
  pub has_fence : ℕ

pub record Commit : Type 0 where
  pub wid : ℕ
  pub buffer : Buffer

pub record DestroyWindow : Type 0 where
  pub wid : ℕ

pub record SetGeometry : Type 0 where
  pub wid : ℕ
  pub x : ℤ
  pub y : ℤ
  pub w : ℕ
  pub h : ℕ

pub record SetCursor : Type 0 where
  pub width : ℕ
  pub height : ℕ
  pub hotspot_x : ℤ
  pub hotspot_y : ℤ
  pub hide : ℕ

-- The structs as the receiver reads them from a datagram that is long enough. The token of a
-- shorter, version 1 hello reads as 0.
unfoldable pub read_hello : List ℕ → Hello
read_hello b = record {
  magic = word 1 b;
  version = word 2 b;
  min_version = word 3 b;
  reconnect_token = if leb Size.hello (length b) then word 4 b else 0;
}

unfoldable pub read_create_window : List ℕ → CreateWindow
read_create_window b = record {
  wid = word 1 b;
  role = word 2 b;
  x = int_of_u32 (word 3 b);
  y = int_of_u32 (word 4 b);
  w = word 5 b;
  h = word 6 b;
}

unfoldable pub read_set_title : List ℕ → SetTitle
read_set_title b = record { wid = word 1 b; title = take cl_title_max (drop 8 b) }

unfoldable pub read_commit : List ℕ → Commit
read_commit b = record {
  wid = word 1 b;
  buffer = record {
    kind = word 2 b;
    width = word 3 b;
    height = word 4 b;
    stride = word 5 b;
    format = word 6 b;
    modifier = word 8 b + 2 ^ 32 * word 9 b;
    has_fence = word 10 b;
  };
}

unfoldable pub read_destroy_window : List ℕ → DestroyWindow
read_destroy_window b = record { wid = word 1 b }

unfoldable pub read_set_geometry : List ℕ → SetGeometry
read_set_geometry b = record {
  wid = word 1 b;
  x = int_of_u32 (word 2 b);
  y = int_of_u32 (word 3 b);
  w = word 4 b;
  h = word 5 b;
}

unfoldable pub read_set_cursor : List ℕ → SetCursor
read_set_cursor b = record {
  width = word 1 b;
  height = word 2 b;
  hotspot_x = int_of_u32 (word 3 b);
  hotspot_y = int_of_u32 (word 4 b);
  hide = word 5 b;
}

-- The messages from the server, with the fields that the server sets.
pub data ServerMessage : Type 0 where
  welcome : (magic version screen_w screen_h reconnect_token : ℕ) → ServerMessage
  configure : (wid : ℕ) (x y : ℤ) (w h : ℕ) → ServerMessage
  focus : (wid focused : ℕ) → ServerMessage
  input : (wid kind : ℕ) (x y : ℤ) (code pressed : ℕ) → ServerMessage
  screen : (w h : ℕ) → ServerMessage

-- The words of a struct in memory.
unfoldable pub words_bytes : List ℕ → List ℕ
words_bytes [] = []
words_bytes (n ∷ ns) = u32_bytes n ++ words_bytes ns

unfoldable pub server_bytes : ServerMessage → List ℕ
server_bytes (welcome magic version screen_w screen_h token) =
    words_bytes (MsgType.welcome ∷ magic ∷ version ∷ screen_w ∷ screen_h ∷ token ∷ [])
server_bytes (configure wid x y w h) =
    words_bytes (MsgType.configure ∷ wid ∷ u32_of_int x ∷ u32_of_int y ∷ w ∷ h ∷ [])
server_bytes (focus wid focused) = words_bytes (MsgType.focus ∷ wid ∷ focused ∷ [])
server_bytes (input wid kind x y code pressed) =
    words_bytes (MsgType.input ∷ wid ∷ kind ∷ u32_of_int x ∷ u32_of_int y ∷ code ∷ pressed ∷ [])
server_bytes (screen w h) = words_bytes (MsgType.screen ∷ w ∷ h ∷ [])
