-- ===== src/Window.antt =====
-- include/window.h and src/window.c: the server-owned window stack.
-- `windows` holds the entries below `count`, bottom first, so its length is `count`; no operation
-- reads an entry past it. A `struct window *` into the stack is the window that it points to.
-- An `int` is an integer, and a sum is the exact one, which is C's wherever it fits in an `int`.
pub mod Tests
pub mod Array
pub mod Lookup
pub mod Ids
pub mod Invariant
pub mod Reach
pub mod Hit
pub mod Effects
pub mod Turns
pub mod Round
pub mod Cycle
use crystalline_lattice.Common.{
  ℕ, zero, suc, ◌+◌, ◌-◌, ◌*◌, ◌%◌, ◌^◌, Bool, true, false, not, ◌&&◌, ◌||◌, Option, none, some,
  List, [], ◌∷◌, ◌++◌, ltb, leb, ◌==◌, if◌then◌else◌, length, get_elem?, set, take, ℤ, pos, negsuc,
  ◌+ℤ◌, ◌-ℤ◌, ◌%ℤ◌, ltb_ℤ, leb_ℤ, pos_part,
}

-- `enum win_role`
pub data Role : Type 0 where
  normal desktop taskbar tray menu tooltip : Role

abbrev pub is_normal : Role → Bool
is_normal normal = true
is_normal _ = false

abbrev pub is_desktop : Role → Bool
is_desktop desktop = true
is_desktop _ = false

abbrev pub is_taskbar : Role → Bool
is_taskbar taskbar = true
is_taskbar _ = false

abbrev pub is_tray : Role → Bool
is_tray tray = true
is_tray _ = false

-- `struct window`. A title is its bytes up to the NUL; `buf` is the address of the mapping.
pub record Window : Type 0 where
  pub id : ℕ
  pub role : Role
  pub x : ℤ
  pub y : ℤ
  pub w : ℤ
  pub h : ℤ
  pub mapped : Bool
  pub color : ℕ
  pub title : List ℕ
  pub buf : Option ℕ
  pub buf_w : ℤ
  pub buf_h : ℤ
  pub buf_stride : ℤ
  pub snapped : Bool
  pub saved_x : ℤ
  pub saved_y : ℤ
  pub saved_w : ℤ
  pub saved_h : ℤ
  pub app_decorated : Bool

-- `struct window_stack`; `focus_id` is 0 where no window has the focus.
pub record WindowStack : Type 0 where
  pub windows : List Window
  pub focus_id : ℕ
  pub next_id : ℕ

abbrev pub win_max : ℕ
win_max = 64

abbrev pub decor_titlebar_h : ℕ
decor_titlebar_h = 28

abbrev pub title_size : ℕ
title_size = 64

-- `s->count`
abbrev pub count : WindowStack → ℕ
count s = length s.windows

unfoldable pub has_ssd : Window → Bool
has_ssd w = is_normal w.role && not w.app_decorated

unfoldable pub init : WindowStack
init = record { windows = []; focus_id = 0; next_id = 1 }

-- `snprintf(win->title, sizeof(win->title), "%s", title)`
abbrev pub fit_title : List ℕ → List ℕ
fit_title = take (title_size - 1)

-- The entry that `window_create` fills in, after its `memset`.
unfoldable pub new_window : ℕ → Role → ℤ → ℤ → ℤ → ℤ → ℕ → Option (List ℕ) → Window
new_window i role x y w h color title = record {
  id = i;
  role = role;
  x = x;
  y = y;
  w = w;
  h = h;
  mapped = true;
  color = color;
  title = elim title [ none ↦ [] | some bytes ↦ fit_title bytes ];
  buf = none;
  buf_w = pos 0;
  buf_h = pos 0;
  buf_stride = pos 0;
  snapped = false;
  saved_x = pos 0;
  saved_y = pos 0;
  saved_w = pos 0;
  saved_h = pos 0;
  app_decorated = false;
}

-- `s->next_id++` wraps at 2 ^ 32. The result is the id, or 0 for a full stack.
unfoldable pub create : WindowStack → Role → ℤ → ℤ → ℤ → ℤ → ℕ → Option (List ℕ) → ℕ × WindowStack
create s role x y w h color title = if leb win_max (count s) then (0, s) else (
  s.next_id,
  record s {
    windows = s.windows ++ (new_window s.next_id role x y w h color title ∷ []);
    next_id = (s.next_id + 1) % 2 ^ 32;
  },
)

-- The loop of `window_index` from the counter `i` on; `none` is -1.
unfoldable pub index_from : ℕ → List Window → ℕ → Option ℕ
index_from i [] id = none
index_from i (v ∷ ws) id = if v.id == id then some i else index_from (suc i) ws id

unfoldable pub index : WindowStack → ℕ → Option ℕ
index s id = index_from 0 s.windows id

unfoldable pub by_id : WindowStack → ℕ → Option Window
by_id s id = elim (index s id) [ none ↦ none | some i ↦ get_elem? s.windows i ]

-- A write through the pointer that `window_by_id` returned.
unfoldable pub update : WindowStack → ℕ → (Window → Window) → WindowStack
update s id f = elim (index s id) [
  | none ↦ s
  | some i ↦ elim (get_elem? s.windows i) [
    | none ↦ s
    | some v ↦ record s { windows = set s.windows i (f v) }
  ]
]

-- `windows[i] = windows[j]`
unfoldable pub copy : List Window → ℕ → ℕ → List Window
copy ws i j = elim (get_elem? ws j) [ none ↦ ws | some v ↦ set ws i v ]

-- `for (; i < last; i++) windows[i] = windows[i + 1]`, with `last - i` rounds to go.
unfoldable pub shift_down : ℕ → ℕ → List Window → List Window
shift_down zero i ws = ws
shift_down (suc n) i ws = shift_down n (suc i) (copy ws i (suc i))

-- `for (; i > 0; i--) windows[i] = windows[i - 1]`
unfoldable pub shift_up : ℕ → List Window → List Window
shift_up zero ws = ws
shift_up (suc i) ws = shift_up i (copy ws (suc i) i)

-- `s->count ? s->windows[s->count - 1].id : 0`
unfoldable pub top_id : List Window → ℕ
top_id ws = elim (get_elem? ws (length ws - 1)) [ none ↦ 0 | some v ↦ v.id ]

unfoldable pub destroy : WindowStack → ℕ → WindowStack
destroy s id = elim (index s id) [
  | none ↦ s
  | some i ↦
      let last = count s - 1 in
      let ws = take last (shift_down (last - i) i s.windows) in
      record s { windows = ws; focus_id = if s.focus_id == id then top_id ws else s.focus_id }
]

unfoldable pub contains : Window → ℤ → ℤ → Bool
contains v gx gy = leb_ℤ v.x gx && ltb_ℤ gx (v.x +ℤ v.w) && leb_ℤ v.y gy && ltb_ℤ gy (v.y +ℤ v.h)

-- The loop of `window_at`, with the entries below `n` still to look at.
unfoldable pub at_below : ℕ → List Window → ℤ → ℤ → Option Window
at_below zero ws gx gy = none
at_below (suc n) ws gx gy =
    let rest = at_below n ws gx gy in
    elim (get_elem? ws n) [
      | none ↦ rest
      | some v ↦ if v.mapped && contains v gx gy then some v else rest
    ]

unfoldable pub at : WindowStack → ℤ → ℤ → Option Window
at s gx gy = at_below (count s) s.windows gx gy

unfoldable pub move_to_top : WindowStack → Option ℕ → WindowStack
move_to_top s none = s
move_to_top s (some i) = if leb (count s - 1) i then s else elim (get_elem? s.windows i) [
  | none ↦ s
  | some tmp ↦ record s {
    windows = set (shift_down (count s - 1 - i) i s.windows) (count s - 1) tmp;
  }
]

unfoldable pub move_to_bottom : WindowStack → Option ℕ → WindowStack
move_to_bottom s none = s
move_to_bottom s (some i) = if i == 0 || leb (count s) i then s else elim (get_elem? s.windows i) [
  | none ↦ s
  | some tmp ↦ record s { windows = set (shift_up i s.windows) 0 tmp }
]

unfoldable pub raise : WindowStack → ℕ → WindowStack
raise s id = move_to_top s (index s id)

unfoldable pub lower : WindowStack → ℕ → WindowStack
lower s id = move_to_bottom s (index s id)

unfoldable pub move : WindowStack → ℕ → ℤ → ℤ → WindowStack
move s id x y = update s id (λ v. record v { x = x; y = y })

-- The fields that `window_set_geometry` writes: a size that is not positive is left as it was.
unfoldable pub place : ℤ → ℤ → ℤ → ℤ → Window → Window
place x y w h v = record v {
  x = x;
  y = y;
  w = if ltb_ℤ (pos 0) w then w else v.w;
  h = if ltb_ℤ (pos 0) h then h else v.h;
}

unfoldable pub set_geometry : WindowStack → ℕ → ℤ → ℤ → ℤ → ℤ → WindowStack
set_geometry s id x y w h = update s id (place x y w h)

unfoldable pub focus : WindowStack → ℕ → WindowStack
focus s id = elim (by_id s id) [
  | none ↦ s
  | some v ↦ let s' = record s { focus_id = id } in if is_desktop v.role then s' else raise s' id
]

unfoldable pub focused : WindowStack → Option Window
focused s = if s.focus_id == 0 then none else by_id s s.focus_id

-- `start`: -1 where no window has the id.
abbrev pub start_of : Option ℕ → ℤ
start_of none = negsuc 0
start_of (some i) = pos i

-- `((start + step * n) % count + count) % count`
unfoldable pub cycle_index : ℤ → Bool → ℕ → ℕ → ℕ
cycle_index start forward n count =
    let shifted = if forward then start +ℤ pos n else start -ℤ pos n in
    pos_part ((shifted %ℤ count +ℤ pos count) %ℤ count)

abbrev pub is_candidate : Window → Bool
is_candidate v = is_normal v.role && v.mapped

-- The loop of `window_focus_cycle` from the counter `n` on, with `rounds` to go.
unfoldable pub cycle_from : ℕ → ℕ → ℤ → Bool → WindowStack → WindowStack
cycle_from zero n start forward s = s
cycle_from (suc rounds) n start forward s =
    let rest = cycle_from rounds (suc n) start forward s in
    elim (get_elem? s.windows (cycle_index start forward n (count s))) [
      | none ↦ rest
      | some v ↦ if is_candidate v then focus s v.id else rest
    ]

unfoldable pub focus_cycle : WindowStack → ℤ → WindowStack
focus_cycle s dir =
    if count s == 0
    then s
    else cycle_from (count s) 1 (start_of (index s s.focus_id)) (leb_ℤ (pos 0) dir) s
