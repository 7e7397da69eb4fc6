-- ===== src/Lib.antt =====
-- CrystallineLattice: the server core of the glacier display server.
--
-- A server owns one stack of windows. The window manager moves, raises and snaps windows as the user
-- points and types; the transport lets clients create, fill and destroy windows over a socket, and
-- routes input back to them. The compositor draws the stack. What is modelled, file by file:
--
--   Window     include/window.h, src/window.c: the stack, `struct window_stack`. Its entries below
--              `count` are the list `windows`, bottom first; each `window_*` function is the
--              definition of that name, less the prefix. The loops that shift entries are
--              recursions that copy one entry at a time.
--   Wm         include/wm.h, src/wm.c: `struct wm` with the stack that it points to; each `wm_*`
--              function is the definition of that name, less the prefix.
--   Protocol   include/protocol.h: the constants, and the structures as the bytes of a datagram, read
--              with the layout that the C structures have on a little-endian machine; Messages has
--              the datagrams of all that a client can send, RoundTrip and Reading how they are read.
--              Link is src/protocol.c, which sends and receives a datagram with its descriptors.
--   Transport  src/transport.c: `struct transport` with the stack that it points to. Transport holds
--              the state and its helpers, Routing the messages to clients, Session the life of a
--              client with reconnect and expiry, Handlers the requests, Dispatch the handshake, the
--              `switch` and the loops of `transport_process`. A pointer to a client or to a slot is an
--              index. A function that calls the kernel returns a list of effects, in the order of the
--              calls; what the kernel answers is an argument.
--   Server     src/server.c: `on_input`, `seed_windows`, `apply_mode_cb`, the start of `server_run` with
--              the stack and the window manager, and the parts of its loop that serve clients and end
--              a round. The stack that the C code shares by pointers is the window manager's, and the
--              transport is lent it.
--   Compositor src/server.c: `fill_rect`, `blit_buffer`, `draw_cursor` and `composite`. A framebuffer is
--              a size and a pixel for each place; a write outside it gives no result, so that a result
--              says that every write was inside.
--   Control    include/control.h, src/control.c: the requests of the control socket. What the display
--              answers and the change of mode are parameters. Reply is the name of the connector and
--              the bytes of the replies, Endpoint the socket from its set-up to its tear-down, with
--              the calls that `server_run` makes of it.
--   Wayland    src/wayland.c: `struct fe_surface` and `struct wl_frontend`. Wayland holds what maps and
--              unmaps a surface, Requests the handlers, Input the routing of pointer and keyboard. What
--              libwayland, xkbcommon and the allocator answer is an argument; the events that are
--              sent are a list, in their order.
--   Platform   include/platform.h, src/platform.c: Platform holds the property maps, the atomic requests
--              and the framebuffers, Device the choice of the node, Setup that of the connector, the
--              CRTC and the plane, and Mode that of the mode. The answers of the kernel are arguments.
--   Input      src/input.c, src/seat.c: the table of the devices that libinput opens through the seat, its
--              events as the server takes them, and the session. What libinput, xkbcommon and
--              libseat answer is an argument.
--   Common     what these share: tests, lists, and C's `int` over the native numbers.
--
-- Each component's children hold its lemmas: Window.Array, Lookup and Ids relate the shifting loops
-- to lists without an entry; Invariant, Reach, Hit, Effects, Turns, Round and Cycle state what the
-- stack does. Wm.Cursor, WorkArea, Drag, Snap and Invariant do the same for the policy, and
-- Transport.Descriptors, Handshake, Delivery, Welcome, Reap, Reconnect, Teardown, Room and Stack for
-- the transport, whose listening socket and whose end are in Transport.Endpoint. Server.Session puts
-- them together, Server.Display is the master, the pages and the blanking of the main loop, with
-- Pages and Idle about what it asks of the kernel, Resolution about the change of the mode, and
-- Start the choice of the DRM device. Compositor.Fill and Safety are about the writes to the
-- framebuffer, Painting and Scene about the picture. Control.Laws is about the requests, Names,
-- Layout and Panel about the bytes of a reply, and Shutdown about the descriptors. Wayland.Content
-- is about the copy of a buffer, Backing, Keeps, Mapping, Commit, Live, Sound and Session about the
-- windows behind the surfaces, with the calls of the server's other parts in between, and Monitor,
-- Target, Focus and Keys about the order of the input events. Platform.Buffer, Balance and Request
-- are about what the kernel and libdrm hold and are asked for, Search and Chosen about what
-- `kms_setup` finds. Input.Table and Devices are about the table of devices. Tests holds concrete
-- runs.
--
-- Numbers. A `uint32_t` is a natural number, with its wrap-around written out where the code adds
-- (the id counter and the token counter). An `int` is an exact integer, as C leaves overflow
-- undefined. A `double` is of any type, with its conversion to `int` a parameter. Loops are
-- structural recursions over the entries or over what the socket gives, so no fuel is needed, but
-- for the calls that the kernel interrupts, in Protocol.Link, where one more than it interrupts is
-- enough, and for the digits of a number in Control.Reply, of which a `uint32_t` has at most ten.
--
-- Not modelled: the system calls themselves, the set-up of the input devices and of the Wayland
-- frontend and its requests that do nothing, the shell and the diagnostics. A datagram is at most 256
-- bytes in the code, and of any length here.
pub mod Common
pub mod Compositor
pub mod Control
pub mod Input
pub mod Platform
pub mod Protocol
pub mod Server
pub mod Transport
pub mod Wayland
pub mod Window
pub mod Wm
