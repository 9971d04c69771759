-- ===== src/Socket.antt =====
-- src/SocketCanInterface.cpp and include/cannect/SocketCanInterface.hpp: an interface on a raw CAN
-- socket of Linux. What the system calls answer are arguments.
pub mod State
pub mod Frames
use cannect.Base.{
  ℕ, ◌+◌, ◌*◌, ◌^◌, Bool, true, false, not, ◌&&◌, ◌||◌, Option, none, some, List, [], ◌∷◌, ltb, leb,
  if◌then◌else◌, bit_and, bit_or,
}
use cannect.Types.{
  CanFrame, Status, success, unsuccess, interface_already_open, interface_invalid_name,
}
use cannect.SetBlock.Receiver.{is_empty}
use cannect.Protocol.State.{zeros, copy_over}

-- `fd` is none where the code has -1; `pipe_open` is whether `pipeFds` are descriptors.
pub record SocketCanInterface : Type 0 where
  pub name : List ℕ
  pub is_open : Bool
  pub fd : Option ℕ
  pub pipe_open : Bool

abbrev pub new : List ℕ → SocketCanInterface
new name = record { name = name; is_open = false; fd = none; pipe_open = false }

-- What `open` is answered: the descriptor that `socket` returns, and whether the calls of `ioctl`,
-- `bind` and `pipe` succeed.
pub record OpenCalls : Type 0 where
  pub socket : Option ℕ
  pub ioctl : Bool
  pub bind : Bool
  pub pipe : Bool

-- The status, the state, and the descriptors that `socket` returned and that were closed.
pub record Result : Type 0 where
  pub status : Status
  pub state : SocketCanInterface
  pub obtained : List ℕ
  pub closed : List ℕ

-- A failed call after `socket` closes the descriptor.
abbrev pub give_up : SocketCanInterface → ℕ → Result
give_up s fd = record {
  status = unsuccess;
  state = record s { fd = none };
  obtained = fd ∷ [];
  closed = fd ∷ [];
}

-- `open` from the call of `ioctl` on.
unfoldable pub set_up : SocketCanInterface → ℕ → OpenCalls → Result
set_up s fd calls =
    if not calls.ioctl
    then give_up s fd
    else if not calls.bind
    then give_up s fd
    else if not calls.pipe
    then give_up s fd
    else record {
      status = success;
      state = record s { is_open = true; fd = some fd; pipe_open = true };
      obtained = fd ∷ [];
      closed = [];
    }

unfoldable pub open_socket : SocketCanInterface → OpenCalls → Result
open_socket s calls =
    if s.is_open
    then record { status = interface_already_open; state = s; obtained = []; closed = [] }
    else if is_empty s.name
    then record { status = interface_invalid_name; state = s; obtained = []; closed = [] }
    else elim calls.socket [
      | none ↦ record {
        status = unsuccess;
        state = record s { fd = none };
        obtained = [];
        closed = [];
      }
      | some fd ↦ set_up s fd calls
    ]

-- `close` from the call on the socket on, by whether that call succeeds.
unfoldable pub close_fd : SocketCanInterface → Option ℕ → Bool → Result
close_fd s none closes = record {
  status = success;
  state = record s { is_open = false; fd = none; pipe_open = false };
  obtained = [];
  closed = [];
}
close_fd s (some fd) true = record {
  status = success;
  state = record s { is_open = false; fd = none; pipe_open = false };
  obtained = [];
  closed = fd ∷ [];
}
close_fd s (some fd) false = record {
  status = unsuccess;
  state = record s { pipe_open = false };
  obtained = [];
  closed = [];
}

unfoldable pub close_socket : SocketCanInterface → Bool → Result
unfolding close_fd
close_socket s closes =
    if not s.is_open
    then record { status = unsuccess; state = s; obtained = []; closed = [] }
    else close_fd s s.fd closes

-- The fields of `struct can_frame` that the code uses.
pub record KernelFrame : Type 0 where
  pub can_id : ℕ
  pub can_dlc : ℕ
  pub bytes : List ℕ

-- The constants that the code takes from linux/can.h, which the repository does not hold.
pub record CanConstants : Type 0 where
  pub can_sff_mask : ℕ
  pub can_eff_mask : ℕ
  pub can_eff_flag : ℕ

-- What `select` answers: an error, one of which is EINTR, or which descriptors can be read.
pub data Selected : Type 0 where
  interrupted failed shut_down : Selected
  readable : Selected

-- What `read` answers: a whole frame, or an error or a part of a frame.
abbrev pub Read : Type 0
Read = Option KernelFrame

-- The `CanFrame` that a kernel frame is copied to.
unfoldable pub copy_frame : CanConstants → KernelFrame → CanFrame → CanFrame
copy_frame c k frame = record {
  id = bit_and k.can_id c.can_eff_mask;
  dlc = k.can_dlc;
  bytes = copy_over frame.bytes k.bytes k.can_dlc;
}

-- `receive`, with the frame that the caller passes.
unfoldable pub receive :
    CanConstants → SocketCanInterface → Selected → Read → CanFrame → Status × CanFrame
receive c s Selected.interrupted r frame =
    if not s.is_open then (unsuccess, frame) else (success, frame)
receive c s Selected.failed r frame = (unsuccess, frame)
receive c s Selected.shut_down r frame = (unsuccess, frame)
receive c s Selected.readable none frame = (unsuccess, frame)
receive c s Selected.readable (some k) frame =
    if not s.is_open then (unsuccess, frame) else (success, copy_frame c k frame)

-- The identifier that `send` gives to the kernel, if it does not reject the frame's.
unfoldable pub can_id_of : CanConstants → ℕ → Option ℕ
can_id_of c id =
    if leb id c.can_sff_mask
    then some id
    else if leb id c.can_eff_mask
    then some (bit_or id c.can_eff_flag)
    else none

-- The kernel frame that `send` builds, if it does not reject the frame.
unfoldable pub with_id : CanFrame → Option ℕ → Option KernelFrame
with_id frame none = none
with_id frame (some can_id) =
    if ltb 8 frame.dlc
    then none
    else some (record {
      can_id = can_id;
      can_dlc = frame.dlc;
      bytes = copy_over zeros frame.bytes frame.dlc;
    })

unfoldable pub write_frame : Bool → Option KernelFrame → Status × Option KernelFrame
write_frame writes none = (unsuccess, none)
write_frame writes (some k) = (if writes then success else unsuccess, some k)

-- `send`: the status, and what is given to `write`, by whether `write` takes a whole frame.
unfoldable pub send_frame :
    CanConstants → SocketCanInterface → CanFrame → Bool → Status × Option KernelFrame
unfolding can_id_of with_id write_frame
send_frame c s frame writes =
    if not s.is_open
    then (unsuccess, none)
    else write_frame writes (with_id frame (can_id_of c frame.id))

abbrev pub is_closed : SocketCanInterface → Bool
is_closed s = not s.is_open
