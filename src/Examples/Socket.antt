-- ===== src/Examples/Socket.antt =====
-- An interface that is opened, used and closed (src/SocketCanInterface.cpp).
use cannect.Base.{ℕ, ◌≡◌, refl, arith, true, false, some, List, [], ◌∷◌}
use cannect.Types.{CanFrame}
use cannect.Socket.{
  SocketCanInterface, OpenCalls, CanConstants, new, open_socket, close_socket, set_up, close_fd,
}
use cannect.Socket.State.{Used, IsSound, Used-IsSound}
use cannect.Socket.Frames.{IsDocumented, Travels, receive-send_frame}

-- "can0".
abbrev can0 : List ℕ
can0 = 99 ∷ 97 ∷ 110 ∷ 48 ∷ []

abbrev opened : SocketCanInterface
opened = record { name = can0; is_open = true; fd = some 7; pipe_open = true }

abbrev telecommand_frame : CanFrame
telecommand_frame = record { id = 0x480507; dlc = 2; bytes = 1 ∷ 2 ∷ 0 ∷ 0 ∷ 0 ∷ 0 ∷ 0 ∷ 0 ∷ [] }

abbrev empty_frame : CanFrame
empty_frame = record { id = 0; dlc = 0; bytes = [] }

abbrev constants : CanConstants
constants = record { can_sff_mask = 0x7ff; can_eff_mask = 0x1fffffff; can_eff_flag = 0x80000000 }

constants-IsDocumented : IsDocumented constants
constants-IsDocumented = record { standard_mask = refl; extended_mask = refl; extended_flag = refl }

receive-send_frame_example : Travels constants opened opened telecommand_frame empty_frame
receive-send_frame_example =
    receive-send_frame constants opened opened telecommand_frame empty_frame constants-IsDocumented
      refl refl (omega arith)

-- `bind` fails once; then it is opened, and the close of the socket fails.
abbrev bind_fails : OpenCalls
bind_fails = record { socket = some 5; ioctl = true; bind = false; pipe = true }

abbrev all_well : OpenCalls
all_well = record { socket = some 7; ioctl = true; bind = true; pipe = true }

abbrev after_failure : SocketCanInterface
after_failure = (open_socket (new can0) bind_fails).state

abbrev after_open : SocketCanInterface
after_open = (open_socket after_failure all_well).state

half_closed : (close_socket after_open false).state ≡ record opened { pipe_open = false }
unfolding open_socket set_up close_socket close_fd
half_closed = refl

half_closed-Used : Used (record opened { pipe_open = false }) (5 ∷ 7 ∷ []) (5 ∷ [])
unfolding open_socket set_up close_socket close_fd
half_closed-Used = Used.closes false (Used.opens all_well (Used.opens bind_fails (Used.fresh can0)))

Used-IsSound_example : IsSound (record opened { pipe_open = false }) (5 ∷ 7 ∷ []) (5 ∷ [])
Used-IsSound_example = Used-IsSound half_closed-Used
