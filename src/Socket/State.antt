-- ===== src/Socket/State.antt =====
-- An interface and its descriptors, whatever the system answers.
use mathlib.Core.List.{append-nil}
use cannect.Base.{
  ℕ, ◌≡◌, refl, sym, ◌∙◌, ap, Bool, true, false, not, Option, none, some, List, [], ◌∷◌, ◌++◌,
  if_cases,
}
use cannect.Types.{Status, success, unsuccess, interface_already_open, interface_invalid_name}
use cannect.SetBlock.Receiver.{is_empty}
use cannect.Socket.{
  SocketCanInterface, OpenCalls, Result, new, give_up, set_up, open_socket, close_fd, close_socket,
}

-- `open` and `close` were called in some order, with some answers of the system: the state, and the
-- descriptors that `socket` returned and those that were closed, in order.
pub data Used : SocketCanInterface → List ℕ → List ℕ → Type 0 where
  fresh : (name : List ℕ) → Used (new name) [] []
  opens :
      {s : SocketCanInterface} {n m : List ℕ} (calls : OpenCalls)
      → Used s n m
      → Used
          (open_socket s calls).state
          (n ++ (open_socket s calls).obtained)
          (m ++ (open_socket s calls).closed)
  closes :
      {s : SocketCanInterface} {n m : List ℕ} (ok : Bool)
      → Used s n m
      → Used
          (close_socket s ok).state
          (n ++ (close_socket s ok).obtained)
          (m ++ (close_socket s ok).closed)

abbrev pub held : Option ℕ → List ℕ
held none = []
held (some fd) = fd ∷ []

abbrev pub has_fd : Option ℕ → Bool
has_fd none = false
has_fd (some fd) = true

-- The interface is open exactly when it has a descriptor, the pipe is open only then, and the
-- descriptors that were obtained are those that were closed, and then the one that is held.
pub record IsSound (s : SocketCanInterface) (obtained closed : List ℕ) : Type 0 where
  pub open_iff_fd : s.is_open ≡ has_fd s.fd
  pub no_pipe : s.is_open ≡ false → s.pipe_open ≡ false
  pub balanced : obtained ≡ closed ++ held s.fd

abbrev Keeps : List ℕ → List ℕ → Result → Type 0
Keeps n m r = IsSound r.state (n ++ r.obtained) (m ++ r.closed)

held-none : (fd : Option ℕ) → has_fd fd ≡ false → held fd ≡ []
held-none none e = refl
held-none (some fd) e = cc

none_held : (s : SocketCanInterface) (n m : List ℕ) → s.is_open ≡ false → IsSound s n m → n ≡ m
none_held s n m shut i =
    i.balanced ∙ ap (λ fds. m ++ fds) (held-none s.fd (sym i.open_iff_fd ∙ shut)) ∙ append-nil m

-- Nothing was obtained or closed, and `fds` are held.
nothing_new : (n m fds : List ℕ) → n ≡ m ++ fds → n ++ [] ≡ (m ++ []) ++ fds
nothing_new n m fds e = append-nil n ∙ e ∙ ap (λ l. l ++ fds) (sym (append-nil m))

unchanged :
    (s : SocketCanInterface) (n m : List ℕ) (status : Status)
    → IsSound s n m
    → Keeps n m (record { status = status; state = s; obtained = []; closed = [] })
unchanged s n m status i = record {
  open_iff_fd = i.open_iff_fd;
  no_pipe = i.no_pipe;
  balanced = nothing_new n m (held s.fd) i.balanced;
}

given_up :
    (s : SocketCanInterface) (fd : ℕ) (n m : List ℕ)
    → s.is_open ≡ false
    → IsSound s n m
    → Keeps n m (give_up s fd)
given_up s fd n m shut i = record {
  open_iff_fd = shut;
  no_pipe = i.no_pipe;
  balanced = ap (λ l. l ++ fd ∷ []) (none_held s n m shut i) ∙ sym (append-nil (m ++ fd ∷ []));
}

set_up_done :
    (s : SocketCanInterface) (fd : ℕ) (n m : List ℕ)
    → s.is_open ≡ false
    → IsSound s n m
    → Keeps n m (record {
      status = success;
      state = record s { is_open = true; fd = some fd; pipe_open = true };
      obtained = fd ∷ [];
      closed = [];
    })
set_up_done s fd n m shut i = record {
  open_iff_fd = refl;
  no_pipe = λ e. cc;
  balanced =
      ap (λ l. l ++ fd ∷ []) (none_held s n m shut i) ∙ ap (λ l. l ++ fd ∷ []) (sym (append-nil m));
}

set_up-IsSound :
    (s : SocketCanInterface) (fd : ℕ) (n m : List ℕ) (calls : OpenCalls)
    → s.is_open ≡ false
    → IsSound s n m
    → Keeps n m (set_up s fd calls)
unfolding set_up
set_up-IsSound s fd n m calls shut i =
    if_cases (Keeps n m) (not calls.ioctl) (λ _. given_up s fd n m shut i)
      λ _.
        if_cases (Keeps n m) (not calls.bind) (λ _. given_up s fd n m shut i)
          λ _.
            if_cases (Keeps n m) (not calls.pipe) (λ _. given_up s fd n m shut i)
              (λ _. set_up_done s fd n m shut i)

open_socket-IsSound :
    (s : SocketCanInterface) (n m : List ℕ) (calls : OpenCalls)
    → IsSound s n m
    → Keeps n m (open_socket s calls)
unfolding open_socket
open_socket-IsSound s n m calls i =
    if_cases (Keeps n m) s.is_open (λ _. unchanged s n m interface_already_open i)
      λ shut.
        if_cases (Keeps n m) (is_empty s.name) (λ _. unchanged s n m interface_invalid_name i)
          (λ _. by_socket calls.socket shut)
  where
    by_socket :
        (fd : Option ℕ)
        → s.is_open ≡ false
        → Keeps n m (elim fd [
          | none ↦ record {
            status = unsuccess;
            state = record s { fd = none };
            obtained = [];
            closed = [];
          }
          | some fd ↦ set_up s fd calls
        ])
    by_socket none shut = record {
      open_iff_fd = shut;
      no_pipe = i.no_pipe;
      balanced = nothing_new n m [] (none_held s n m shut i ∙ sym (append-nil m));
    }
    by_socket (some fd) shut = set_up-IsSound s fd n m calls shut i

close_fd-IsSound :
    (s : SocketCanInterface) (fd : Option ℕ) (n m : List ℕ) (ok : Bool)
    → s.fd ≡ fd
    → IsSound s n m
    → Keeps n m (close_fd s fd ok)
unfolding close_fd
close_fd-IsSound s none n m ok e i = record {
  open_iff_fd = refl;
  no_pipe = λ _. refl;
  balanced = nothing_new n m [] (i.balanced ∙ ap (λ d. m ++ held d) e);
}
close_fd-IsSound s (some fd) n m true e i = record {
  open_iff_fd = refl;
  no_pipe = λ _. refl;
  balanced = append-nil n ∙ i.balanced ∙ ap (λ d. m ++ held d) e ∙ sym (append-nil (m ++ fd ∷ []));
}
close_fd-IsSound s (some fd) n m false e i = record {
  open_iff_fd = i.open_iff_fd;
  no_pipe = λ _. refl;
  balanced = nothing_new n m (held s.fd) i.balanced;
}

close_socket-IsSound :
    (s : SocketCanInterface) (n m : List ℕ) (ok : Bool)
    → IsSound s n m
    → Keeps n m (close_socket s ok)
unfolding close_socket
close_socket-IsSound s n m ok i =
    if_cases (Keeps n m) (not s.is_open) (λ _. unchanged s n m unsuccess i)
      (λ _. close_fd-IsSound s s.fd n m ok refl i)

-- Whatever `open` and `close` are called in whatever order, and whatever the system answers: the
-- interface is open exactly when it has a descriptor, its pipe is not open when it is not, and the
-- descriptors that `socket` returned are those that were closed, in the same order, and after them the
-- one that an open interface has.
pub Used-IsSound : {s : SocketCanInterface} {n m : List ℕ} → Used s n m → IsSound s n m
Used-IsSound (Used.fresh name) = record { open_iff_fd = refl; no_pipe = λ _. refl; balanced = refl }
Used-IsSound (Used.opens calls r) = open_socket-IsSound _ _ _ calls (Used-IsSound r)
Used-IsSound (Used.closes ok r) = close_socket-IsSound _ _ _ ok (Used-IsSound r)
