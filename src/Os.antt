-- ===== src/Os.antt =====
-- What the program takes from the operating system: the POSIX socket calls of src/Socket.cpp, the
-- directory and file calls of src/FileManager.cpp, src/ClientSession.cpp and src/client_main.cpp,
-- the signals of src/Server.cpp, and the other thread that may call `ClientSession::stop`. All of it
-- is a parameter. A call takes
-- the world as the program finds it and returns the world as the call leaves it, so files and peers
-- may change between any two calls.
pub mod Contract
pub mod Keeping
pub mod Monad
use multi_client_media_strea.Base.{ℕ, ℤ, Bool, Option, List, Bytes}
use multi_client_media_strea.FilePath.{FilePath}

-- The values of `errno` that the program tells apart.
pub data Errno : Type 0 where
  eintr eagain epipe econnreset ebadf einval : Errno
  other : ℕ → Errno

-- A system call returns a value, or -1 and `errno`.
pub data Reply (A : Type 0) : Type 0 where
  done : A → Reply A
  failed : Errno → Reply A

-- The options that `setsockopt` is called with.
pub data SocketOption : Type 0 where
  reuse_address : Bool → SocketOption
  receive_timeout send_timeout : ℤ → SocketOption

-- A `sockaddr_in`; its port is the number that `htons` was given.
pub record SocketAddress : Type 0 where
  pub sin_addr : ℕ
  pub sin_port : ℕ

-- The address of a peer as the program keeps it.
pub record Address : Type 0 where
  pub ip : Bytes
  pub port : ℕ

-- The signals that the program tells apart.
pub data Signal : Type 0 where
  sigint sigterm sigpipe : Signal
  other_signal : ℕ → Signal

-- What `sigaction` can install: SIG_IGN, or `Server::handle_signal`.
pub data SignalAction : Type 0 where
  sig_default sig_ign handle_signal : SignalAction

-- `entry.is_regular_file(ec)`: the answer, and whether `ec` is set.
pub record Probe : Type 0 where
  pub regular : Bool
  pub failed : Bool

-- `create_directories(p, ec)`: whether a directory was made, and whether `ec` is set.
pub record Creation : Type 0 where
  pub created : Bool
  pub failed : Bool

-- The calls of the system on a world. Each returns: one that waits for ever is not modelled.
-- `allocates n w` says whether the memory for a buffer of `n` bytes can be had; `write` hands bytes to
-- an open stream, and the program does not ask whether they fit on the disk.
pub record Os : Type 1 where
  pub World : Type 0
  pub socket : World → Reply ℕ × World
  pub setsockopt : ℕ → SocketOption → World → Reply (Unit {0}) × World
  pub inet_pton : Bytes → Option ℕ
  pub inet_ntop : ℕ → Option Bytes
  pub sigaction : Signal → SignalAction → World → World
  pub bind : ℕ → ℕ → ℕ → World → Reply (Unit {0}) × World
  pub listen : ℕ → ℤ → World → Reply (Unit {0}) × World
  pub accept : ℕ → World → Reply (ℕ × SocketAddress) × World
  pub getpeername : ℕ → World → Reply SocketAddress × World
  pub connect : ℕ → ℕ → ℕ → World → Reply (Unit {0}) × World
  pub send : ℕ → Bytes → World → Reply ℕ × World
  pub recv : ℕ → ℕ → World → Reply Bytes × World
  pub shutdown : ℕ → World → World
  pub close : ℕ → World → World
  pub stop_requested : World → Bool × World
  pub exists : FilePath → World → Bool × World
  pub create_directories : FilePath → World → Creation × World
  pub canonical : FilePath → World → Option FilePath × World
  pub weakly_canonical : FilePath → World → Option FilePath × World
  pub is_directory : FilePath → World → Bool × World
  pub is_regular_file : FilePath → World → Bool × World
  pub file_size : FilePath → World → Option ℕ × World
  pub directory_entries : FilePath → World → List Bytes × World
  pub probe_entry : Bytes → World → Probe × World
  pub entry_size : Bytes → World → Option ℕ × World
  pub open_read : FilePath → World → Option ℕ × World
  pub allocates : ℕ → World → Bool
  pub read : ℕ → ℕ → World → Bytes × World
  pub open_write : FilePath → World → Option ℕ × World
  pub write : ℕ → Bytes → World → World
