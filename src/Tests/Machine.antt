-- ===== src/Tests/Machine.antt =====
-- A small operating system for the tests: one connection, one file, and a peer that closes the
-- connection behind its last byte. A call moves `burst` bytes and one more at most. Promises shows that it
-- keeps the contracts of Os/Contract.
use multi_client_media_strea.Base.{
  ℕ, zero, suc, Bool, true, false, not, ◌&&◌, ◌||◌, List, [], ◌∷◌, ◌++◌, Option, none, some, Bytes,
  codes, bytes_eq, length, take, drop, min, if◌then◌else◌, ◌==◌, ltb, ◌^◌,
}
use multi_client_media_strea.FilePath.{FilePath, no_bytes, dot, dot_dot}
use multi_client_media_strea.Os.{
  Os, Reply, done, failed, eintr, Signal, sigint, sigterm, sigpipe, other_signal, SignalAction,
}

pub record Machine : Type 0 where
  pub sent : Bytes
  pub taken : Bytes
  pub incoming : Bytes
  pub file : Bytes
  pub saved : Bytes
  pub burst : ℕ
  pub ended : Bool
  pub interrupts : ℕ
  pub stopping : Bool
  pub actions : Signal → SignalAction

abbrev pub same_signal : Signal → Signal → Bool
same_signal sigint sigint = true
same_signal sigterm sigterm = true
same_signal sigpipe sigpipe = true
same_signal (other_signal m) (other_signal n) = m == n
same_signal _ _ = false

abbrev pub send_now : Bytes → ℕ → Machine → Reply ℕ × Machine
send_now chunk zero w =
    let n = min (suc w.burst) (length chunk) in (done n, record w { sent = w.sent ++ take n chunk })
send_now chunk (suc k) w = (failed eintr, record w { interrupts = k })

abbrev pub recv_some : Bytes → Bytes → Machine → Reply Bytes × Machine
recv_some [] rest w = (done [], record w { ended = true })
recv_some (c ∷ s) rest w = (done (c ∷ s), record w { taken = w.taken ++ (c ∷ s); incoming = rest })

abbrev pub recv_open : Bool → ℕ → Machine → Reply Bytes × Machine
recv_open true n w = (done [], w)
recv_open false n w = recv_some (take n w.incoming) (drop n w.incoming) w

abbrev pub recv_now : ℕ → ℕ → Machine → Reply Bytes × Machine
recv_now room zero w = recv_open w.ended (min (suc w.burst) room) w
recv_now room (suc k) w = (failed eintr, record w { interrupts = k })

-- The names that a canonical path may hold.
abbrev pub clean_name : Bytes → Bool
clean_name e = not (no_bytes e) && (not (bytes_eq e dot) && not (bytes_eq e dot_dot))

abbrev pub clean : List Bytes → Bool
clean [] = true
clean (e ∷ es) = clean_name e && clean es

-- The names of a path in normal form, which may end in a slash.
abbrev pub tidy : List Bytes → Bool
tidy [] = true
tidy (e ∷ []) = no_bytes e || clean_name e
tidy (e ∷ (f ∷ es)) = clean_name e && tidy (f ∷ es)

-- A path with `.` or `..` in it is refused; there are no links. A slash at the end is kept.
abbrev pub normalize : FilePath → Option FilePath
normalize p = if p.absolute && tidy p.elements then some p else none

-- A path with `.` or `..` in it is refused; there are no links.
abbrev pub resolve : FilePath → Option FilePath
resolve p = if p.absolute && clean p.elements then some p else none

abbrev pub machine : Os
machine = record {
  World = Machine;
  socket = λ w. (done 3, w);
  setsockopt = λ fd o w. (done tt, w);
  inet_pton = λ host. none;
  bind = λ fd ip port w. (done tt, w);
  listen = λ fd backlog w. (done tt, w);
  accept = λ fd w. (done (7, record { sin_addr = 0; sin_port = 45232 }), w);
  getpeername = λ fd w. (done (record { sin_addr = 0; sin_port = 45232 }), w);
  inet_ntop = λ addr. some (codes "127.0.0.1");
  sigaction = λ s a w. record w { actions = λ t. if same_signal s t then a else w.actions t };
  connect = λ fd ip port w. (done tt, w);
  send = λ fd chunk w. send_now chunk w.interrupts w;
  recv = λ fd room w. recv_now room w.interrupts w;
  shutdown = λ fd w. w;
  close = λ fd w. w;
  stop_requested = λ w. (w.stopping, w);
  exists = λ p w. (true, w);
  create_directories = λ p w. (record { created = false; failed = false }, w);
  canonical = λ p w. (some p, w);
  weakly_canonical = λ p w. (normalize p, w);
  is_directory = λ p w. (true, w);
  is_regular_file = λ p w. (true, w);
  file_size = λ p w. (some (length w.file), w);
  directory_entries = λ p w. (codes "b.mp3" ∷ codes ".gitkeep" ∷ codes "a.txt" ∷ [], w);
  probe_entry = λ name w. (record { regular = true; failed = false }, w);
  entry_size = λ name w. (some (length name), w);
  open_read = λ p w. (some 5, w);
  allocates = λ n w. ltb n (2 ^ 63);
  read = λ h n w. (take n w.file, record w { file = drop n w.file });
  open_write = λ p w. (some 6, record w { saved = [] });
  write = λ h b w. record w { saved = w.saved ++ b };
}
