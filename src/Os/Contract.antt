-- ===== src/Os/Contract.antt =====
-- What the program relies on in the calls of `Os`: documented behaviour, as named hypotheses.
use multi_client_media_strea.Base.{
  ℕ, ◌⊎◌, inl, inr, Bool-cases, ◌≤◌, ◌<◌, ◌++◌, ◌≡◌, ◌≢◌, ℤ, Bool, true, false, List, [], ◌∷◌, some,
  Bytes, length, take, drop,
}
use multi_client_media_strea.FilePath.{FilePath}
use multi_client_media_strea.Os.{Os, Reply, done, failed, eintr, Signal, SignalAction, SocketOption}

-- `send` takes a prefix of what it is given, and says how much.
abbrev pub Sends : Bytes → Bytes → Reply ℕ → Bytes → Type 0
Sends chunk before (done n) after = (n ≤ length chunk) × (after ≡ before ++ take n chunk)
Sends chunk before (failed _) after = after ≡ before

-- `recv` hands over no more than there is room for.
abbrev pub Receives : ℕ → Bytes → Reply Bytes → Bytes → Type 0
Receives room before (done s) after = (length s ≤ room) × (after ≡ before ++ s)
Receives room before (failed _) after = after ≡ before

-- Once the peer has closed the connection and all of it is taken, `recv` returns 0 bytes, then and
-- ever after.
abbrev pub Closes : Bool → Reply Bytes → Bool → Type 0
Closes before (done []) after = after ≡ true
Closes before (done (c ∷ s)) after = before ≡ false
Closes before (failed _) after = after ≡ before

-- The calls that move no byte of a socket or of an open file leave a view of the world alone.
pub record Untouched {A : Type 0} (os : Os) (view : os.World → A) : Type 0 where
  pub by_stop_requested : (w : os.World) → view (os.stop_requested w).1 ≡ view w
  pub by_shutdown : (fd : ℕ) (w : os.World) → view (os.shutdown fd w) ≡ view w
  pub by_close : (fd : ℕ) (w : os.World) → view (os.close fd w) ≡ view w

-- The calls on directories and paths leave a view of the world alone.
pub record UntouchedByFiles {A : Type 0} (os : Os) (view : os.World → A) : Type 0 where
  pub by_exists : (p : FilePath) (w : os.World) → view (os.exists p w).1 ≡ view w
  pub by_weakly_canonical :
      (p : FilePath) (w : os.World) → view (os.weakly_canonical p w).1 ≡ view w
  pub by_is_directory : (p : FilePath) (w : os.World) → view (os.is_directory p w).1 ≡ view w
  pub by_is_regular_file : (p : FilePath) (w : os.World) → view (os.is_regular_file p w).1 ≡ view w
  pub by_file_size : (p : FilePath) (w : os.World) → view (os.file_size p w).1 ≡ view w
  pub by_directory_entries :
      (p : FilePath) (w : os.World) → view (os.directory_entries p w).1 ≡ view w
  pub by_probe_entry : (name : Bytes) (w : os.World) → view (os.probe_entry name w).1 ≡ view w
  pub by_entry_size : (name : Bytes) (w : os.World) → view (os.entry_size name w).1 ≡ view w
  pub by_create_directories :
      (p : FilePath) (w : os.World) → view (os.create_directories p w).1 ≡ view w
  pub by_canonical : (p : FilePath) (w : os.World) → view (os.canonical p w).1 ≡ view w
  pub by_open_write : (p : FilePath) (w : os.World) → view (os.open_write p w).1 ≡ view w
  pub by_open_read : (p : FilePath) (w : os.World) → view (os.open_read p w).1 ≡ view w

-- A descriptor's history: the bytes handed over to the kernel for the peer so far, and those taken
-- from it. Only `send` adds to the first and only `recv` to the second. The flag says that the peer
-- has closed the connection and `recv` has said so.
pub record Wire (os : Os) : Type 0 where
  pub delivered : ℕ → os.World → Bytes
  pub received : ℕ → os.World → Bytes
  pub closed : ℕ → os.World → Bool
  pub delivered_untouched : (fd : ℕ) → Untouched os (delivered fd)
  pub received_untouched : (fd : ℕ) → Untouched os (received fd)
  pub delivered_by_files : (fd : ℕ) → UntouchedByFiles os (delivered fd)
  pub received_by_files : (fd : ℕ) → UntouchedByFiles os (received fd)
  pub closed_by_files : (fd : ℕ) → UntouchedByFiles os (closed fd)
  pub send_receives :
      (fd fd' : ℕ) (b : Bytes) (w : os.World) → received fd (os.send fd' b w).1 ≡ received fd w
  pub recv_delivers :
      (fd fd' n : ℕ) (w : os.World) → delivered fd (os.recv fd' n w).1 ≡ delivered fd w
  pub write_delivers :
      (fd h : ℕ) (b : Bytes) (w : os.World) → delivered fd (os.write h b w) ≡ delivered fd w
  pub write_receives :
      (fd h : ℕ) (b : Bytes) (w : os.World) → received fd (os.write h b w) ≡ received fd w
  pub write_closed :
      (fd h : ℕ) (b : Bytes) (w : os.World) → closed fd (os.write h b w) ≡ closed fd w
  pub recv_closed :
      (fd room : ℕ) (w : os.World)
      → 0 < room
      → Closes (closed fd w) (os.recv fd room w).0 (closed fd (os.recv fd room w).1)
  pub read_delivers : (fd h n : ℕ) (w : os.World) → delivered fd (os.read h n w).1 ≡ delivered fd w
  pub read_receives : (fd h n : ℕ) (w : os.World) → received fd (os.read h n w).1 ≡ received fd w
  pub send_law :
      (fd : ℕ) (chunk : Bytes) (w : os.World)
      → Sends chunk (delivered fd w) (os.send fd chunk w).0 (delivered fd (os.send fd chunk w).1)
  pub recv_law :
      (fd room : ℕ) (w : os.World)
      → Receives room (received fd w) (os.recv fd room w).0 (received fd (os.recv fd room w).1)

-- An open file that nobody writes to: a read takes the next bytes of what is left to read, as many
-- as it asks for or all there are, and nothing else moves on in it.
pub record Reading (os : Os) : Type 0 where
  pub unread : ℕ → os.World → Bytes
  pub unread_untouched : (h : ℕ) → Untouched os (unread h)
  pub send_reads :
      (h fd : ℕ) (chunk : Bytes) (w : os.World) → unread h (os.send fd chunk w).1 ≡ unread h w
  pub read_law :
      (h n : ℕ) (w : os.World)
      → ((os.read h n w).0 ≡ take n (unread h w))
        × (unread h (os.read h n w).1 ≡ drop n (unread h w))

-- A stream that is open for writing. `written` is its history: the bytes that have been handed to
-- `write` since it was opened, whether they fit on the disk or not; no call on a socket and no
-- `canonical` adds to it. `stored` is what the file holds once the stream is closed. If no write and
-- not the flush at the close has failed, that is what has been written.
pub record Saving (os : Os) : Type 0 where
  pub written : ℕ → os.World → Bytes
  pub stored : ℕ → os.World → Bytes
  pub broken : ℕ → os.World → Bool
  pub stored_law : (h : ℕ) (w : os.World) → broken h w ≡ false → stored h w ≡ written h w
  pub open_law :
      (p : FilePath) (h : ℕ) (w w' : os.World)
      → os.open_write p w ≡ (some h, w')
      → written h w' ≡ []
  pub write_law : (h : ℕ) (b : Bytes) (w : os.World) → written h (os.write h b w) ≡ written h w ++ b
  pub recv_writes : (h fd n : ℕ) (w : os.World) → written h (os.recv fd n w).1 ≡ written h w
  pub send_writes :
      (h fd : ℕ) (b : Bytes) (w : os.World) → written h (os.send fd b w).1 ≡ written h w
  pub canonical_writes :
      (h : ℕ) (p : FilePath) (w : os.World) → written h (os.canonical p w).1 ≡ written h w

-- The file holds what has been written, or a write or the flush at the close has failed.
abbrev pub Stores : (os : Os) → Saving os → ℕ → os.World → Type 0
Stores os saving h w = (saving.stored h w ≡ saving.written h w) ⊎ (saving.broken h w ≡ true)

pub stores : (os : Os) (saving : Saving os) (h : ℕ) (w : os.World) → Stores os saving h w
stores os saving h w = elim (Bool-cases (saving.broken h w)) [
  | inl failing ↦ inr failing
  | inr whole ↦ inl (saving.stored_law h w whole)
]

-- A signal interrupts a call finitely often: each interruption uses one up, and no call adds any.
abbrev pub Spends : {A : Type 0} → Reply A → ℕ → ℕ → Type 0
Spends (failed eintr) before after = after < before
Spends _ before after = after ≤ before

pub record Patience (os : Os) : Type 0 where
  pub pending : os.World → ℕ
  pub untouched : Untouched os pending
  pub by_files : UntouchedByFiles os pending
  pub by_read : (h n : ℕ) (w : os.World) → pending (os.read h n w).1 ≡ pending w
  pub by_write : (h : ℕ) (b : Bytes) (w : os.World) → pending (os.write h b w) ≡ pending w
  pub send_spends :
      (fd : ℕ) (chunk : Bytes) (w : os.World)
      → Spends (os.send fd chunk w).0 (pending w) (pending (os.send fd chunk w).1)
  pub recv_spends :
      (fd room : ℕ) (w : os.World)
      → Spends (os.recv fd room w).0 (pending w) (pending (os.recv fd room w).1)

-- What becomes of a signal: `sigaction` sets it for one signal, and the calls on sockets leave it
-- alone.
pub record Signals (os : Os) : Type 0 where
  pub action : Signal → os.World → SignalAction
  pub sigaction_law :
      (s : Signal) (a : SignalAction) (w : os.World) → action s (os.sigaction s a w) ≡ a
  pub sigaction_others :
      (s t : Signal) (a : SignalAction) (w : os.World)
      → s ≢ t
      → action t (os.sigaction s a w) ≡ action t w
  pub by_socket : (t : Signal) (w : os.World) → action t (os.socket w).1 ≡ action t w
  pub by_setsockopt :
      (t : Signal) (fd : ℕ) (o : SocketOption) (w : os.World)
      → action t (os.setsockopt fd o w).1 ≡ action t w
  pub by_bind :
      (t : Signal) (fd ip port : ℕ) (w : os.World) → action t (os.bind fd ip port w).1 ≡ action t w
  pub by_listen :
      (t : Signal) (fd : ℕ) (backlog : ℤ) (w : os.World)
      → action t (os.listen fd backlog w).1 ≡ action t w
  pub by_close : (t : Signal) (fd : ℕ) (w : os.World) → action t (os.close fd w) ≡ action t w

-- The peers send finitely many bytes: the bytes to come count among what is pending, and `recv` uses
-- up one at least when it returns any.
pub record Dwindling (os : Os) (patience : Patience os) : Type 0 where
  pub recv_dwindles :
      (fd room c : ℕ) (s : Bytes) (w : os.World)
      → (os.recv fd room w).0 ≡ done (c ∷ s)
      → patience.pending (os.recv fd room w).1 < patience.pending w

-- The paths that the file system has been asked about so far, in order. `weakly_canonical` looks a
-- path up and is not counted; `probe_entry` and `entry_size` are about an entry of a directory that
-- was asked about.
pub record Asking (os : Os) : Type 0 where
  pub asked : os.World → List FilePath
  pub by_exists : (p : FilePath) (w : os.World) → asked (os.exists p w).1 ≡ asked w ++ p ∷ []
  pub by_is_directory :
      (p : FilePath) (w : os.World) → asked (os.is_directory p w).1 ≡ asked w ++ p ∷ []
  pub by_is_regular_file :
      (p : FilePath) (w : os.World) → asked (os.is_regular_file p w).1 ≡ asked w ++ p ∷ []
  pub by_file_size : (p : FilePath) (w : os.World) → asked (os.file_size p w).1 ≡ asked w ++ p ∷ []
  pub by_directory_entries :
      (p : FilePath) (w : os.World) → asked (os.directory_entries p w).1 ≡ asked w ++ p ∷ []
  pub by_open_read : (p : FilePath) (w : os.World) → asked (os.open_read p w).1 ≡ asked w ++ p ∷ []
  pub by_weakly_canonical :
      (p : FilePath) (w : os.World) → asked (os.weakly_canonical p w).1 ≡ asked w
  pub by_probe_entry : (name : Bytes) (w : os.World) → asked (os.probe_entry name w).1 ≡ asked w
  pub by_entry_size : (name : Bytes) (w : os.World) → asked (os.entry_size name w).1 ≡ asked w
  pub by_read : (h n : ℕ) (w : os.World) → asked (os.read h n w).1 ≡ asked w
  pub by_send : (fd : ℕ) (b : Bytes) (w : os.World) → asked (os.send fd b w).1 ≡ asked w
  pub by_recv : (fd n : ℕ) (w : os.World) → asked (os.recv fd n w).1 ≡ asked w
  pub untouched : Untouched os asked

-- What the process has done with each descriptor, in any form: a call on one descriptor leaves it
-- alone for the others, and so do the calls on files.
pub record Separate {A : Type 0} (os : Os) (use_of : ℕ → os.World → A) : Type 0 where
  pub by_send :
      (fd other_fd : ℕ) (b : Bytes) (w : os.World)
      → fd ≢ other_fd
      → use_of other_fd (os.send fd b w).1 ≡ use_of other_fd w
  pub by_recv :
      (fd other_fd n : ℕ) (w : os.World)
      → fd ≢ other_fd
      → use_of other_fd (os.recv fd n w).1 ≡ use_of other_fd w
  pub by_shutdown :
      (fd other_fd : ℕ) (w : os.World)
      → fd ≢ other_fd
      → use_of other_fd (os.shutdown fd w) ≡ use_of other_fd w
  pub by_close :
      (fd other_fd : ℕ) (w : os.World)
      → fd ≢ other_fd
      → use_of other_fd (os.close fd w) ≡ use_of other_fd w
  pub by_stop_requested : (fd : ℕ) (w : os.World) → use_of fd (os.stop_requested w).1 ≡ use_of fd w
  pub by_read : (fd h n : ℕ) (w : os.World) → use_of fd (os.read h n w).1 ≡ use_of fd w
  pub by_files : (fd : ℕ) → UntouchedByFiles os (use_of fd)
