-- ===== src/ClientSession/Keeps.antt =====
-- A property of the world that the calls on the session's descriptor keep, and those of the file
-- system on allowed paths, a whole session keeps.
pub mod Run
use multi_client_media_strea.Base.{
  ℕ, zero, suc, ◌+◌, ◌-◌, Bool, true, false, [], ◌∷◌, ◌≡◌, refl, sym, ap, arith, Option, none, some,
  inl, inr, ◌⊎◌, Bool-cases, Bytes, codes, ℤ, pos, negsuc, length, min, ltb, ◌&&◌,
}
use multi_client_media_strea.ClientSession
use multi_client_media_strea.ClientSession.{
  ClientSession, FileStream, load_active, stop, if_sent, read_stream, send_chunk, stream_body,
  stream_round, stream_loop, reply_error, send_file, after_open, after_size, handle_get,
  handle_list, respond, run_round, run_loop, deactivate,
}
use multi_client_media_strea.FileManager.{
  FileManager, get_file_size, open_binary_file, list_files, resolve_safe_path,
}
use multi_client_media_strea.FileManager.Keeps.{
  get_file_size-Keeps, open_binary_file-Keeps, list_files-Keeps,
}
use multi_client_media_strea.FilePath.{FilePath}
use multi_client_media_strea.Os.{Os}
use multi_client_media_strea.Os.Keeping.{KeptBySession, KeptByFiles}
use multi_client_media_strea.Os.Monad.{M, Ensures, Ensures->>=}
use multi_client_media_strea.Protocol.{
  CommandType, list, get, quit, unknown, parse_request, build_list_response, build_get_header,
  build_error_response, build_ok_response,
}
use multi_client_media_strea.Socket
use multi_client_media_strea.Socket.{Socket, invalid, send_all, send_string, recv_line}
use multi_client_media_strea.Socket.Keeps.{send_all-Keeps, send_string-Keeps, recv_line-Keeps}

-- The session's socket has this descriptor, or none any more.
abbrev pub IsOn : ℕ → ClientSession → Type 0
IsOn fd s = (s.socket ≡ record { fd = pos fd }) ⊎ (s.socket ≡ invalid)

module _ (os : Os) (I : os.World → Type 0) (fd : ℕ) (kept : KeptBySession os I fd) where
  -- It holds behind a computation.
  abbrev pub Holds : {A : Type 0} → A × os.World → Type 0
  Holds r = I r.1

  -- So it does, and the session has no other socket.
  abbrev pub HoldsOn : ClientSession × os.World → Type 0
  HoldsOn r = IsOn fd r.0 × I r.1

  pub send_string-Holds :
      (rounds : ℕ) (s : ClientSession) (str : Bytes) (w : os.World)
      → IsOn fd s
      → I w
      → Ensures Holds (send_string os rounds s.socket str w)
  send_string-Holds rounds s str w (inl e) i =
      rw e (send_string-Keeps os I fd kept.by_send str rounds w i)
  send_string-Holds rounds s str w (inr e) i = rw e (unfold send_string send_all in i)

  pub send_all-Holds :
      (rounds : ℕ) (s : ClientSession) (b : Bytes) (w : os.World)
      → IsOn fd s
      → I w
      → Ensures Holds (send_all os rounds s.socket b w)
  send_all-Holds rounds s b w (inl e) i = rw e (send_all-Keeps os I fd kept.by_send b rounds w i)
  send_all-Holds rounds s b w (inr e) i = rw e (unfold send_all in i)

  pub recv_line-Holds :
      (by_recv : (n : ℕ) (w : os.World) → I w → I (os.recv fd n w).1) (rounds : ℕ)
      (s : ClientSession) (w : os.World)
      → IsOn fd s
      → I w
      → Ensures Holds (recv_line os rounds s.socket 4096 w)
  recv_line-Holds by_recv rounds s w (inl e) i =
      rw e (recv_line-Keeps os I fd by_recv 4096 rounds w i)
  recv_line-Holds by_recv rounds s w (inr e) i = rw e (unfold recv_line in i)

  pub close-Holds :
      (s : Socket) (w : os.World)
      → (s ≡ record { fd = pos fd }) ⊎ (s ≡ invalid)
      → I w
      → ((Socket.close os s w).0 ≡ invalid) × I (Socket.close os s w).1
  close-Holds s w (inl e) i = rw e (unfold Socket.close in (refl, kept.by_close w i))
  close-Holds s w (inr e) i = rw e (unfold Socket.close in (refl, i))

  shutdown-Holds :
      (s : Socket) (w : os.World)
      → (s ≡ record { fd = pos fd }) ⊎ (s ≡ invalid)
      → I w
      → I (Socket.shutdown os s w)
  shutdown-Holds s w (inl e) i = rw e (unfold Socket.shutdown in kept.by_shutdown w i)
  shutdown-Holds s w (inr e) i = rw e (unfold Socket.shutdown in i)

  stop-HoldsOn : (s : ClientSession) (w : os.World) → IsOn fd s → I w → HoldsOn (stop os s w)
  unfolding stop
  stop-HoldsOn s w o i =
      let closed =
        close-Holds s.socket (Socket.shutdown os s.socket w) o (shutdown-Holds s.socket w o i) in
      elim (Bool-cases s.is_active) [
        | inl on ↦ rw (on, stop) (inr closed.0, closed.1)
        | inr off ↦ rw (off, stop) (o, i)
      ]

  pub load_active-HoldsOn :
      (s : ClientSession) (w : os.World) → IsOn fd s → I w → Ensures HoldsOn (load_active os s w)
  unfolding load_active
  load_active-HoldsOn s w o i =
      let i' = kept.by_stop_requested w i in
      elim (Bool-cases (os.stop_requested w).0) [
        | inl asked ↦ rw (asked, load_active) (stop-HoldsOn s (os.stop_requested w).1 o i')
        | inr quiet ↦ rw (quiet, load_active) (o, i')
      ]

  pub if_sent-HoldsOn :
      (s : ClientSession) (all : Bool) (rest : M os.World ClientSession) (w : os.World)
      → IsOn fd s
      → I w
      → (I w → Ensures HoldsOn (rest w))
      → Ensures HoldsOn (if_sent os s all rest w)
  unfolding if_sent
  if_sent-HoldsOn s false rest w o i k = (o, i)
  if_sent-HoldsOn s true rest w o i k = k i

  pub reply_error-HoldsOn :
      (rounds : ℕ) (s : ClientSession) (message : Bytes) (w : os.World)
      → IsOn fd s
      → I w
      → Ensures HoldsOn (reply_error os rounds s message w)
  unfolding reply_error
  reply_error-HoldsOn rounds s message w o i =
      Ensures->>= Holds HoldsOn _ (send_string os rounds s.socket (build_error_response message)) w
        (send_string-Holds rounds s (build_error_response message) w o i) (λ r v j. (o, j))
