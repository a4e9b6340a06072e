-- ===== src/ClientSession/Keeps/Run.antt =====
-- Handlers, rounds and the whole run: what the calls of the system keep, they keep, whatever the
-- client sends.
use multi_client_media_strea.Base.{
  ℕ, zero, suc, ◌-◌, Bool, true, false, [], ◌∷◌, ◌≡◌, Option, none, some, inl, inr, Bool-cases,
  Bytes, codes, min,
}
use multi_client_media_strea.ClientSession
use multi_client_media_strea.ClientSession.{
  ClientSession, FileStream, load_active, if_sent, read_stream, send_chunk, stream_body,
  stream_round, stream_loop, reply_error, send_file, after_open, after_size, handle_get,
  handle_list, respond, run_round, run_loop, deactivate,
}
use multi_client_media_strea.ClientSession.Keeps.{
  IsOn, Holds, HoldsOn, send_string-Holds, send_all-Holds, recv_line-Holds, close-Holds,
  load_active-HoldsOn, if_sent-HoldsOn, reply_error-HoldsOn,
}
use multi_client_media_strea.ClientSession.Steps.{with_buffer-Ensures}
use multi_client_media_strea.FileManager.{FileManager, list_files, resolve_safe_path}
use multi_client_media_strea.FileManager.Keeps.{
  get_file_size-Keeps, open_binary_file-Keeps, list_files-Keeps,
}
use multi_client_media_strea.FilePath.{FilePath}
use multi_client_media_strea.Os.{Os}
use multi_client_media_strea.Os.Keeping.{KeptBySession, KeptByFiles}
use multi_client_media_strea.Os.Monad.{M, Ensures, Ensures->>=}
use multi_client_media_strea.Protocol.{
  CommandType, list, get, quit, unknown, parse_request, build_list_response, build_get_header,
  build_ok_response,
}
use multi_client_media_strea.Socket.{send_all, send_string, recv_line}

module _ (os : Os) (I : os.World → Type 0) (fd : ℕ) (kept : KeptBySession os I fd)
    (Allowed : FilePath → Type 0) (files : KeptByFiles os I Allowed) (rounds : ℕ) where
  abbrev On : ClientSession × os.World → Type 0
  On = HoldsOn os I fd kept

  abbrev Still : {A : Type 0} → A × os.World → Type 0
  Still = Holds os I fd kept

  abbrev StreamKeeps : (ClientSession → FileStream → ℕ → M os.World ClientSession) → Type 0
  StreamKeeps again =
      (s : ClientSession) (stream : FileStream) (total : ℕ) (w : os.World)
      → IsOn fd s
      → I w
      → Ensures On (again s stream total w)

  send_chunk-HoldsOn :
      (again : ClientSession → FileStream → ℕ → M os.World ClientSession) (s : ClientSession)
      (total : ℕ) (chunk : Bytes) (stream : FileStream) (w : os.World)
      → StreamKeeps again
      → IsOn fd s
      → I w
      → Ensures On (send_chunk os rounds again s total (chunk, stream) w)
  unfolding send_chunk
  send_chunk-HoldsOn again s total [] stream w k o i = (o, i)
  send_chunk-HoldsOn again s total (c ∷ cs) stream w k o i =
      Ensures->>= Still On _ (send_all os rounds s.socket (c ∷ cs)) w
        (send_all-Holds os I fd kept rounds s (c ∷ cs) w o i)
        (λ r v j. if_sent-HoldsOn os I fd kept s r.0 _ v o j (λ _. k s stream _ v o j))

  stream_body-HoldsOn :
      (again : ClientSession → FileStream → ℕ → M os.World ClientSession) (file_size : ℕ)
      (stream : FileStream) (total : ℕ) (s : ClientSession) (test : Bool) (w : os.World)
      → StreamKeeps again
      → IsOn fd s
      → I w
      → Ensures On (stream_body os rounds again file_size stream total s test w)
  unfolding stream_body read_stream
  stream_body-HoldsOn again file_size stream total s false w k o i = (o, i)
  stream_body-HoldsOn again file_size stream total s true w k o i =
      let n = min s.chunk_size (file_size - total) in
      send_chunk-HoldsOn again s total (os.read stream.handle n w).0 _ _ k o
        (kept.by_read stream.handle n w i)

  stream_loop-HoldsOn : (fuel file_size : ℕ) → StreamKeeps (stream_loop os rounds fuel file_size)
  unfolding stream_loop stream_round
  stream_loop-HoldsOn zero file_size s stream total w o i = tt
  stream_loop-HoldsOn (suc fuel) file_size s stream total w o i =
      Ensures->>= On On _ (load_active os s) w (load_active-HoldsOn os I fd kept s w o i) (λ t v h.
        stream_body-HoldsOn (stream_loop os rounds fuel file_size) file_size stream total t _ v
          (stream_loop-HoldsOn fuel file_size) h.0 h.1)

  send_file-HoldsOn :
      (s : ClientSession) (file_size handle : ℕ) (w : os.World)
      → IsOn fd s
      → I w
      → Ensures On (send_file os rounds s file_size handle w)
  unfolding send_file
  send_file-HoldsOn s file_size handle w o i =
      Ensures->>= Still On _ (send_string os rounds s.socket (build_get_header file_size)) w
        (send_string-Holds os I fd kept rounds s (build_get_header file_size) w o i)
        (λ all v j. if_sent-HoldsOn os I fd kept s all _ v o j (λ _.
          let stream : FileStream = record { handle = handle; good = true } in
          with_buffer-Ensures os On s (stream_loop os rounds rounds file_size s stream 0) v
            (stream_loop-HoldsOn rounds file_size s stream 0 v o j)))

  after_open-HoldsOn :
      (s : ClientSession) (file_size : ℕ) (opened : Option ℕ) (w : os.World)
      → IsOn fd s
      → I w
      → Ensures On (after_open os rounds s file_size opened w)
  unfolding after_open
  after_open-HoldsOn s file_size none w o i =
      reply_error-HoldsOn os I fd kept rounds s (codes "FILE_OPEN_FAILED") w o i
  after_open-HoldsOn s file_size (some handle) w o i = send_file-HoldsOn s file_size handle w o i

  module _ (fm : FileManager) (root : Allowed fm.canonical_root)
      (safe : (filename : Bytes) (p : FilePath) (w w' : os.World)
        → resolve_safe_path os fm filename w ≡ (some p, w')
        → Allowed p) where
    after_size-HoldsOn :
        (s : ClientSession) (filename : Bytes) (size : Option ℕ) (w : os.World)
        → IsOn fd s
        → I w
        → Ensures On (after_size os rounds fm s filename size w)
    unfolding after_size
    after_size-HoldsOn s filename none w o i =
        reply_error-HoldsOn os I fd kept rounds s (codes "FILE_NOT_FOUND") w o i
    after_size-HoldsOn s filename (some file_size) w o i =
        after_open-HoldsOn s file_size _ _ o
          (open_binary_file-Keeps os I Allowed files fm safe filename w i)

    handle_get-HoldsOn :
        (s : ClientSession) (filename : Bytes) (w : os.World)
        → IsOn fd s
        → I w
        → Ensures On (handle_get os rounds fm s filename w)
    unfolding handle_get
    handle_get-HoldsOn s [] w o i =
        reply_error-HoldsOn os I fd kept rounds s (codes "EMPTY_FILENAME") w o i
    handle_get-HoldsOn s (c ∷ cs) w o i =
        after_size-HoldsOn s (c ∷ cs) _ _ o
          (get_file_size-Keeps os I Allowed files fm safe (c ∷ cs) w i)

    handle_list-HoldsOn :
        (s : ClientSession) (w : os.World)
        → IsOn fd s
        → I w
        → Ensures On (handle_list os rounds fm s w)
    unfolding handle_list
    handle_list-HoldsOn s w o i =
        let reply = build_list_response (list_files os fm w).0 in
        Ensures->>= Still On _ (send_string os rounds s.socket reply) _
          (send_string-Holds os I fd kept rounds s reply _ o
            (list_files-Keeps os I Allowed files fm w root i))
          (λ all v j. if_sent-HoldsOn os I fd kept s all _ v o j (λ _. (o, j)))

    pub respond-HoldsOn :
        (s : ClientSession) (type : CommandType) (argument : Bytes) (w : os.World)
        → IsOn fd s
        → I w
        → Ensures On (respond os rounds fm s type argument w)
    unfolding respond
    respond-HoldsOn s list argument w o i = handle_list-HoldsOn s w o i
    respond-HoldsOn s get argument w o i = handle_get-HoldsOn s argument w o i
    respond-HoldsOn s quit argument w o i =
        let bye = build_ok_response (codes "BYE") in
        Ensures->>= Still On _ (send_string os rounds s.socket bye) w
          (send_string-Holds os I fd kept rounds s bye w o i) (λ all v j. (o, j))
    respond-HoldsOn s unknown argument w o i =
        reply_error-HoldsOn os I fd kept rounds s (codes "INVALID_REQUEST") w o i

    module _ (by_recv : (n : ℕ) (w : os.World) → I w → I (os.recv fd n w).1) where
      run_round-HoldsOn :
          (again : ClientSession → M os.World ClientSession) (s : ClientSession) (w : os.World)
          → ((t : ClientSession) (v : os.World) → IsOn fd t → I v → Ensures On (again t v))
          → IsOn fd s
          → I w
          → Ensures On (run_round os rounds again fm s w)
      unfolding run_round
      run_round-HoldsOn again s w k o i = elim (Bool-cases s.is_active) [
        | inr over ↦ rw (over, run_round) (o, i)
        | inl on ↦
            rw (on, run_round)
              (Ensures->>= Still On _ (recv_line os rounds s.socket 4096) w
                (recv_line-Holds os I fd kept by_recv rounds s w o i)
                (λ reply v j. elim (Bool-cases reply.0) [
                  | inr hung_up ↦ rw (hung_up, run_round) (o, j)
                  | inl got ↦
                      let request = parse_request reply.1 in
                      rw (got, run_round)
                        (Ensures->>= On On _ (respond os rounds fm s request.type request.argument)
                          v (respond-HoldsOn s request.type request.argument v o j)
                          (λ t u h. k t u h.0 h.1))
                ]))
      ]

      run_loop-HoldsOn :
          (fuel : ℕ) (s : ClientSession) (w : os.World)
          → IsOn fd s
          → I w
          → Ensures On (run_loop os rounds fuel fm s w)
      unfolding run_loop
      run_loop-HoldsOn zero s w o i = tt
      run_loop-HoldsOn (suc fuel) s w o i =
          Ensures->>= On On _ (load_active os s) w (load_active-HoldsOn os I fd kept s w o i)
            (λ t v h.
              run_round-HoldsOn (run_loop os rounds fuel fm) t v
                (λ t' v' o' j'. run_loop-HoldsOn fuel t' v' o' j') h.0 h.1)

      pub run-Holds :
          (fuel : ℕ) (s : ClientSession) (w : os.World)
          → IsOn fd s
          → I w
          → Ensures (λ r. I r.1) (ClientSession.run os rounds fuel fm s w)
      unfolding ClientSession.run
      run-Holds fuel s w o i =
          Ensures->>= On Still _ (run_loop os rounds fuel fm (record s { is_active = true })) w
            (run_loop-HoldsOn fuel (record s { is_active = true }) w o i)
            (λ t v h. (close-Holds os I fd kept t.socket v h.0 h.1).1)
