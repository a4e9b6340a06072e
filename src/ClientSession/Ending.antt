-- ===== src/ClientSession/Ending.antt =====
-- Enough rounds for the handler of GET.
use multi_client_media_strea.Base.{
  ℕ, zero, suc, ◌+◌, ◌-◌, ◌≤◌, ◌<◌, Bool, true, false, [], ◌∷◌, ◌≡◌, refl, ap, ◌∙◌, arith, Option,
  none, some, inl, inr, Bool-cases, Bytes, codes, length, min, length-take, length-append,
}
use multi_client_media_strea.ClientSession.{
  ClientSession, FileStream, load_active, if_sent, with_buffer, read_stream, send_chunk,
  stream_body, stream_round, stream_loop, reply_error, send_file, after_open, after_size,
  handle_get,
}
use multi_client_media_strea.ClientSession.Steps.{stop-view, stop-chunk_size}
use multi_client_media_strea.FileManager.{FileManager, get_file_size}
use multi_client_media_strea.FileManager.Quiet.{get_file_size-view, open_binary_file-view}
use multi_client_media_strea.Os.{Os}
use multi_client_media_strea.Os.Contract.{Reading, Patience}
use multi_client_media_strea.Os.Monad.{M, Ends, Ends->>=}
use multi_client_media_strea.Protocol.{build_get_header, build_error_response}
use multi_client_media_strea.Protocol.Decimal.{to_string}
use multi_client_media_strea.Protocol.Decimal.Size.{to_string-length}
use multi_client_media_strea.Socket.{send_all, send_string}
use multi_client_media_strea.Socket.Ending.{send_all-Ends, send_string-Ends}

header_length : (n : ℕ) → length (build_get_header n) ≤ n + 5
unfolding build_get_header
header_length n = omega (arith, to_string-length n, length-append (to_string n) (b'\n' ∷ []))

module _ (os : Os) (reading : Reading os) (patience : Patience os) (rounds size : ℕ) where
  open patience use {pending}

  -- The chunk size has stayed what it was.
  abbrev pub SpentBy : ℕ → ClientSession × os.World → Type 0
  SpentBy start r = (pending r.1 ≤ start) × (r.0.chunk_size ≡ size)

  pub load_active-Ends :
      (s : ClientSession) (w : os.World)
      → Ends (λ r. (pending r.1 ≡ pending w) × (r.0.chunk_size ≡ s.chunk_size)) (load_active os s w)
  unfolding load_active
  load_active-Ends s w = elim (Bool-cases (os.stop_requested w).0) [
    | inl asked ↦
        rw (asked, load_active)
          (
            stop-view os pending patience.untouched s (os.stop_requested w).1
                ∙ patience.untouched.by_stop_requested w,
            stop-chunk_size os s (os.stop_requested w).1,
          )
    | inr quiet ↦ rw (quiet, load_active) (patience.untouched.by_stop_requested w, refl)
  ]

  pub if_sent-Ends :
      (start : ℕ) (s : ClientSession) (all : Bool) (rest : M os.World ClientSession) (w : os.World)
      → s.chunk_size ≡ size
      → pending w ≤ start
      → Ends (SpentBy start) (rest w)
      → Ends (SpentBy start) (if_sent os s all rest w)
  unfolding if_sent
  if_sent-Ends start s false rest w c h k = (h, c)
  if_sent-Ends start s true rest w c h k = k

  module _ (file_size start : ℕ) (enough : start + file_size < rounds) where
    abbrev StreamEnds : ℕ → (ClientSession → FileStream → ℕ → M os.World ClientSession) → Type 0
    StreamEnds fuel again =
        (s : ClientSession) (stream : FileStream) (total : ℕ) (w : os.World)
        → s.chunk_size ≡ size
        → file_size - total < fuel
        → pending w ≤ start
        → Ends (SpentBy start) (again s stream total w)

    send_chunk-Ends :
        (fuel : ℕ) (again : ClientSession → FileStream → ℕ → M os.World ClientSession)
        (s : ClientSession) (total : ℕ) (chunk : Bytes) (stream : FileStream) (w : os.World)
        → StreamEnds fuel again
        → s.chunk_size ≡ size
        → total < file_size
        → file_size - total < suc fuel
        → length chunk ≤ file_size
        → pending w ≤ start
        → Ends (SpentBy start) (send_chunk os rounds again s total (chunk, stream) w)
    unfolding send_chunk
    send_chunk-Ends fuel again s total [] stream w k z m f l p = (p, z)
    send_chunk-Ends fuel again s total (c ∷ cs) stream w k z m f l p =
        Ends->>= _ (SpentBy start) _ (send_all os rounds s.socket (c ∷ cs)) w
          (send_all-Ends os patience rounds s.socket (c ∷ cs) w (omega arith))
          (λ r v h.
            if_sent-Ends start s r.0 _ v z (omega arith)
              (k s stream (total + length (c ∷ cs)) v z (omega arith) (omega arith)))

    stream_body-Ends :
        (fuel : ℕ) (again : ClientSession → FileStream → ℕ → M os.World ClientSession)
        (stream : FileStream) (total : ℕ) (s : ClientSession) (test : Bool) (w : os.World)
        → StreamEnds fuel again
        → s.chunk_size ≡ size
        → (test ≡ true → total < file_size)
        → file_size - total < suc fuel
        → pending w ≤ start
        → Ends (SpentBy start) (stream_body os rounds again file_size stream total s test w)
    unfolding stream_body read_stream
    stream_body-Ends fuel again stream total s false w k z m f p = (p, z)
    stream_body-Ends fuel again stream total s true w k z m f p =
        let n = min s.chunk_size (file_size - total) in
        let chunk = (os.read stream.handle n w).0 in
        let short : length chunk ≤ n = omega (
          arith,
          length-take n (reading.unread stream.handle w),
          ap length (reading.read_law stream.handle n w).0,
        ) in
        send_chunk-Ends fuel again s total chunk _ (os.read stream.handle n w).1 k z (m refl) f
          (omega arith) (omega (arith, patience.by_read stream.handle n w))

    stream_loop-Ends : (fuel : ℕ) → StreamEnds fuel (stream_loop os rounds fuel file_size)
    unfolding stream_loop stream_round
    stream_loop-Ends zero s stream total w z f p = absurd (omega arith)
    stream_loop-Ends (suc fuel) s stream total w z f p =
        Ends->>= _ (SpentBy start) _ (load_active os s) w (load_active-Ends s w) (λ t v h.
          stream_body-Ends fuel (stream_loop os rounds fuel file_size) stream total t _ v
            (stream_loop-Ends fuel) (h.1 ∙ z) (λ e. ground arith) f (omega (arith, h.0)))

  pub reply_error-Ends :
      (start : ℕ) (s : ClientSession) (message : Bytes) (w : os.World)
      → s.chunk_size ≡ size
      → start + length (build_error_response message) < rounds
      → pending w ≤ start
      → Ends (SpentBy start) (reply_error os rounds s message w)
  unfolding reply_error
  reply_error-Ends start s message w z f p =
      Ends->>= _ (SpentBy start) _ (send_string os rounds s.socket (build_error_response message)) w
        (send_string-Ends os patience rounds s.socket (build_error_response message) w
          (omega arith))
        (λ r v h. (omega (arith, h), z))

  with_buffer-Ends :
      (start : ℕ) (s : ClientSession) (rest : M os.World ClientSession) (w : os.World)
      → os.allocates s.chunk_size w ≡ true
      → Ends (SpentBy start) (rest w)
      → Ends (SpentBy start) (with_buffer os s rest w)
  unfolding with_buffer
  with_buffer-Ends start s rest w there k = rw there k

  module _ (start limit : ℕ) (enough : start + limit + 32 < rounds)
      (roomy : (v : os.World) → os.allocates size v ≡ true) where
    send_file-Ends :
        (s : ClientSession) (file_size handle : ℕ) (w : os.World)
        → s.chunk_size ≡ size
        → file_size ≤ limit
        → pending w ≤ start
        → Ends (SpentBy start) (send_file os rounds s file_size handle w)
    unfolding send_file
    send_file-Ends s file_size handle w z l p =
        Ends->>= _ (SpentBy start) _ (send_string os rounds s.socket (build_get_header file_size)) w
          (send_string-Ends os patience rounds s.socket (build_get_header file_size) w
            (omega (arith, header_length file_size)))
          (λ r v h.
            let stream : FileStream = record { handle = handle; good = true } in
            if_sent-Ends start s r _ v z (omega arith) (
              with_buffer-Ends start s (stream_loop os rounds rounds file_size s stream 0) v
                (rw z (roomy v))
                (stream_loop-Ends file_size start (omega arith) rounds s stream 0 v z (omega arith)
                  (omega arith))))

    after_open-Ends :
        (s : ClientSession) (file_size : ℕ) (opened : Option ℕ) (w : os.World)
        → s.chunk_size ≡ size
        → file_size ≤ limit
        → pending w ≤ start
        → Ends (SpentBy start) (after_open os rounds s file_size opened w)
    unfolding after_open
    after_open-Ends s file_size none w z l p =
        reply_error-Ends start s (codes "FILE_OPEN_FAILED") w z
          (unfold build_error_response in omega arith) p
    after_open-Ends s file_size (some handle) w z l p = send_file-Ends s file_size handle w z l p

    after_size-Ends :
        (fm : FileManager) (s : ClientSession) (filename : Bytes) (found : Option ℕ) (w : os.World)
        → s.chunk_size ≡ size
        → ((n : ℕ) → found ≡ some n → n ≤ limit)
        → pending w ≤ start
        → Ends (SpentBy start) (after_size os rounds fm s filename found w)
    unfolding after_size
    after_size-Ends fm s filename none w z l p =
        reply_error-Ends start s (codes "FILE_NOT_FOUND") w z
          (unfold build_error_response in omega arith) p
    after_size-Ends fm s filename (some file_size) w z l p =
        after_open-Ends s file_size _ _ z (l file_size refl)
          (omega (arith, open_binary_file-view os pending patience.by_files fm filename w))

    pub handle_get-within :
        (fm : FileManager) (s : ClientSession) (filename : Bytes) (w : os.World)
        → s.chunk_size ≡ size
        → ((n : ℕ) → (get_file_size os fm filename w).0 ≡ some n → n ≤ limit)
        → pending w ≤ start
        → Ends (SpentBy start) (handle_get os rounds fm s filename w)
    unfolding handle_get
    handle_get-within fm s [] w z l p =
        reply_error-Ends start s (codes "EMPTY_FILENAME") w z
          (unfold build_error_response in omega arith) p
    handle_get-within fm s (c ∷ cs) w z l p =
        after_size-Ends fm s (c ∷ cs) _ _ z l
          (omega (arith, get_file_size-view os pending patience.by_files fm (c ∷ cs) w))

-- Where the system keeps the contracts `Reading` and `Patience` and each of its calls returns,
-- `handle_get` returns, if the memory for a buffer of the chunk size can be had and its rounds are
-- more than the interruptions to come and 32 more than the size that the file system gives for the
-- file, or any limit above it. It uses up no interruptions but those to come, and the chunk size is as
-- it was.
pub handle_get-Ends :
    (os : Os) (reading : Reading os) (patience : Patience os) (rounds limit : ℕ) (fm : FileManager)
    (s : ClientSession) (filename : Bytes) (w : os.World)
    → ((v : os.World) → os.allocates s.chunk_size v ≡ true)
    → ((n : ℕ) → (get_file_size os fm filename w).0 ≡ some n → n ≤ limit)
    → patience.pending w + limit + 32 < rounds
    → Ends
        (λ r. (patience.pending r.1 ≤ patience.pending w) × (r.0.chunk_size ≡ s.chunk_size))
        (handle_get os rounds fm s filename w)
handle_get-Ends os reading patience rounds limit fm s filename w roomy l enough =
    handle_get-within os reading patience rounds s.chunk_size (patience.pending w) limit enough
      roomy fm s filename w refl l (omega arith)
