-- ===== src/ClientSession/Get.antt =====
-- `handle_get` on every branch: what the client is sent.
use multi_client_media_strea.Base.{
  ℕ, ◌≤◌, ◌<◌, Bool, true, false, [], ◌∷◌, ◌++◌, ◌≡◌, refl, ap, ◌∙◌, arith, Option, none, some,
  Bytes, codes, pos, length, take, take-of-le,
}
use multi_client_media_strea.ClientSession.{
  ClientSession, if_sent, with_buffer, stream_loop, reply_error, send_file, after_open, after_size,
  handle_get,
}
use multi_client_media_strea.ClientSession.Steps.{with_buffer-Ensures}
use multi_client_media_strea.ClientSession.Stream.{Streamed, stream_loop-Streamed}
use multi_client_media_strea.FileManager.{FileManager, get_file_size, open_binary_file}
use multi_client_media_strea.FileManager.Quiet.{get_file_size-view, open_binary_file-view}
use multi_client_media_strea.Os.{Os}
use multi_client_media_strea.Os.Contract.{Wire, Reading}
use multi_client_media_strea.Os.Monad.{Ensures, Ensures-some, Ensures-and, Ensures-map, Ensures->>=}
use multi_client_media_strea.Protocol.{build_get_header, build_error_response}
use multi_client_media_strea.Socket.{send_string}
use multi_client_media_strea.Socket.Send.{Outcome, send_string-Sent}
use multi_client_media_strea.Socket.Views.{send_string-view}

-- A prefix of `reply` has been handed over.
pub record Answered (reply before after : Bytes) : Type 0 where
  pub sent : ℕ
  pub within : sent ≤ length reply
  pub added : after ≡ before ++ take sent reply

-- The reply to GET for a stream that is open: the header, cut off only if the session is over, and
-- then the file.
pub data Served (content before after : Bytes) (file_size : ℕ) (s t : ClientSession) : Type 0 where
  cut :
      Answered (build_get_header file_size) before after
      → t.is_active ≡ false
      → Served content before after file_size s t
  streamed :
      Streamed content (before ++ build_get_header file_size) after file_size s t
      → Served content before after file_size s t

module _ (os : Os) (wire : Wire os) (reading : Reading os) (fd : ℕ) (s : ClientSession)
    (fm : FileManager) (filename : Bytes) (w : os.World) where
  open wire use {delivered}
  open reading use {unread}

  -- The reply to a GET request, and when it is sent. The answers of the file manager are those
  -- that it gives in the world where it is asked.
  pub data GetReply : ClientSession × os.World → Type 0 where
    empty_name :
        {t : ClientSession} {v : os.World}
        → filename ≡ []
        → t ≡ s
        → Answered (build_error_response (codes "EMPTY_FILENAME")) (delivered fd w) (delivered fd v)
        → GetReply (t, v)
    not_found :
        {t : ClientSession} {v u : os.World}
        → get_file_size os fm filename w ≡ (none, u)
        → t ≡ s
        → Answered (build_error_response (codes "FILE_NOT_FOUND")) (delivered fd w) (delivered fd v)
        → GetReply (t, v)
    open_failed :
        {t : ClientSession} {v u x : os.World} {file_size : ℕ}
        → get_file_size os fm filename w ≡ (some file_size, u)
        → open_binary_file os fm filename u ≡ (none, x)
        → t ≡ s
        → Answered
            (build_error_response (codes "FILE_OPEN_FAILED"))
            (delivered fd w)
            (delivered fd v)
        → GetReply (t, v)
    served :
        {t : ClientSession} {v u x : os.World} {file_size handle : ℕ}
        → get_file_size os fm filename w ≡ (some file_size, u)
        → open_binary_file os fm filename u ≡ (some handle, x)
        → Served (unread handle x) (delivered fd w) (delivered fd v) file_size s t
        → GetReply (t, v)

module _ (os : Os) (wire : Wire os) (rounds fd : ℕ) (s : ClientSession)
    (connected : s.socket ≡ record { fd = pos fd }) where
  open wire use {delivered}

  pub send_string-Ensures :
      (str : Bytes) (w : os.World)
      → Ensures
          (λ (r : Bool × os.World).
            (sent : ℕ) × Outcome str (delivered fd w) (delivered fd r.1) r.0 sent)
          (send_string os rounds s.socket str w)
  send_string-Ensures str w = rw connected (send_string-Sent os wire rounds fd str w)

  abbrev pub Refused : Bytes → os.World → ClientSession × os.World → Type 0
  Refused message w r =
      (r.0 ≡ s) × Answered (build_error_response message) (delivered fd w) (delivered fd r.1)

  -- An error reply leaves the session as it is, also if it does not arrive.
  pub reply_error-Ensures :
      (message : Bytes) (w : os.World)
      → Ensures (Refused message w) (reply_error os rounds s message w)
  unfolding reply_error
  reply_error-Ensures message w =
      Ensures->>= _ (Refused message w) _
        (send_string os rounds s.socket (build_error_response message)) w
        (send_string-Ensures (build_error_response message) w)
        (λ all v h. (refl, record { sent = h.0; within = h.1.within; added = h.1.added }))

  module _ (reading : Reading os) (chunked : 0 < s.chunk_size) where
    open reading use {unread}

    abbrev ServedBy : ℕ → ℕ → os.World → ClientSession × os.World → Type 0
    ServedBy file_size handle w r =
        Served (unread handle w) (delivered fd w) (delivered fd r.1) file_size s r.0

    if_sent-Served :
        (file_size handle : ℕ) (w v : os.World) (all : Bool) (sent : ℕ)
        → Outcome (build_get_header file_size) (delivered fd w) (delivered fd v) all sent
        → unread handle v ≡ unread handle w
        → Ensures (ServedBy file_size handle w) (
            if_sent os s all
              (with_buffer os s (
                stream_loop os rounds rounds file_size s
                  (record { handle = handle; good = true })
                  0))
              v)
    unfolding if_sent
    if_sent-Served file_size handle w v false sent o u =
        cut (record { sent = sent; within = o.within; added = o.added }) refl
    if_sent-Served file_size handle w v true sent o u =
        let header = build_get_header file_size in
        let whole = take-of-le sent header (omega (arith, o.if_true refl)) in
        with_buffer-Ensures os (ServedBy file_size handle w) s _ v (
          Ensures-map
            (λ (r : ClientSession × os.World).
              Streamed (unread handle w) (delivered fd w ++ header) (delivered fd r.1) file_size s
                r.0)
            (ServedBy file_size handle w) _ (λ r h. streamed h)
            (stream_loop-Streamed os wire reading rounds fd handle file_size (unread handle w)
              (delivered fd w ++ header) s connected chunked rounds v
              (o.added ∙ ap (◌++◌ (delivered fd w)) whole) u))

    send_string-unread :
        (str : Bytes) (handle : ℕ) (w : os.World)
        → Ensures
            (λ (r : Bool × os.World). unread handle r.1 ≡ unread handle w)
            (send_string os rounds s.socket str w)
    send_string-unread str handle w =
        rw connected
          (send_string-view os (unread handle) fd (reading.send_reads handle fd) str rounds w)

    send_file-Ensures :
        (file_size handle : ℕ) (w : os.World)
        → Ensures (ServedBy file_size handle w) (send_file os rounds s file_size handle w)
    unfolding send_file
    send_file-Ensures file_size handle w =
        let header = build_get_header file_size in
        Ensures->>= _ (ServedBy file_size handle w) _ (send_string os rounds s.socket header) w
          (Ensures-and _ _ _ (send_string-Ensures header w) (send_string-unread header handle w))
          (λ all v h. if_sent-Served file_size handle w v all h.0.0 h.0.1 h.1)

    module _ (fm : FileManager) (filename : Bytes) (w : os.World) where
      abbrev Replies : ClientSession × os.World → Type 0
      Replies = GetReply os wire reading fd s fm filename w

      after_open-Ensures :
          (file_size : ℕ) (opened : Option ℕ) (u x : os.World)
          → get_file_size os fm filename w ≡ (some file_size, u)
          → open_binary_file os fm filename u ≡ (opened, x)
          → delivered fd x ≡ delivered fd w
          → Ensures Replies (after_open os rounds s file_size opened x)
      unfolding after_open
      after_open-Ensures file_size none u x e o d =
          Ensures-map (Refused (codes "FILE_OPEN_FAILED") x) Replies _
            (λ r h. open_failed e o h.0 (rw d at h.1))
            (reply_error-Ensures (codes "FILE_OPEN_FAILED") x)
      after_open-Ensures file_size (some handle) u x e o d =
          Ensures-map (ServedBy file_size handle x) Replies _ (λ r h. served e o (rw d at h))
            (send_file-Ensures file_size handle x)

      after_size-Ensures :
          (size : Option ℕ) (u : os.World)
          → get_file_size os fm filename w ≡ (size, u)
          → delivered fd u ≡ delivered fd w
          → Ensures Replies (after_size os rounds fm s filename size u)
      unfolding after_size
      after_size-Ensures none u e d =
          Ensures-map (Refused (codes "FILE_NOT_FOUND") u) Replies _
            (λ r h. not_found e h.0 (rw d at h.1)) (reply_error-Ensures (codes "FILE_NOT_FOUND") u)
      after_size-Ensures (some file_size) u e d =
          after_open-Ensures file_size _ u _ e refl
            (open_binary_file-view os (delivered fd) (wire.delivered_by_files fd) fm filename u ∙ d)

    pub handle_get-Ensures :
        (fm : FileManager) (filename : Bytes) (w : os.World)
        → Ensures (Replies fm filename w) (handle_get os rounds fm s filename w)
    unfolding handle_get
    handle_get-Ensures fm [] w =
        Ensures-map (Refused (codes "EMPTY_FILENAME") w) (Replies fm [] w) _
          (λ r h. empty_name refl h.0 h.1) (reply_error-Ensures (codes "EMPTY_FILENAME") w)
    handle_get-Ensures fm (c ∷ cs) w =
        after_size-Ensures fm (c ∷ cs) w _ _ refl
          (get_file_size-view os (delivered fd) (wire.delivered_by_files fd) fm (c ∷ cs) w)

-- Where the system keeps the contracts `Wire` and `Reading`, the socket has a descriptor and the chunk
-- size is not 0, a result of `handle_get` is one of these: the error reply for an empty name, for a
-- file that is not found or for one that cannot be opened, with the session unchanged, or the header
-- and the file. What is handed over is a prefix of that reply and nothing else. If the session is
-- still active after a file, it is unchanged, the header is whole and so is the file, as far as it
-- was announced and is there.
pub handle_get-GetReply :
    (os : Os) (wire : Wire os) (reading : Reading os) (rounds fd : ℕ) (s : ClientSession)
    (connected : s.socket ≡ record { fd = pos fd }) (chunked : 0 < s.chunk_size) (fm : FileManager)
    (filename : Bytes) (w v : os.World) (t : ClientSession)
    → handle_get os rounds fm s filename w ≡ some (t, v)
    → GetReply os wire reading fd s fm filename w (t, v)
handle_get-GetReply os wire reading rounds fd s connected chunked fm filename w v t =
    Ensures-some (GetReply os wire reading fd s fm filename w) _ (t, v)
      (handle_get-Ensures os wire rounds fd s connected reading chunked fm filename w)
