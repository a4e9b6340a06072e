-- ===== src/Client/Named.antt =====
-- The file that a client names is the file that it gets: `do_get` together with a turn of a session,
-- `recv_line`, `parse_request` and `respond`.
use multi_client_media_strea.Base.{
  ℕ, ◌<◌, ◌^◌, true, [], ◌∷◌, ◌++◌, append_assoc, append-nil, ◌≡◌, ◌≢◌, refl, sym, ap, ◌∙◌, arith,
  some, Bytes, codes, pos, take, All-append,
}
use multi_client_media_strea.Client.Asked.{heard-asked, heard-delivered}
use multi_client_media_strea.Client.Delivery.{Kept, do_get-handle_get}
use multi_client_media_strea.Client.Fetch.{request, do_get-Fetched}
use multi_client_media_strea.Client.Newlines.{append_cancel}
use multi_client_media_strea.Client.{completed, do_get}
use multi_client_media_strea.ClientSession.{ClientSession, respond}
use multi_client_media_strea.FileManager.{FileManager, get_file_size}
use multi_client_media_strea.Os.{Os}
use multi_client_media_strea.Os.Contract.{Wire, Reading, Saving, Stores}
use multi_client_media_strea.Protocol.Requests.{HasNoNewline, parse_request_get}
use multi_client_media_strea.Protocol.Trim.{is_space}
use multi_client_media_strea.Protocol.Trim.Blanks.{IsTrimmed}
use multi_client_media_strea.Protocol.{get, parse_request, to_upper}
use multi_client_media_strea.Socket.Lines.{NoNewline}
use multi_client_media_strea.Socket.{recv_line}

-- The bytes of a request, with some of QUIT behind it.
request_parts : (name q : Bytes) → request name ++ q ≡ (codes "GET " ++ name) ++ b'\n' ∷ q
request_parts name q = ap (◌++◌ (codes "GET ")) (append_assoc name (b'\n' ∷ []) q)

module _ (name : Bytes) (named : name ≢ []) (trimmed : IsTrimmed name)
    (one_line : HasNoNewline name) where
  parse_request-get : parse_request (codes "GET " ++ name) ≡ record { type = get; argument = name }
  unfolding is_space to_upper
  parse_request-get =
      ap parse_request (sym (append-nil (codes "GET " ++ name)))
      ∙ parse_request_get [] (codes "GET") b' ' [] name [] tt ((λ e. cc), ground arith) refl
          (ground arith) named trimmed one_line tt

  NoNewline-request : NoNewline (codes "GET " ++ name)
  NoNewline-request = All-append (λ c. c ≢ b'\n') (codes "GET ") name (ground arith) one_line

-- A client whose system keeps `Wire` and `Saving` runs `do_get` for a name that is not empty and has no
-- newline and no blank at either end. A session whose system keeps `Wire` and `Reading`, with a
-- descriptor and a chunk size that is not 0, takes a line with `recv_line` and answers the request in
-- it with `respond`. The bytes that the session took are a front of those that the client handed over,
-- and all of them if the session found the connection closed. The bytes that the client took are a
-- front of those that the session handed over, with a newline in it. File sizes have 64 bits. If
-- `do_get` returns true, then the session found the file of just that name and opened it, and what
-- the client has written to its own file is that file as far as its announced size, none of it missing.
-- The client's file holds this once it is closed, or a write or the flush at the close failed.
pub do_get-respond :
    (os : Os) (wire : Wire os) (reading : Reading os) (rounds fd : ℕ) (s t : ClientSession)
    (fm : FileManager) (w u x : os.World) (line : Bytes) (client : Os) (wire' : Wire client)
    (saving : Saving client) (rounds' fd' : ℕ) (name output_dir : Bytes) (w' v' : client.World)
    (taken unheard a b more : Bytes)
    → s.socket ≡ record { fd = pos fd }
    → 0 < s.chunk_size
    → ((n : ℕ) (v : os.World) → get_file_size os fm name u ≡ (some n, v) → n < 2 ^ 64)
    → name ≢ []
    → IsTrimmed name
    → HasNoNewline name
    → recv_line os rounds s.socket 4096 w ≡ some ((true, line), u)
    → respond os rounds fm s (parse_request line).type (parse_request line).argument u ≡ some (t, x)
    → do_get client rounds' (record { fd = pos fd' }) name output_dir w' ≡ some (completed, v')
    → wire.received fd u ≡ wire.received fd w ++ taken
    → wire'.delivered fd' v' ≡ wire'.delivered fd' w' ++ (taken ++ unheard)
    → (wire.closed fd u ≡ true → unheard ≡ [])
    → wire'.received fd' v' ≡ wire'.received fd' w' ++ (a ++ b'\n' ∷ b)
    → wire.delivered fd x ≡ wire.delivered fd w ++ ((a ++ b'\n' ∷ b) ++ more)
    → (out : ℕ) × Kept os reading fm name u (saving.written out v') × Stores client saving out v'
unfolding respond
do_get-respond os wire reading rounds fd s t fm w u x line client wire' saving rounds' fd' name
      output_dir w' v' taken unheard a b more connected chunked sizes named trimmed one_line heard
      replied fetched took asked eof got sent =
    let fetch = do_get-Fetched client wire' saving rounds' fd' name output_dir w' v' fetched in
    let q = take fetch.quit (codes "QUIT\n") in
    let parsed : parse_request line ≡ record { type = get; argument = name } =
      heard-asked os wire rounds fd s w u line connected heard (codes "GET " ++ name)
        (NoNewline-request name named trimmed one_line) taken unheard q took
        (append_cancel (wire'.delivered fd' w') _ _ (sym asked ∙ fetch.asked)
          ∙ request_parts name q)
        eof
      ∙ parse_request-get name named trimmed one_line in
    do_get-handle_get os wire reading rounds fd s connected chunked fm name u x t sizes client wire'
      saving rounds' fd' name output_dir w' v' a b more (rw parsed at replied) fetched got
      (sent
        ∙ ap (λ d. d ++ ((a ++ b'\n' ∷ b) ++ more))
            (sym (heard-delivered os wire rounds fd s w u line connected heard)))
