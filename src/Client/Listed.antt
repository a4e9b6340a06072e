-- ===== src/Client/Listed.antt =====
-- The server's `handle_list` and the client's `do_list` together.
use multi_client_media_strea.Base.{
  ℕ, ◌<◌, ◌^◌, Bool, true, false, List, [], ◌∷◌, ◌++◌, append_assoc, append-nil, map, ◌≡◌, refl,
  sym, ap, ◌∙◌, arith, some, Bool-conflict, Bytes, codes, pos, length, All, take, take-of-le,
}
use multi_client_media_strea.Client.{Verdict, completed, announces, read_header}
use multi_client_media_strea.Client.Listing.{IsListable, row_of, list_loop-Took}
use multi_client_media_strea.Client.Newlines.{append_cancel, first_newline, newline_inside}
use multi_client_media_strea.Client.Reading.{read_header-build_get_header}
use multi_client_media_strea.Client.Rows.{
  Row, ListHeader, list_error, list_throws, counts, read_list_header, list_loop, finish_list,
  on_list_header, on_list_line, await_listing, do_list,
}
use multi_client_media_strea.ClientSession.{ClientSession, handle_list}
use multi_client_media_strea.ClientSession.Listing.{handle_list-Listed}
use multi_client_media_strea.FileManager.{FileManager, list_files}
use multi_client_media_strea.Os.{Os}
use multi_client_media_strea.Os.Contract.{Wire}
use multi_client_media_strea.Os.Monad.{Ensures, Ensures-some, Ensures->>=}
use multi_client_media_strea.Protocol.{
  MediaFileInfo, list_lines, build_list_response, build_get_header,
}
use multi_client_media_strea.Socket.{Socket, send_string, recv_line, strip_return}
use multi_client_media_strea.Socket.Lines.{Line, whole, at_end, broken, too_long, recv_line-Ensures}
use multi_client_media_strea.Socket.Views.{send_string-view}

-- The reply to LIST begins with a line like the header of a file.
build_list_response-parts :
    (files : List MediaFileInfo)
    → build_list_response files ≡ build_get_header (length files) ++ list_lines files
unfolding build_list_response build_get_header
build_list_response-parts files = ap (◌++◌ (codes "OK ")) (sym (append_assoc _ (b'\n' ∷ []) _))

read_list_header-announces :
    (s : Bytes) (n : ℕ) → read_header s ≡ announces n → read_list_header s ≡ counts n
unfolding read_header read_list_header
read_list_header-announces s n e = ground (arith, e)

-- The client reads the number of the files, and the rows stand behind it.
header-Shows :
    (taken text line : Bytes) (shut : Bool) (count : ℕ) (files : List MediaFileInfo)
    → Line 4096 taken shut true line
    → (shut ≡ true → text ≡ [])
    → read_list_header line ≡ counts count
    → taken ++ text ≡ build_list_response files
    → length files < 2 ^ 64
    → (count ≡ length files) × (text ≡ list_lines files)
header-Shows taken text line shut count files l o r e b =
    let (first, built, none_inside, kept, reads) = read_header-build_get_header (length files) b in
    let parts : taken ++ text ≡ first ++ b'\n' ∷ list_lines files =
      e
      ∙ build_list_response-parts files
      ∙ ap (λ x. x ++ list_lines files) built
      ∙ append_assoc first (b'\n' ∷ []) _ in
    elim l [
      | whole body q nn m f s ↦
          let (same, rest) =
            first_newline body first text (list_lines files) nn none_inside
              (sym (append_assoc body (b'\n' ∷ []) text) ∙ ap (λ x. x ++ text) (sym q) ∙ parts) in
          let counted : counts count ≡ counts (length files) =
            sym r
            ∙ ap read_list_header (s ∙ ap strip_return same ∙ kept)
            ∙ read_list_header-announces first (length files) reads in
          (ground (arith, counted), rest)
      | at_end nn m c f s ↦
          let all_taken = sym (append-nil taken) ∙ ap (◌++◌ taken) (sym (o c)) ∙ parts in
          absurd (newline_inside first (list_lines files) (rw all_taken at nn))
      | broken nn m f s ↦ Bool-conflict true refl f
      | too_long nn m f s ↦ Bool-conflict true refl f
    ]

module _ (os : Os) (wire : Wire os) (rounds fd : ℕ) where
  open wire use {received, closed}

  abbrev sock : Socket
  sock = record { fd = pos fd }

  -- What `do_list` has shown when it returns true, and the bytes that it took for it.
  record Shown (w : os.World) (r : (Verdict × List Row) × os.World) : Type 0 where
    text : Bytes
    taken : received fd r.1 ≡ received fd w ++ text
    shows :
        (files : List MediaFileInfo)
        → text ≡ build_list_response files
        → length files < 2 ^ 64
        → All IsListable files
        → r.0.1 ≡ map row_of files

  abbrev IfDone : os.World → (Verdict × List Row) × os.World → Type 0
  IfDone w r = r.0.0 ≡ completed → Shown w r

  finish_list-Shown :
      (shown : Bool × List Row) (text : Bytes) (w v : os.World)
      → received fd v ≡ received fd w ++ text
      → (shown.0 ≡ true
          → (files : List MediaFileInfo) → text ≡ build_list_response files
          → length files < 2 ^ 64
          → All IsListable files
          → shown.1 ≡ map row_of files)
      → Ensures (IfDone w) (finish_list os rounds sock shown v)
  unfolding finish_list
  finish_list-Shown (false, rows) text w v e k = λ h. absurd (cc h)
  finish_list-Shown (true, rows) text w v e k =
      Ensures->>= _ (IfDone w) _ (send_string os rounds sock (codes "QUIT\n")) v
        (send_string-view os (received fd) fd (wire.send_receives fd fd) (codes "QUIT\n") rounds v)
        (λ all u h d. record { text = text; taken = h ∙ e; shows = k refl })

  on_list_header-Shown :
      (header : ListHeader) (line taken : Bytes) (w v : os.World)
      → received fd v ≡ received fd w ++ taken
      → Line 4096 taken (closed fd v) true line
      → read_list_header line ≡ header
      → Ensures (IfDone w) (on_list_header os rounds sock header v)
  unfolding on_list_header
  on_list_header-Shown list_error line taken w v e l r = λ h. absurd (cc h)
  on_list_header-Shown list_throws line taken w v e l r = λ h. absurd (cc h)
  on_list_header-Shown (counts count) line taken w v e l r =
      Ensures->>= _ (IfDone w) _ (list_loop os rounds sock count) v
        (list_loop-Took os wire rounds fd count v)
        (λ shown u t.
          finish_list-Shown shown (taken ++ t.text) w u
            (t.taken ∙ ap (λ x. x ++ t.text) e ∙ append_assoc (received fd w) taken t.text)
            (λ d files q b all.
              let (same, rest) =
                header-Shows taken t.text line (closed fd v) count files l (t.silent d) r q b in
              t.shows d files rest (sym same) all))

  on_list_line-Shown :
      (reply : Bool × Bytes) (taken : Bytes) (w v : os.World)
      → received fd v ≡ received fd w ++ taken
      → Line 4096 taken (closed fd v) reply.0 reply.1
      → Ensures (IfDone w) (on_list_line os rounds sock reply v)
  unfolding on_list_line
  on_list_line-Shown (false, line) taken w v e l = λ h. absurd (cc h)
  on_list_line-Shown (true, line) taken w v e l =
      on_list_header-Shown (read_list_header line) line taken w v e l refl

  await_listing-Shown :
      (all : Bool) (w v : os.World)
      → received fd v ≡ received fd w
      → Ensures (IfDone w) (await_listing os rounds sock all v)
  unfolding await_listing
  await_listing-Shown false w v e = λ h. absurd (cc h)
  await_listing-Shown true w v e =
      Ensures->>= _ (IfDone w) _ (recv_line os rounds sock 4096) v
        (recv_line-Ensures os wire rounds fd 4096 v)
        (λ reply u h. on_list_line-Shown reply h.0 w u (h.1 ∙ ap (λ x. x ++ h.0) e) h.2)

  do_list-IfDone : (w : os.World) → Ensures (IfDone w) (do_list os rounds sock w)
  unfolding do_list
  do_list-IfDone w =
      Ensures->>= _ (IfDone w) _ (send_string os rounds sock (codes "LIST\n")) w
        (send_string-view os (received fd) fd (wire.send_receives fd fd) (codes "LIST\n") rounds w)
        (λ all v h. await_listing-Shown all w v h)

-- Where the system keeps the contract `Wire`: if `do_list` returns true and what it has received is
-- the reply to LIST for some files, whose number and sizes have 64 bits and whose names are words
-- without blanks, then the rows that it has shown are these files with their sizes, in order.
pub do_list-build_list_response :
    (os : Os) (wire : Wire os) (rounds fd : ℕ) (files : List MediaFileInfo) (rows : List Row)
    (w v : os.World)
    → length files < 2 ^ 64
    → All IsListable files
    → do_list os rounds (record { fd = pos fd }) w ≡ some ((completed, rows), v)
    → wire.received fd v ≡ wire.received fd w ++ build_list_response files
    → rows ≡ map row_of files
do_list-build_list_response os wire rounds fd files rows w v b all e r =
    let s =
      Ensures-some (IfDone os wire rounds fd w) _ ((completed, rows), v)
        (do_list-IfDone os wire rounds fd w) e refl in
    s.shows files (append_cancel (wire.received fd w) _ _ (sym s.taken ∙ r)) b all

-- A server that keeps the contract `Wire` answers LIST on a socket with a descriptor, and its session
-- goes on. A client that keeps `Wire` runs `do_list`, and has received what the server handed over. If
-- `do_list` returns true, and the number of the listed files and their sizes have 64 bits and their
-- names hold no blank, then the client has shown exactly the files that `list_files` returned to the
-- server, with their sizes, in order.
pub do_list-handle_list :
    (os : Os) (wire : Wire os) (rounds fd : ℕ) (s : ClientSession)
    (connected : s.socket ≡ record { fd = pos fd }) (fm : FileManager) (w v : os.World)
    (t : ClientSession) (client : Os) (wire' : Wire client) (rounds' fd' : ℕ) (w' v' : client.World)
    (rows : List Row) (text : Bytes)
    → length (list_files os fm w).0 < 2 ^ 64
    → All IsListable (list_files os fm w).0
    → handle_list os rounds fm s w ≡ some (t, v)
    → t.is_active ≡ true
    → wire.delivered fd v ≡ wire.delivered fd w ++ text
    → do_list client rounds' (record { fd = pos fd' }) w' ≡ some ((completed, rows), v')
    → wire'.received fd' v' ≡ wire'.received fd' w' ++ text
    → rows ≡ map row_of (list_files os fm w).0
do_list-handle_list os wire rounds fd s connected fm w v t client wire' rounds' fd' w' v' rows text
      b all served active sent shown got =
    let files = (list_files os fm w).0 in
    let l = handle_list-Listed os wire rounds fd s connected fm w v t served in
    let entire : text ≡ build_list_response files =
      append_cancel (wire.delivered fd w) _ _ (sym sent ∙ l.answered.added)
      ∙ ap (λ n. take n (build_list_response files)) (l.if_active active).0
      ∙ take-of-le _ (build_list_response files) (omega arith) in
    do_list-build_list_response client wire' rounds' fd' files rows w' v' b all shown
      (got ∙ ap (◌++◌ (wire'.received fd' w')) entire)
