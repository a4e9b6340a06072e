-- ===== src/Client/Browsing.antt =====
-- `do_list` together with a turn of a session, `recv_line`, `parse_request` and `respond`.
use multi_client_media_strea.Base.{
  ℕ, zero, suc, ◌<◌, ◌^◌, Bool, true, false, List, [], ◌++◌, map, append_assoc, ◌≡◌, refl, sym, ap,
  ◌∙◌, arith, some, Bytes, codes, pos, length, take, All, bytes_eq,
}
use multi_client_media_strea.Client.Asked.{heard-asked, heard-delivered}
use multi_client_media_strea.Client.Listed.{do_list-handle_list}
use multi_client_media_strea.Client.Listing.{IsListable, row_of}
use multi_client_media_strea.Client.Newlines.{append_cancel}
use multi_client_media_strea.Client.Rows.{
  Row, ListHeader, list_error, list_throws, counts, read_list_header, show_row, list_loop,
  finish_list, on_list_header, on_list_line, await_listing, do_list,
}
use multi_client_media_strea.Client.{Verdict, completed}
use multi_client_media_strea.ClientSession.{ClientSession, respond}
use multi_client_media_strea.FileManager.{FileManager, list_files}
use multi_client_media_strea.Os.{Os}
use multi_client_media_strea.Os.Contract.{Wire}
use multi_client_media_strea.Os.Monad.{M, Ensures, Ensures-some, Ensures-map, Ensures->>=}
use multi_client_media_strea.Protocol.Trim.{
  is_space, is_empty, skip_spaces, drop_trailing, trim, span_word,
}
use multi_client_media_strea.Protocol.{list, parse_request, to_upper, getline, classify, parse_line}
use multi_client_media_strea.Socket.Send.{Outcome, send_string-Sent}
use multi_client_media_strea.Socket.Views.{recv_line-view}
use multi_client_media_strea.Socket.{Socket, send_string, recv_line}

module _ (os : Os) (wire : Wire os) (rounds fd : ℕ) where
  open wire use {delivered}

  abbrev sock : Socket
  sock = record { fd = pos fd }

  abbrev Quiet : {A : Type 0} → os.World → A × os.World → Type 0
  Quiet w r = delivered fd r.1 ≡ delivered fd w

  recv_line-Quiet : (w : os.World) → Ensures (Quiet w) (recv_line os rounds sock 4096 w)
  recv_line-Quiet w =
      recv_line-view os (delivered fd) fd 4096 (λ n v. wire.recv_delivers fd fd n v) rounds w

  show_row-Quiet :
      (again : M os.World (Bool × List Row)) (reply : Bool × Bytes) (w v : os.World)
      → Quiet {A = Bool × Bytes} w (reply, v)
      → Ensures (Quiet v) (again v)
      → Ensures (Quiet w) (show_row os rounds sock again reply v)
  unfolding show_row
  show_row-Quiet again (false, line) w v q k = q
  show_row-Quiet again (true, line) w v q k =
      Ensures->>= (Quiet v) (Quiet w) _ again v k (λ shown u h. h ∙ q)

  list_loop-Quiet :
      (count : ℕ) (w : os.World) → Ensures (Quiet w) (list_loop os rounds sock count w)
  unfolding list_loop
  list_loop-Quiet zero w = refl
  list_loop-Quiet (suc count) w =
      Ensures->>= (Quiet w) (Quiet w) _ (recv_line os rounds sock 4096) w (recv_line-Quiet w)
        (λ reply v q.
          show_row-Quiet (list_loop os rounds sock count) reply w v q (list_loop-Quiet count v))

  -- When the listing is complete, a prefix of QUIT has followed.
  abbrev Quits : os.World → (Verdict × List Row) × os.World → Type 0
  Quits w r =
      r.0.0 ≡ completed
      → (quit : ℕ) × (delivered fd r.1 ≡ delivered fd w ++ take quit (codes "QUIT\n"))

  finish_list-Quits :
      (shown : Bool × List Row) (w v : os.World)
      → Quiet w (shown, v)
      → Ensures (Quits w) (finish_list os rounds sock shown v)
  unfolding finish_list
  finish_list-Quits (false, rows) w v q = λ h. absurd (cc h)
  finish_list-Quits (true, rows) w v q =
      Ensures->>= _ (Quits w) _ (send_string os rounds sock (codes "QUIT\n")) v
        (send_string-Sent os wire rounds fd (codes "QUIT\n") v)
        (λ all u o h. (o.0, o.1.added ∙ ap (λ d. d ++ take o.0 (codes "QUIT\n")) q))

  on_list_header-Quits :
      (header : ListHeader) (w v : os.World)
      → Quiet {A = ListHeader} w (header, v)
      → Ensures (Quits w) (on_list_header os rounds sock header v)
  unfolding on_list_header
  on_list_header-Quits list_error w v q = λ h. absurd (cc h)
  on_list_header-Quits list_throws w v q = λ h. absurd (cc h)
  on_list_header-Quits (counts count) w v q =
      Ensures->>= (Quiet v) (Quits w) _ (list_loop os rounds sock count) v (list_loop-Quiet count v)
        (λ shown u h. finish_list-Quits shown w u (h ∙ q))

  on_list_line-Quits :
      (reply : Bool × Bytes) (w v : os.World)
      → Quiet w (reply, v)
      → Ensures (Quits w) (on_list_line os rounds sock reply v)
  unfolding on_list_line
  on_list_line-Quits (false, line) w v q = λ h. absurd (cc h)
  on_list_line-Quits (true, line) w v q = on_list_header-Quits (read_list_header line) w v q

  -- When the listing is complete, LIST has gone out and a prefix of QUIT.
  abbrev Lists : os.World → (Verdict × List Row) × os.World → Type 0
  Lists w r =
      r.0.0 ≡ completed
      → (quit : ℕ) × (delivered fd r.1
          ≡ delivered fd w ++ (codes "LIST\n" ++ take quit (codes "QUIT\n")))

  await_listing-Lists :
      (all : Bool) (sent : ℕ) (w v : os.World)
      → Outcome (codes "LIST\n") (delivered fd w) (delivered fd v) all sent
      → Ensures (Lists w) (await_listing os rounds sock all v)
  unfolding await_listing
  await_listing-Lists false sent w v o = λ h. absurd (cc h)
  await_listing-Lists true sent w v o =
      let asked : delivered fd v ≡ delivered fd w ++ codes "LIST\n" =
        o.added ∙ ap (λ n. delivered fd w ++ take n (codes "LIST\n")) (o.if_true refl) in
      Ensures->>= (Quiet v) (Lists w) _ (recv_line os rounds sock 4096) v (recv_line-Quiet v)
        (λ reply u q.
          Ensures-map (Quits v) (Lists w) (on_list_line os rounds sock reply u)
            (λ r k h.
              let (quit, e) = k h in
              (
                quit,
                e
                    ∙ ap (λ d. d ++ take quit (codes "QUIT\n")) asked
                    ∙ append_assoc (delivered fd w) (codes "LIST\n") (take quit (codes "QUIT\n")),
              ))
            (on_list_line-Quits reply v u q))

  do_list-Lists : (w : os.World) → Ensures (Lists w) (do_list os rounds sock w)
  unfolding do_list
  do_list-Lists w =
      Ensures->>= _ (Lists w) _ (send_string os rounds sock (codes "LIST\n")) w
        (send_string-Sent os wire rounds fd (codes "LIST\n") w)
        (λ all v o. await_listing-Lists all o.0 w v o.1)

parse_request-list : (parse_request (codes "LIST")).type ≡ list
unfolding bytes_eq is_space is_empty skip_spaces drop_trailing trim span_word to_upper getline
    classify parse_line parse_request
parse_request-list = refl

-- A client whose system keeps `Wire` runs `do_list`. A session whose system keeps `Wire`, with a
-- descriptor, takes a line with `recv_line` and answers the request in it with `respond`, and goes on.
-- The bytes that the session took are a front of those that the client handed over, and all of them if
-- the session found the connection closed. The client has received what the session handed over. If
-- `do_list` returns true, and the number of the files that `list_files` then gave the session and
-- their sizes have 64 bits and their names hold no blank, then the client has shown exactly these
-- files, with their sizes, in order.
pub do_list-respond :
    (os : Os) (wire : Wire os) (rounds fd : ℕ) (s t : ClientSession) (fm : FileManager)
    (w u x : os.World) (line : Bytes) (client : Os) (wire' : Wire client) (rounds' fd' : ℕ)
    (w' v' : client.World) (rows : List Row) (taken unheard text : Bytes)
    → s.socket ≡ record { fd = pos fd }
    → length (list_files os fm u).0 < 2 ^ 64
    → All IsListable (list_files os fm u).0
    → recv_line os rounds s.socket 4096 w ≡ some ((true, line), u)
    → respond os rounds fm s (parse_request line).type (parse_request line).argument u ≡ some (t, x)
    → t.is_active ≡ true
    → do_list client rounds' (record { fd = pos fd' }) w' ≡ some ((completed, rows), v')
    → wire.received fd u ≡ wire.received fd w ++ taken
    → wire'.delivered fd' v' ≡ wire'.delivered fd' w' ++ (taken ++ unheard)
    → (wire.closed fd u ≡ true → unheard ≡ [])
    → wire.delivered fd x ≡ wire.delivered fd w ++ text
    → wire'.received fd' v' ≡ wire'.received fd' w' ++ text
    → rows ≡ map row_of (list_files os fm u).0
unfolding respond
do_list-respond os wire rounds fd s t fm w u x line client wire' rounds' fd' w' v' rows taken
      unheard text connected few all heard replied active shown took asked eof sent got =
    let (quit, said) =
      Ensures-some (Lists client wire' rounds' fd' w') _ ((completed, rows), v')
        (do_list-Lists client wire' rounds' fd' w') shown refl in
    let parsed =
      heard-asked os wire rounds fd s w u line connected heard (codes "LIST") (ground arith) taken
        unheard (take quit (codes "QUIT\n")) took
        (append_cancel (wire'.delivered fd' w') _ _ (sym asked ∙ said)) eof in
    do_list-handle_list os wire rounds fd s connected fm u x t client wire' rounds' fd' w' v' rows
      text few all (rw (parsed, parse_request-list) at replied) active
      (sent
        ∙ ap (λ d. d ++ text) (sym (heard-delivered os wire rounds fd s w u line connected heard)))
      shown got
