-- ===== src/Client/Delivery.antt =====
-- The server's `handle_get` and the client's `do_get` together.
use multi_client_media_strea.Base.{
  ℕ, ◌≤◌, ◌<◌, ◌^◌, ◌∷◌, ◌++◌, append_assoc, append-nil, ◌≡◌, sym, ap, ◌∙◌, some, Bytes, pos,
  length, take, drop, take-append-drop,
}
use multi_client_media_strea.Client.{completed, do_get}
use multi_client_media_strea.Client.Fetch.{do_get-Fetched}
use multi_client_media_strea.Client.Newlines.{append_cancel}
use multi_client_media_strea.ClientSession.{ClientSession, handle_get}
use multi_client_media_strea.ClientSession.Get.{
  Answered, Served, cut, streamed, GetReply, empty_name, not_found, open_failed, served,
  handle_get-GetReply,
}
use multi_client_media_strea.FileManager.{FileManager, get_file_size, open_binary_file}
use multi_client_media_strea.Os.{Os}
use multi_client_media_strea.Os.Contract.{Wire, Reading, Saving, Stores, stores}
use multi_client_media_strea.Protocol.{build_get_header, build_error_response}
use multi_client_media_strea.Client.Heard.{Heard, kept_file, Fetched-Heard, error_unheard}

-- The file that the server has opened, and what the client has written of it.
pub record Kept (os : Os) (reading : Reading os) (fm : FileManager) (filename : Bytes)
    (w : os.World) (kept : Bytes) : Type 0 where
  pub file_size : ℕ
  pub handle : ℕ
  pub sized : os.World
  pub opened : os.World
  pub found : get_file_size os fm filename w ≡ (some file_size, sized)
  pub streaming : open_binary_file os fm filename sized ≡ (some handle, opened)
  pub whole : kept ≡ take file_size (reading.unread handle opened)
  pub enough : file_size ≤ length (reading.unread handle opened)

module _ (os : Os) (wire : Wire os) (reading : Reading os) (fd : ℕ) (s : ClientSession)
    (fm : FileManager) (filename : Bytes) (w : os.World) (part more content : Bytes) (size : ℕ)
    (heard : Heard part size content) where
  open wire use {delivered}

  Answered-unheard :
      (message after : Bytes)
      → after ≡ delivered fd w ++ (part ++ more)
      → Answered (build_error_response message) (delivered fd w) after
      → ⊥
  Answered-unheard message after e a =
      error_unheard part more content message size a.sent heard
        (append_cancel (delivered fd w) _ _ (sym e ∙ a.added))

  Served-kept :
      (n : ℕ) (file after : Bytes) (t : ClientSession)
      → n < 2 ^ 64
      → after ≡ delivered fd w ++ (part ++ more)
      → Served file (delivered fd w) after n s t
      → (content ≡ take n file) × (n ≤ length file)
  Served-kept n file after t b e (streamed st) =
      kept_file n st.sent size heard.body content more file b heard.one_line
        (sym (append_assoc heard.body (b'\n' ∷ content) more)
          ∙ ap (λ x. x ++ more) (sym heard.parts)
          ∙ append_cancel (delivered fd w) _ _
              (sym e ∙ st.added ∙ append_assoc (delivered fd w) (build_get_header n) _))
        heard.announced heard.measured
  Served-kept n file after t b e (cut a over) =
      let header = build_get_header n in
      let tail = drop a.sent header in
      kept_file n 0 size heard.body content (more ++ tail) file b heard.one_line
        (sym (append_assoc heard.body (b'\n' ∷ content) (more ++ tail))
          ∙ ap (λ x. x ++ (more ++ tail)) (sym heard.parts)
          ∙ sym (append_assoc part more tail)
          ∙ ap (λ x. x ++ tail) (append_cancel (delivered fd w) _ _ (sym e ∙ a.added))
          ∙ take-append-drop a.sent header
          ∙ sym (append-nil header))
        heard.announced heard.measured

  GetReply-Kept :
      (t : ClientSession) (v : os.World)
      → ((n : ℕ) (u : os.World) → get_file_size os fm filename w ≡ (some n, u) → n < 2 ^ 64)
      → delivered fd v ≡ delivered fd w ++ (part ++ more)
      → GetReply os wire reading fd s fm filename w (t, v)
      → Kept os reading fm filename w content
  GetReply-Kept t v b e (empty_name n same a) = absurd (Answered-unheard _ _ e a)
  GetReply-Kept t v b e (not_found q same a) = absurd (Answered-unheard _ _ e a)
  GetReply-Kept t v b e (open_failed q o same a) = absurd (Answered-unheard _ _ e a)
  GetReply-Kept t v b e (served {u = u} {x = x} {file_size = n} {handle = handle} q o r) =
      let (all, enough) = Served-kept n (reading.unread handle x) _ t (b n u q) e r in
      record {
        file_size = n;
        handle = handle;
        sized = u;
        opened = x;
        found = q;
        streaming = o;
        whole = all;
        enough = enough;
      }

-- A server that keeps `Wire` and `Reading` answers a GET on a socket with a descriptor, with a chunk
-- size that is not 0 and sizes of 64 bits. A client that keeps `Wire` and `Saving` runs `do_get`,
-- and has received a front of what the server handed over, with a newline in it, and nothing else.
-- If its `do_get` returns true, then the server found the file and opened it, and what the client
-- has written to its own file is the server's as far as its announced size, none of it missing,
-- whatever became of the session. The client's file holds this once it is closed, or a write or the
-- flush at the close failed.
pub do_get-handle_get :
    (os : Os) (wire : Wire os) (reading : Reading os) (rounds fd : ℕ) (s : ClientSession)
    (connected : s.socket ≡ record { fd = pos fd }) (chunked : 0 < s.chunk_size) (fm : FileManager)
    (filename : Bytes) (w v : os.World) (t : ClientSession)
    (sizes : (n : ℕ) (u : os.World) → get_file_size os fm filename w ≡ (some n, u) → n < 2 ^ 64)
    (client : Os) (wire' : Wire client) (saving : Saving client) (rounds' fd' : ℕ)
    (name output_dir : Bytes) (w' v' : client.World) (a b more : Bytes)
    → handle_get os rounds fm s filename w ≡ some (t, v)
    → do_get client rounds' (record { fd = pos fd' }) name output_dir w' ≡ some (completed, v')
    → wire'.received fd' v' ≡ wire'.received fd' w' ++ (a ++ b'\n' ∷ b)
    → wire.delivered fd v ≡ wire.delivered fd w ++ ((a ++ b'\n' ∷ b) ++ more)
    → (out : ℕ) × Kept os reading fm filename w (saving.written out v')
      × Stores client saving out v'
do_get-handle_get os wire reading rounds fd s connected chunked fm filename w v t sizes client wire'
      saving rounds' fd' name output_dir w' v' a b more replied fetched got sent =
    let f = do_get-Fetched client wire' saving rounds' fd' name output_dir w' v' fetched in
    let heard = Fetched-Heard client wire' saving fd' name _ w' v' f a b got in
    (
      f.out,
      rw (f.written) (
          GetReply-Kept os wire reading fd s fm filename w (a ++ b'\n' ∷ b) more f.content f.size
            heard t v sizes sent
            (handle_get-GetReply os wire reading rounds fd s connected chunked fm filename w v t
              replied)),
      stores client saving f.out v',
    )
