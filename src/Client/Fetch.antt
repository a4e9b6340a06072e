-- ===== src/Client/Fetch.antt =====
-- `do_get` as a whole: what the client has asked for, received and written when it succeeds.
use multi_client_media_strea.Base.{
  ℕ, Bool, true, false, [], ◌∷◌, ◌++◌, append_assoc, ◌≡◌, ◌⊎◌, refl, ap, ◌∙◌, arith, Option, none,
  some, Bytes, codes, pos, length, take, take-of-le,
}
use multi_client_media_strea.Client.{
  Header, not_ok, too_short, malformed, announces, read_header, Verdict, completed, save_file,
  on_header, on_line, await_reply, ask, do_get,
}
use multi_client_media_strea.FilePath.{FilePath, to_path, append}
use multi_client_media_strea.Os.{Os}
use multi_client_media_strea.Os.Contract.{Wire, Saving, stores}
use multi_client_media_strea.Os.Monad.{Ensures, Ensures-some, Ensures-and, Ensures->>=}
use multi_client_media_strea.Socket.{Socket, send_string, recv_line}
use multi_client_media_strea.Socket.Lines.{Line, recv_line-Ensures}
use multi_client_media_strea.Socket.Send.{Outcome, send_string-Sent}
use multi_client_media_strea.Socket.Views.{send_string-view, recv_line-view}
use multi_client_media_strea.Client.Streamed

abbrev pub request : Bytes → Bytes
request filename = codes "GET " ++ (filename ++ b'\n' ∷ [])

-- What the client has done when `do_get` returns true. It has sent the request, and then QUIT, of
-- which a part may be missing. It has received a line that announces a size, and as many bytes as
-- that, which are what it has written to the file. The file holds them, or a write has failed.
pub record Fetched (os : Os) (wire : Wire os) (saving : Saving os) (fd : ℕ) (filename : Bytes)
    (out_path : FilePath) (w v : os.World) : Type 0 where
  pub taken : Bytes
  pub line : Bytes
  pub content : Bytes
  pub shut : Bool
  pub size : ℕ
  pub quit : ℕ
  pub out : ℕ
  pub at_open : os.World
  pub after_open : os.World
  pub asked :
      wire.delivered fd v ≡ wire.delivered fd w ++ (request filename ++ take quit (codes "QUIT\n"))
  pub got : wire.received fd v ≡ wire.received fd w ++ (taken ++ content)
  pub header : Line 4096 taken shut true line
  pub announced : read_header line ≡ announces size
  pub measured : length content ≡ size
  pub silent : shut ≡ true → content ≡ []
  pub opened : os.open_write out_path at_open ≡ (some out, after_open)
  pub written : saving.written out v ≡ content
  pub stored : (saving.stored out v ≡ content) ⊎ (saving.broken out v ≡ true)

module _ (os : Os) (wire : Wire os) (saving : Saving os) (rounds fd : ℕ) (out_path : FilePath) where
  open wire use {delivered, received, closed}

  abbrev sock : Socket
  sock = record { fd = pos fd }

  abbrev OnSuccess : (os.World → Type 0) → Verdict × os.World → Type 0
  OnSuccess = Streamed.OnSuccess os wire saving rounds fd out_path

  abbrev OnSuccess-map :
      (P Q : os.World → Type 0)
      → ((v : os.World) → P v → Q v)
      → (o : Option (Verdict × os.World)) → Ensures (OnSuccess P) o
      → Ensures (OnSuccess Q) o
  OnSuccess-map = Streamed.OnSuccess-map os wire saving rounds fd out_path

  abbrev StreamedAt : ℕ → ℕ → Bool → Bytes → Bytes → os.World → Type 0
  StreamedAt = Streamed.Streamed os wire saving rounds fd out_path

  -- From the point where the header has been read.
  record Announced (header : Header) (shut : Bool) (sent got : Bytes) (v : os.World) : Type 0 where
    size : ℕ
    out : ℕ
    at_open : os.World
    after_open : os.World
    announced : header ≡ announces size
    opened : os.open_write out_path at_open ≡ (some out, after_open)
    streamed : StreamedAt size out shut sent got v

  save_file-Announced :
      (size : ℕ) (w u : os.World) (opened : Option ℕ) (sent got : Bytes) (shut : Bool)
      → os.open_write out_path w ≡ (opened, u)
      → delivered fd u ≡ sent
      → received fd u ≡ got
      → closed fd u ≡ shut
      → Ensures
          (OnSuccess (Announced (announces size) shut sent got))
          (save_file os rounds sock out_path size opened u)
  save_file-Announced size w u none sent got shut e d r c = unfold save_file in tt
  save_file-Announced size w u (some out) sent got shut e d r c =
      OnSuccess-map (StreamedAt size out (closed fd u) (delivered fd u) (received fd u))
        (Announced (announces size) shut sent got)
        (λ v h. record {
          size = size;
          out = out;
          at_open = w;
          after_open = u;
          announced = refl;
          opened = e;
          streamed = rw (d, r, c) at h;
        })
        _
        (Streamed.save_file-Streamed os wire saving rounds fd out_path size out u
          (saving.open_law out_path out w u e))

  on_header-Announced :
      (header : Header) (w : os.World)
      → Ensures
          (OnSuccess (Announced header (closed fd w) (delivered fd w) (received fd w)))
          (on_header os rounds sock out_path header w)
  unfolding on_header
  on_header-Announced not_ok w = tt
  on_header-Announced too_short w = tt
  on_header-Announced malformed w = tt
  on_header-Announced (announces size) w =
      save_file-Announced size w (os.open_write out_path w).1 (os.open_write out_path w).0 _ _ _
        refl ((wire.delivered_by_files fd).by_open_write out_path w)
        ((wire.received_by_files fd).by_open_write out_path w)
        ((wire.closed_by_files fd).by_open_write out_path w)

  -- From the point where the request has been sent.
  record Replied (sent got : Bytes) (v : os.World) : Type 0 where
    taken : Bytes
    line : Bytes
    shut : Bool
    header : Line 4096 taken shut true line
    rest : Announced (read_header line) shut sent (got ++ taken) v

  on_line-Replied :
      (flag : Bool) (line taken : Bytes) (sent got : Bytes) (w : os.World)
      → delivered fd w ≡ sent
      → received fd w ≡ got ++ taken
      → Line 4096 taken (closed fd w) flag line
      → Ensures (OnSuccess (Replied sent got)) (on_line os rounds sock out_path (flag, line) w)
  unfolding on_line
  on_line-Replied false line taken sent got w d r l = tt
  on_line-Replied true line taken sent got w d r l =
      OnSuccess-map (Announced (read_header line) (closed fd w) (delivered fd w) (received fd w))
        (Replied sent got)
        (λ v h. record {
          taken = taken;
          line = line;
          shut = closed fd w;
          header = l;
          rest = rw (d, r) at h;
        })
        _ (on_header-Announced (read_header line) w)

  module _ (filename : Bytes) (start : os.World) where
    abbrev Success : os.World → Type 0
    Success v = Fetched os wire saving fd filename out_path start v

    Replied-Fetched :
        (v : os.World)
        → Replied (delivered fd start ++ request filename) (received fd start) v
        → Success v
    Replied-Fetched v h =
        let s = h.rest.streamed in
        record {
          taken = h.taken;
          line = h.line;
          content = s.content;
          shut = h.shut;
          size = h.rest.size;
          quit = s.quit;
          out = h.rest.out;
          at_open = h.rest.at_open;
          after_open = h.rest.after_open;
          asked = s.asked ∙ append_assoc (delivered fd start) (request filename) _;
          got = s.taken ∙ append_assoc (received fd start) h.taken s.content;
          header = h.header;
          announced = h.rest.announced;
          measured = s.measured;
          silent = s.silent;
          opened = h.rest.opened;
          written = s.kept;
          stored = rw (← s.kept) (stores os saving h.rest.out v);
        }

    await_reply-Fetched :
        (all : Bool) (sent : ℕ) (w : os.World)
        → Outcome (request filename) (delivered fd start) (delivered fd w) all sent
        → received fd w ≡ received fd start
        → Ensures (OnSuccess Success) (await_reply os rounds sock out_path all w)
    unfolding await_reply
    await_reply-Fetched false sent w o r = tt
    await_reply-Fetched true sent w o r =
        let asked =
          o.added
          ∙ ap (◌++◌ (delivered fd start))
              (take-of-le sent (request filename) (omega (arith, o.if_true refl))) in
        Ensures->>= _ (OnSuccess Success) _ (recv_line os rounds sock 4096) w
          (Ensures-and _ _ _ (recv_line-Ensures os wire rounds fd 4096 w)
            (recv_line-view os (delivered fd) fd 4096 (wire.recv_delivers fd fd) rounds w))
          (λ reply v h.
            OnSuccess-map (Replied (delivered fd start ++ request filename) (received fd start))
              Success Replied-Fetched _
              (on_line-Replied reply.0 reply.1 h.0.0 _ _ v (h.1 ∙ asked)
                (h.0.1 ∙ ap (λ x. x ++ h.0.0) r) h.0.2))

    ask-Fetched :
        (failed : Bool) (w : os.World)
        → delivered fd w ≡ delivered fd start
        → received fd w ≡ received fd start
        → Ensures (OnSuccess Success) (ask os rounds sock filename out_path failed w)
    unfolding ask
    ask-Fetched true w d r = tt
    ask-Fetched false w d r =
        Ensures->>= _ (OnSuccess Success) _ (send_string os rounds sock (request filename)) w
          (Ensures-and _ _ _ (send_string-Sent os wire rounds fd (request filename) w) (
            send_string-view os (received fd) fd (wire.send_receives fd fd) (request filename)
              rounds w))
          (λ all v h. await_reply-Fetched all h.0.0 v (rw d at h.0.1) (h.1 ∙ r))

-- Where the system keeps the contracts `Wire` and `Saving` and the socket has a descriptor: if
-- `do_get` returns true, then it has sent the request for that name, and of QUIT a prefix; it has
-- received a line that announces a size and behind it exactly as many bytes; and it has written these
-- bytes and nothing else to the file that it opened in the output directory, which holds them once it is
-- closed, unless a write or the flush at its close failed. If the peer had closed the connection behind
-- the line, there are none.
pub do_get-Fetched :
    (os : Os) (wire : Wire os) (saving : Saving os) (rounds fd : ℕ) (filename output_dir : Bytes)
    (w v : os.World)
    → do_get os rounds (record { fd = pos fd }) filename output_dir w ≡ some (completed, v)
    → Fetched os wire saving fd filename (append (to_path output_dir) (to_path filename)) w v
unfolding do_get
do_get-Fetched os wire saving rounds fd filename output_dir w v =
    let out_path = append (to_path output_dir) (to_path filename) in
    let dir = to_path output_dir in
    let made = os.create_directories dir w in
    Ensures-some
      (OnSuccess os wire saving rounds fd out_path (Fetched os wire saving fd filename out_path w))
      _ (completed, v)
      (ask-Fetched os wire saving rounds fd out_path filename w made.0.failed made.1
        ((wire.delivered_by_files fd).by_create_directories dir w)
        ((wire.received_by_files fd).by_create_directories dir w))
