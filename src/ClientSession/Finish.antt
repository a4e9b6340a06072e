-- ===== src/ClientSession/Finish.antt =====
-- A session comes to its end when its client does.
use multi_client_media_strea.Base.{
  ℕ, zero, suc, ◌+◌, ◌≤◌, ◌<◌, Bool, true, false, [], ◌∷◌, ◌++◌, ◌≡◌, refl, ◌∙◌, arith, some, inl,
  inr, Bool-cases, Bytes, codes, ℤ, pos, negsuc, length, ltb, ◌==◌,
}
use multi_client_media_strea.ClientSession
use multi_client_media_strea.ClientSession.Ending.{
  SpentBy, load_active-Ends, if_sent-Ends, reply_error-Ends, handle_get-within,
}
use multi_client_media_strea.ClientSession.{
  ClientSession, handle_list, load_active, respond, run_round, run_loop,
}
use multi_client_media_strea.FileManager.{FileManager, get_file_size, list_files}
use multi_client_media_strea.FileManager.Quiet.{list_files-view}
use multi_client_media_strea.Os.{Os, Reply, done, failed, eintr}
use multi_client_media_strea.Os.Contract.{Reading, Patience, Dwindling, Spends}
use multi_client_media_strea.Os.Monad.{M, Ends, Ends->>=, Ends-and, Ensures}
use multi_client_media_strea.Protocol.{
  CommandType, list, get, quit, unknown, parse_request, build_list_response, build_ok_response,
  build_error_response,
}
use multi_client_media_strea.Protocol.Trim.{is_empty}
use multi_client_media_strea.Socket
use multi_client_media_strea.Socket.{Socket, is_valid, send_string, recv_line, line_next, line_loop}
use multi_client_media_strea.Socket.Ending.{send_string-Ends, recv_line-Ends}

module _ (os : Os) (patience : Patience os) (dwindling : Dwindling os patience) where
  open patience use {pending}

  -- A line that is read uses up what is pending.
  abbrev Dwindles : ℕ → (Bool × Bytes) × os.World → Type 0
  Dwindles start r = r.0.0 ≡ true → pending r.1 < start

  module _ (start fd max_length : ℕ) where
    abbrev LineDwindles : (Bytes → M os.World (Bool × Bytes)) → Type 0
    LineDwindles again =
        (line : Bytes) (w : os.World)
        → pending w ≤ start
        → (is_empty line ≡ false → pending w < start)
        → Ensures (Dwindles start) (again line w)

    line_next-Dwindles :
        (again : Bytes → M os.World (Bool × Bytes)) (line : Bytes) (left : ℕ) (reply : Reply Bytes)
        (w : os.World)
        → LineDwindles again
        → Spends reply left (pending w)
        → ((c : ℕ) (s : Bytes) → reply ≡ done (c ∷ s) → pending w < left)
        → left ≤ start
        → (is_empty line ≡ false → left < start)
        → Ensures (Dwindles start) (line_next os again line reply w)
    unfolding line_next
    line_next-Dwindles again line left (failed eintr) w k s d b e =
        k line w (omega (arith, s)) (λ q. omega (arith, s))
    line_next-Dwindles again line left (done []) w k s d b e =
        λ q. let filled : is_empty line ≡ false = ground arith in omega (arith, s, e filled)
    line_next-Dwindles again line left (done (c ∷ cs)) w k s d b e =
        let less = d c cs refl in
        elim (Bool-cases (c == b'\n')) [
          | inl newline ↦ rw (newline, line_next) (λ q. omega (arith, less))
          | inr other_byte ↦
              rw (other_byte, line_next)
                (k (line ++ c ∷ []) w (omega (arith, less)) (λ q. omega (arith, less)))
        ]
    line_next-Dwindles again line left (failed _) w k s d b e = λ q. cc

    line_loop-Dwindles : (fuel : ℕ) → LineDwindles (line_loop os fuel fd max_length)
    unfolding line_loop
    line_loop-Dwindles zero line w b e = tt
    line_loop-Dwindles (suc fuel) line w b e = elim (Bool-cases (ltb (length line) max_length)) [
      | inl more ↦
          rw (more, line_loop)
            (line_next-Dwindles (line_loop os fuel fd max_length) line (pending w) _ _
              (line_loop-Dwindles fuel) (patience.recv_spends fd 1 w)
              (λ c s q. dwindling.recv_dwindles fd 1 c s w q) b e)
      | inr over ↦ rw (over, line_loop) (λ q. cc)
    ]

  recv_line-Dwindles :
      (rounds max_length : ℕ) (s : Socket) (w : os.World)
      → Ensures (Dwindles (pending w)) (recv_line os rounds s max_length w)
  unfolding recv_line
  recv_line-Dwindles rounds max_length s w = go s.fd
    where
      go :
          (z : ℤ)
          → Ensures (Dwindles (pending w)) (recv_line os rounds (record { fd = z }) max_length w)
      go (negsuc _) = λ q. cc
      go (pos fd) =
          line_loop-Dwindles (pending w) fd max_length rounds [] w (omega arith)
            (unfold is_empty in λ q. cc)

module _ (os : Os) (reading : Reading os) (patience : Patience os) (rounds size start limit : ℕ)
    (fm : FileManager) (roomy : (v : os.World) → os.allocates size v ≡ true)
    (sizes : (filename : Bytes) (w : os.World) (n : ℕ)
      → (get_file_size os fm filename w).0 ≡ some n
      → n ≤ limit)
    (listings : (w : os.World) → length (build_list_response (list_files os fm w).0) ≤ limit)
    (enough : start + limit + 4096 < rounds) where
  open patience use {pending}

  abbrev Left : ℕ → ClientSession × os.World → Type 0
  Left = SpentBy os reading patience rounds size

  handle_list-Ends :
      (bound : ℕ) (s : ClientSession) (w : os.World)
      → s.chunk_size ≡ size
      → bound ≤ start
      → pending w ≤ bound
      → Ends (Left bound) (handle_list os rounds fm s w)
  unfolding handle_list
  handle_list-Ends bound s w z b p =
      let reply = build_list_response (list_files os fm w).0 in
      let v = (list_files os fm w).1 in
      let same : pending v ≡ pending w = list_files-view os pending patience.by_files fm w in
      Ends->>= _ (Left bound) _ (send_string os rounds s.socket reply) v
        (send_string-Ends os patience rounds s.socket reply v (omega (arith, same, listings w)))
        (λ all u h.
          if_sent-Ends os reading patience rounds size bound s all _ u z (omega (arith, h, same))
            (omega (arith, h, same), z))

  respond-Ends :
      (bound : ℕ) (s : ClientSession) (type : CommandType) (argument : Bytes) (w : os.World)
      → s.chunk_size ≡ size
      → bound ≤ start
      → pending w ≤ bound
      → Ends (Left bound) (respond os rounds fm s type argument w)
  unfolding respond
  respond-Ends bound s list argument w z b p = handle_list-Ends bound s w z b p
  respond-Ends bound s get argument w z b p =
      handle_get-within os reading patience rounds size bound limit (omega arith) roomy fm s
        argument w z (sizes argument w) p
  respond-Ends bound s quit argument w z b p =
      let bye = build_ok_response (codes "BYE") in
      Ends->>= _ (Left bound) _ (send_string os rounds s.socket bye) w
        (send_string-Ends os patience rounds s.socket bye w
          (unfold build_ok_response is_empty in omega arith))
        (λ all v h. (omega (arith, h), z))
  respond-Ends bound s unknown argument w z b p =
      reply_error-Ends os reading patience rounds size bound s (codes "INVALID_REQUEST") w z
        (unfold build_error_response in omega arith) p

  module _ (dwindling : Dwindling os patience) where
    abbrev RoundEnds : ℕ → (ClientSession → M os.World ClientSession) → Type 0
    RoundEnds fuel again =
        (s : ClientSession) (w : os.World)
        → s.chunk_size ≡ size
        → pending w < fuel
        → pending w ≤ start
        → Ends (Left start) (again s w)

    -- A round, once the flag is loaded and once a line is there.
    run_round-Ends :
        (fuel : ℕ) (again : ClientSession → M os.World ClientSession) (s : ClientSession)
        (w : os.World)
        → RoundEnds fuel again
        → s.chunk_size ≡ size
        → pending w < suc fuel
        → pending w ≤ start
        → Ends (Left start) (run_round os rounds again fm s w)
    unfolding run_round
    run_round-Ends fuel again s w k z f b = elim (Bool-cases s.is_active) [
      | inr over ↦ rw (over, run_round) (b, z)
      | inl on ↦
          rw (on, run_round)
            (Ends->>= _ (Left start) _ (recv_line os rounds s.socket 4096) w
              (Ends-and _ _ _ (recv_line-Ends os patience rounds s.socket 4096 w (omega arith))
                (recv_line-Dwindles os patience dwindling rounds 4096 s.socket w))
              (λ reply v h. elim (Bool-cases reply.0) [
                | inr hung_up ↦ rw (hung_up, run_round) (omega (arith, h.0), z)
                | inl got ↦
                    let less : pending v < pending w = h.1 got in
                    let request = parse_request reply.1 in
                    rw (got, run_round)
                      (Ends->>= _ (Left start) _
                        (respond os rounds fm s request.type request.argument) v
                        (respond-Ends (pending v) s request.type request.argument v z (omega arith)
                          (omega arith))
                        (λ t u q. k t u q.1 (omega (arith, less, q.0)) (omega (arith, less, q.0))))
              ]))
    ]

    run_loop-Ends : (fuel : ℕ) → RoundEnds fuel (run_loop os rounds fuel fm)
    unfolding run_loop
    run_loop-Ends zero s w z f b = absurd (omega arith)
    run_loop-Ends (suc fuel) s w z f b =
        Ends->>= _ (Left start) _ (load_active os s) w
          (load_active-Ends os reading patience rounds size s w)
          (λ t v h.
            run_round-Ends fuel (run_loop os rounds fuel fm) t v (run_loop-Ends fuel) (h.1 ∙ z)
              (omega (arith, h.0)) (omega (arith, h.0)))

-- A session that is over: it is not active and its socket is closed.
abbrev pub Over : {World : Type 0} → ClientSession × World → Type 0
Over r = (r.0.is_active ≡ false) × (is_valid r.0.socket ≡ false)

close-invalid :
    (os : Os) (z : ℤ) (w : os.World) → is_valid (Socket.close os (record { fd = z }) w).0 ≡ false
unfolding Socket.close
close-invalid os (pos fd) w = refl
close-invalid os (negsuc _) w = refl

-- Where the system keeps the contracts `Reading` and `Patience`, each of its calls returns, the memory
-- for a buffer of the chunk size can be had and the peers send finitely many bytes, `run` returns whatever they send, and then the session is not active and its socket is closed,
-- if the sizes of the files and the replies to LIST stay within a limit, its rounds are more than the
-- interruptions and bytes to come, that limit and 4096, together, and those of its loop more than the
-- interruptions and bytes to come.
pub run-Over :
    (os : Os) (reading : Reading os) (patience : Patience os) (dwindling : Dwindling os patience)
    (rounds fuel limit : ℕ) (fm : FileManager) (s : ClientSession) (w : os.World)
    → ((v : os.World) → os.allocates s.chunk_size v ≡ true)
    → ((filename : Bytes) (v : os.World) (n : ℕ)
        → (get_file_size os fm filename v).0 ≡ some n
        → n ≤ limit)
    → ((v : os.World) → length (build_list_response (list_files os fm v).0) ≤ limit)
    → patience.pending w + limit + 4096 < rounds
    → patience.pending w < fuel
    → Ends (Over) (ClientSession.run os rounds fuel fm s w)
unfolding ClientSession.run
run-Over os reading patience dwindling rounds fuel limit fm s w roomy sizes listings enough f =
    Ends->>= _ (Over) _ (run_loop os rounds fuel fm (record s { is_active = true })) w
      (run_loop-Ends os reading patience rounds s.chunk_size (patience.pending w) limit fm roomy
        sizes listings enough dwindling fuel (record s { is_active = true }) w refl f (omega arith))
      (λ t v h. (refl, close-invalid os t.socket.fd v))
