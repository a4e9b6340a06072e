-- ===== src/ClientSession/Conversation.antt =====
-- `run` as a conversation: a request is taken, its reply is handed over, and only then is the next
-- request taken.
use multi_client_media_strea.Base.{
  ℕ, zero, suc, ◌<◌, Bool, true, false, ◌++◌, ◌≡◌, refl, sym, ap, ◌∙◌, inl, inr, some, Bytes,
  Bool-cases, pos,
}
use multi_client_media_strea.ClientSession
use multi_client_media_strea.ClientSession.{
  ClientSession, load_active, stop, respond, run_round, run_loop,
}
use multi_client_media_strea.ClientSession.Exchange.{Exchange, Exchange-same, respond-Ensures}
use multi_client_media_strea.ClientSession.Silence.{
  Silent, Silent-trans, load_active-Silent, run_round-over, run_loop-over,
}
use multi_client_media_strea.ClientSession.Steps.{close-view, load_active-cases}
use multi_client_media_strea.FileManager.{FileManager}
use multi_client_media_strea.Os.{Os}
use multi_client_media_strea.Os.Contract.{Wire, Reading}
use multi_client_media_strea.Os.Monad.{
  M, Ensures, Ensures-and, Ensures-map, Ensures-some, Ensures->>=,
}
use multi_client_media_strea.Protocol.{parse_request}
use multi_client_media_strea.Socket.{recv_line}
use multi_client_media_strea.Socket.Lines.{Line, LineResult, recv_line-Ensures}
use multi_client_media_strea.Socket.Views.{recv_line-view}

module _ (os : Os) (wire : Wire os) (reading : Reading os) (fd : ℕ) (s : ClientSession)
    (fm : FileManager) where
  open wire use {delivered, received, closed}

  abbrev pub Still : os.World → os.World → Type 0
  Still = Silent os wire fd

  abbrev Hushed : os.World → ClientSession × os.World → Type 0
  Hushed w r = Still w r.1

  -- The session has not been stopped, and a line is taken, or not found.
  pub record Heard (w u : os.World) (flag : Bool) (line : Bytes) : Type 0 where
    pub not_stopped : (os.stop_requested w).0 ≡ false
    pub taken : Bytes
    pub received_more : received fd u ≡ received fd w ++ taken
    pub line_law : Line 4096 taken (closed fd u) flag line
    pub nothing_sent : delivered fd u ≡ delivered fd w

  -- A line with a request is taken, and answered before anything else is taken.
  pub record Answers (w x : os.World) (t : ClientSession) : Type 0 where
    pub line : Bytes
    pub between : os.World
    pub heard : Heard w between true line
    pub exchange :
        Exchange os wire reading fd s fm between
          (parse_request line).type
          (parse_request line).argument
          (t, x)
    pub nothing_taken : received fd x ≡ received fd between

  -- The session is found stopped, or there is no line, or a reply ends the session, or the session is as
  -- it was behind a reply and goes on.
  pub data Conversation : os.World → os.World → Type 0 where
    stopped : {w v : os.World} → (os.stop_requested w).0 ≡ true → Still w v → Conversation w v
    hung_up :
        {w u v : os.World} {line : Bytes} → Heard w u false line → Still u v → Conversation w v
    ended :
        {w x v : os.World} {t : ClientSession}
        → Answers w x t
        → t.is_active ≡ false
        → Still x v
        → Conversation w v
    continued : {w x v : os.World} → Answers w x s → Conversation x v → Conversation w v

  -- A silent step more at the end, as the closing of the socket.
  Conversation-Still : (w u v : os.World) → Conversation w u → Still u v → Conversation w v
  Conversation-Still w u v (stopped a i) e = stopped a (Silent-trans os wire fd w u v i e)
  Conversation-Still w u v (hung_up {u = x} h i) e = hung_up h (Silent-trans os wire fd x u v i e)
  Conversation-Still w u v (ended {x = x} a o i) e = ended a o (Silent-trans os wire fd x u v i e)
  Conversation-Still w u v (continued {x = x} a c) e = continued a (Conversation-Still x u v c e)

  abbrev pub Converses : os.World → ClientSession × os.World → Type 0
  Converses w r = Conversation w r.1

  module _ (rounds : ℕ) where
    module _ (connected : s.socket ≡ record { fd = pos fd }) (chunked : 0 < s.chunk_size)
        (active : s.is_active ≡ true) where
      -- What comes behind a reply.
      answered :
          (again : ClientSession → M os.World ClientSession) (w x : os.World) (t : ClientSession)
          → ((u : os.World) → Ensures (Converses u) (again s u))
          → ((t' : ClientSession) (u : os.World)
              → t'.is_active ≡ false
              → Ensures (Hushed u) (again t' u))
          → Answers w x t
          → Ensures (Converses w) (again t x)
      answered again w x t k over a = elim (Bool-cases t.is_active) [
        | inl on ↦
            let same : t ≡ s =
              Exchange-same os wire reading fd s fm a.between _ _ t x a.exchange on in
            rw same (
              Ensures-map (Converses x) (Converses w) (again s x)
                (λ r c. continued (rw same at a) c) (k x))
        | inr off ↦
            Ensures-map (Hushed x) (Converses w) (again t x) (λ r i. ended a off i) (over t x off)
      ]

      heard_line :
          (v : os.World)
          → Ensures
              (λ r.
                LineResult os wire fd 4096 (received fd v) r × (delivered fd r.1 ≡ delivered fd v))
              (recv_line os rounds s.socket 4096 v)
      heard_line v = rw connected (
          Ensures-and _ _ _ (recv_line-Ensures os wire rounds fd 4096 v) (
            recv_line-view os (delivered fd) fd 4096 (λ n u. wire.recv_delivers fd fd n u) rounds
              v))

      run_round-Converses :
          (again : ClientSession → M os.World ClientSession) (w v : os.World)
          → ((u : os.World) → Ensures (Converses u) (again s u))
          → ((t' : ClientSession) (u : os.World)
              → t'.is_active ≡ false
              → Ensures (Hushed u) (again t' u))
          → (os.stop_requested w).0 ≡ false
          → Still w v
          → Ensures (Converses w) (run_round os rounds again fm s v)
      unfolding run_round
      run_round-Converses again w v k over quiet i =
          simp (active, run_round)
            (Ensures->>= _ (Converses w) _ (recv_line os rounds s.socket 4096) v (heard_line v)
              (λ reply u h.
                let heard : Heard w u reply.0 reply.1 = record {
                  not_stopped = quiet;
                  taken = h.0.0;
                  received_more = h.0.1 ∙ ap (λ b. b ++ h.0.0) i.nothing_taken;
                  line_law = h.0.2;
                  nothing_sent = h.1 ∙ i.nothing_sent;
                } in
                elim (Bool-cases reply.0) [
                  | inr lost ↦
                      rw (lost, run_round)
                        (hung_up (rw lost at heard)
                          (record { nothing_sent = refl; nothing_taken = refl }))
                  | inl found ↦
                      let request = parse_request reply.1 in
                      rw (found, run_round)
                        (Ensures->>= _ (Converses w) _
                          (respond os rounds fm s request.type request.argument) u
                          (respond-Ensures os wire reading fd s fm rounds connected chunked u
                            request.type request.argument)
                          (λ t x e. answered again w x t k over (record {
                            line = reply.1;
                            between = u;
                            heard = rw found at heard;
                            exchange = e.0;
                            nothing_taken = e.1;
                          })))
                ]))

      run_loop-Converses :
          (fuel : ℕ) (w : os.World) → Ensures (Converses w) (run_loop os rounds fuel fm s w)
      unfolding run_loop
      run_loop-Converses zero w = tt
      run_loop-Converses (suc fuel) w =
          Ensures->>= _ (Converses w) _ (load_active os s) w
            (Ensures-and _ _ _ (load_active-cases os s w) (load_active-Silent os wire fd s w))
            (λ t v h. elim h.0 [
              | inl (asked, over) ↦
                  Ensures-map (Hushed w) (Converses w) _ (λ r i. stopped asked i)
                    (run_round-over os wire fd fm rounds (run_loop os rounds fuel fm) w v t over
                      h.1)
              | inr (quiet, same) ↦ rw same (
                  run_round-Converses (run_loop os rounds fuel fm) w v (run_loop-Converses fuel)
                    (λ t' u over. run_loop-over os wire fd fm rounds fuel u t' over) quiet h.1)
            ])

      reactivated :
          (fuel : ℕ) (w : os.World) (t : ClientSession)
          → t ≡ s
          → Ensures (Converses w) (run_loop os rounds fuel fm t w)
      reactivated fuel w t e = rw e (run_loop-Converses fuel w)

      -- The whole of the run.
      pub run-Converses :
          (fuel : ℕ) (w : os.World)
          → Ensures (Converses w) (ClientSession.run os rounds fuel fm s w)
      unfolding ClientSession.run
      run-Converses fuel w =
          Ensures->>= (Converses w) (Converses w) _
            (run_loop os rounds fuel fm (record s { is_active = true })) w
            (reactivated fuel w _ (λ i. record s { is_active = sym active i }))
            (λ t v c. Conversation-Still w v _ c (record {
              nothing_sent =
                  close-view os (delivered fd) (wire.delivered_untouched fd) t.socket.fd v;
              nothing_taken =
                  close-view os (received fd) (wire.received_untouched fd) t.socket.fd v;
            }))

-- Where the system keeps the contracts `Wire` and `Reading`, the socket has a descriptor and the chunk
-- size is not 0, a `run` that returns has been a conversation. At each turn the session is found
-- stopped, and nothing more is taken or handed over; or no line is found, and again nothing more is; or
-- a line is taken and the reply to the request in it follows what was handed over before, with nothing
-- else taken meanwhile. Behind a reply the session is as it was and the next turn comes, or it is not
-- active, and nothing more is taken or handed over.
pub run-Conversation :
    (os : Os) (wire : Wire os) (reading : Reading os) (rounds fuel fd : ℕ) (fm : FileManager)
    (s t : ClientSession) (w v : os.World)
    → s.socket ≡ record { fd = pos fd }
    → 0 < s.chunk_size
    → ClientSession.run os rounds fuel fm s w ≡ some (t, v)
    → Conversation os wire reading fd (record s { is_active = true }) fm w v
unfolding ClientSession.run
run-Conversation os wire reading rounds fuel fd fm s t w v connected chunked =
    let activated = record s { is_active = true } in
    Ensures-some (Converses os wire reading fd activated fm w) _ (t, v)
      (run-Converses os wire reading fd activated fm rounds connected chunked refl fuel w)
