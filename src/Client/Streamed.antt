-- ===== src/Client/Streamed.antt =====
-- `do_get` from the point where the file is open.
use multi_client_media_strea.Base.{
  ℕ, Bool, true, false, [], ◌++◌, append-nil, ◌≡◌, refl, ap, ◌∙◌, Option, none, some, Bytes, codes,
  pos, length, take,
}
use multi_client_media_strea.Client.{
  Verdict, gave_up, completed, threw, receive_loop, after_canonical, finish_get, save_file,
}
use multi_client_media_strea.Client.Saving.{Saved, receive_loop-Saves}
use multi_client_media_strea.Client.Views.{receive_loop-view}
use multi_client_media_strea.FilePath.{FilePath}
use multi_client_media_strea.Os.{Os}
use multi_client_media_strea.Os.Contract.{Wire, Saving}
use multi_client_media_strea.Os.Monad.{Ensures, Ensures-and, Ensures->>=}
use multi_client_media_strea.Socket.{Socket, send_string}
use multi_client_media_strea.Socket.Send.{send_string-Sent}
use multi_client_media_strea.Socket.Views.{send_string-view}

module _ (os : Os) (wire : Wire os) (saving : Saving os) (rounds fd : ℕ) (out_path : FilePath) where
  open wire use {delivered, received, closed}

  abbrev pub sock : Socket
  sock = record { fd = pos fd }

  -- A property of the world in which `do_get` returns true.
  abbrev pub OnSuccess : (os.World → Type 0) → Verdict × os.World → Type 0
  OnSuccess P (completed, v) = P v
  OnSuccess P (_, v) = Unit {0}

  pub OnSuccess-map :
      (P Q : os.World → Type 0)
      → ((v : os.World) → P v → Q v)
      → (o : Option (Verdict × os.World)) → Ensures (OnSuccess P) o
      → Ensures (OnSuccess Q) o
  OnSuccess-map P Q k none h = tt
  OnSuccess-map P Q k (some (gave_up, v)) h = tt
  OnSuccess-map P Q k (some (threw, v)) h = tt
  OnSuccess-map P Q k (some (completed, v)) h = k v h

  -- The end of a fetch: what was delivered and received before and what was written to the file.
  record Ended (sent got content : Bytes) (out : ℕ) (v : os.World) : Type 0 where
    quit : ℕ
    asked : delivered fd v ≡ sent ++ take quit (codes "QUIT\n")
    same : received fd v ≡ got
    kept : saving.written out v ≡ content

  after_canonical-Ended :
      (resolved : Option FilePath) (out : ℕ) (sent got content : Bytes) (w : os.World)
      → delivered fd w ≡ sent
      → received fd w ≡ got
      → saving.written out w ≡ content
      → Ensures (OnSuccess (Ended sent got content out)) (after_canonical os rounds sock resolved w)
  unfolding after_canonical
  after_canonical-Ended none out sent got content w d r s = tt
  after_canonical-Ended (some p) out sent got content w d r s =
      let bye = codes "QUIT\n" in
      Ensures->>= _ (OnSuccess (Ended sent got content out)) _ (send_string os rounds sock bye) w
        (Ensures-and _ _ _ (send_string-Sent os wire rounds fd bye w) (
          Ensures-and _ _ _
            (send_string-view os (received fd) fd (wire.send_receives fd fd) bye rounds w)
            (send_string-view os (saving.written out) fd (saving.send_writes out fd) bye rounds w)))
        (λ all v h. record {
          quit = h.0.0;
          asked = h.0.1.added ∙ ap (λ x. x ++ take h.0.0 bye) d;
          same = h.1.0 ∙ r;
          kept = h.1.1 ∙ s;
        })

  finish_get-Ended :
      (whole : Bool) (out : ℕ) (sent got content : Bytes) (w : os.World)
      → (whole ≡ true
          → (delivered fd w ≡ sent) × (received fd w ≡ got) × (saving.written out w ≡ content))
      → Ensures
          (OnSuccess (Ended sent got content out))
          (finish_get os rounds sock out_path whole w)
  unfolding finish_get
  finish_get-Ended false out sent got content w h = tt
  finish_get-Ended true out sent got content w h =
      let (d, r, s) = h refl in
      after_canonical-Ended (os.canonical out_path w).0 out sent got content
        (os.canonical out_path w).1 ((wire.delivered_by_files fd).by_canonical out_path w ∙ d)
        ((wire.received_by_files fd).by_canonical out_path w ∙ r)
        (saving.canonical_writes out out_path w ∙ s)

  -- From the point where the file is open.
  pub record Streamed (size out : ℕ) (shut : Bool) (sent got : Bytes) (v : os.World) : Type 0 where
    pub content : Bytes
    pub quit : ℕ
    pub measured : length content ≡ size
    pub silent : shut ≡ true → content ≡ []
    pub asked : delivered fd v ≡ sent ++ take quit (codes "QUIT\n")
    pub taken : received fd v ≡ got ++ content
    pub kept : saving.written out v ≡ content

  finish_get-Streamed :
      (whole : Bool) (size out : ℕ) (shut : Bool) (sent got : Bytes) (w : os.World)
      → delivered fd w ≡ sent
      → Saved size shut got (received fd w) [] (saving.written out w) whole
      → Ensures
          (OnSuccess (Streamed size out shut sent got))
          (finish_get os rounds sock out_path whole w)
  finish_get-Streamed false size out shut sent got w d s = unfold finish_get in tt
  finish_get-Streamed true size out shut sent got w d s =
      let (measured, none_left) = s.if_true refl in
      OnSuccess-map (Ended sent (got ++ s.content) s.content out) (Streamed size out shut sent got)
        (λ v h. record {
          content = s.content;
          quit = h.quit;
          measured = measured;
          silent = s.silent;
          asked = h.asked;
          taken = h.same;
          kept = h.kept;
        })
        _
        (finish_get-Ended true out sent (got ++ s.content) s.content w (λ _. (
          d,
          s.taken
              ∙ ap (λ r. got ++ (s.content ++ r)) none_left
              ∙ ap (◌++◌ got) (append-nil s.content),
          s.added,
        )))

  pub save_file-Streamed :
      (size out : ℕ) (w : os.World)
      → saving.written out w ≡ []
      → Ensures
          (OnSuccess (Streamed size out (closed fd w) (delivered fd w) (received fd w)))
          (save_file os rounds sock out_path size (some out) w)
  unfolding save_file
  save_file-Streamed size out w empty =
      let P = OnSuccess (Streamed size out (closed fd w) (delivered fd w) (received fd w)) in
      Ensures->>= _ P _ (receive_loop os rounds rounds sock out size 0) w
        (Ensures-and _ _ _ (receive_loop-Saves os wire saving rounds rounds fd out size w) (
          receive_loop-view os (delivered fd) rounds fd out size (wire.recv_delivers fd fd)
            (wire.write_delivers fd out) rounds w))
        (λ whole v h.
          finish_get-Streamed whole size out (closed fd w) (delivered fd w) (received fd w) v h.1
            (rw empty at h.0))
