-- ===== src/ClientSession/Stream.antt =====
-- The transfer loop of `handle_get`: the file goes to the client in order, chunk by chunk.
use multi_client_media_strea.Base.{
  ℕ, zero, suc, ◌+◌, ◌-◌, ◌≤◌, ◌<◌, Bool, true, false, ◌&&◌, [], ◌∷◌, ◌++◌, append_assoc,
  append-nil, ◌≡◌, refl, sym, ap, ◌∙◌, arith, Bytes, pos, length, take, drop, min, ltb, ◌==◌,
  length-take, length-drop, take-add, drop-drop, take-take, drop-length-take,
}
use multi_client_media_strea.ClientSession.{
  ClientSession, FileStream, load_active, if_sent, read_stream, send_chunk, stream_body,
  stream_round, stream_loop,
}
use multi_client_media_strea.ClientSession.Steps.{load_active-view, load_active-same}
use multi_client_media_strea.Os.{Os}
use multi_client_media_strea.Os.Contract.{Wire, Reading}
use multi_client_media_strea.Os.Monad.{M, Ensures, Ensures-and, Ensures->>=}
use multi_client_media_strea.Socket.{send_all}
use multi_client_media_strea.Socket.Send.{Outcome, Sent, send_all-Ensures}
use multi_client_media_strea.Socket.Views.{send_all-view}

-- `sent` bytes of the file, in front, have been handed over. A session that is still active is as it
-- was, and all of the file has gone out, or all of it that was announced.
pub record Streamed (content before after : Bytes) (file_size : ℕ) (s t : ClientSession)
    : Type 0 where
  pub sent : ℕ
  pub added : after ≡ before ++ take sent content
  pub announced : sent ≤ file_size
  pub there : sent ≤ length content
  pub if_active : t.is_active ≡ true → (sent ≡ min file_size (length content)) × (t ≡ s)

module _ (os : Os) (wire : Wire os) (reading : Reading os) (rounds fd handle file_size : ℕ)
    (content start : Bytes) (s : ClientSession) (connected : s.socket ≡ record { fd = pos fd })
    (chunked : 0 < s.chunk_size) where
  open wire use {delivered}
  open reading use {unread}

  abbrev pub Result : ClientSession × os.World → Type 0
  Result r = Streamed content start (delivered fd r.1) file_size s r.0

  -- Between two rounds.
  record Progress (good : Bool) (total : ℕ) (w : os.World) : Type 0 where
    announced : total ≤ file_size
    there : total ≤ length content
    added : delivered fd w ≡ start ++ take total content
    ahead : unread handle w ≡ drop total content
    at_end : good ≡ false → total ≡ length content

  abbrev Again : (ClientSession → FileStream → ℕ → M os.World ClientSession) → Type 0
  Again again =
      (good : Bool) (total : ℕ) (w : os.World)
      → Progress good total w
      → Ensures Result (again s (record { handle = handle; good = good }) total w)

  send_chunk_lem :
      (chunk : Bytes) (w : os.World)
      → Ensures
          (λ r. Sent os wire rounds fd chunk w r × (unread handle r.1 ≡ unread handle w))
          (send_all os rounds s.socket chunk w)
  send_chunk_lem chunk w = rw connected (
      Ensures-and _ _ _ (send_all-Ensures os wire rounds fd chunk w)
        (send_all-view os (unread handle) fd (reading.send_reads handle fd) chunk rounds w))

  chunk_length :
      (total n : ℕ) (chunk : Bytes)
      → chunk ≡ take n (drop total content)
      → length chunk ≡ min n (length content - total)
  chunk_length total n chunk e =
      ap length e ∙ length-take n (drop total content) ∙ ap (min n) (length-drop total content)

  Progress-next :
      (total n sent : ℕ) (good : Bool) (chunk : Bytes) (w v : os.World)
      → Progress true total w
      → total + n ≤ file_size
      → chunk ≡ take n (drop total content)
      → good ≡ (length chunk == n)
      → sent ≡ length chunk
      → delivered fd v ≡ start ++ take (total + sent) content
      → unread handle v ≡ drop n (drop total content)
      → Progress good (total + sent) v
  Progress-next total n sent good chunk w v p a e g j d u =
      let m : sent ≡ min n (length content - total) = j ∙ chunk_length total n chunk e in
      record {
        announced = omega (arith, p.announced);
        there = omega (arith, p.there);
        added = d;
        ahead =
            u
            ∙ sym (drop-length-take n (drop total content))
            ∙ ap (λ k. drop k (drop total content)) (sym (j ∙ ap length e))
            ∙ drop-drop total sent _ content refl;
        at_end = λ x. ground (arith, p.there);
      }

  added_chunk :
      (total n sent : ℕ) (chunk before after : Bytes)
      → before ≡ start ++ take total content
      → chunk ≡ take n (drop total content)
      → sent ≤ length chunk
      → after ≡ before ++ take sent chunk
      → after ≡ start ++ take (total + sent) content
  added_chunk total n sent chunk before after b e h a =
      a
      ∙ ap (λ x. x ++ take sent chunk) b
      ∙ append_assoc start (take total content) _
      ∙ ap (λ x. start ++ (take total content ++ x))
          (ap (take sent) e
            ∙ take-take sent n _ (omega (arith, ap length e, length-take n (drop total content))))
      ∙ ap (◌++◌ start) (take-add total sent _ content refl)

  if_sent-Ensures :
      (total : ℕ) (chunk : Bytes) (w v : os.World) (all : Bool) (sent : ℕ)
      (rest : M os.World ClientSession)
      → Outcome chunk (delivered fd w) (delivered fd v) all sent
      → (delivered fd v ≡ start ++ take (total + sent) content)
      → total + sent ≤ file_size
      → total + sent ≤ length content
      → (sent ≡ length chunk → Ensures Result (rest v))
      → Ensures Result (if_sent os s all rest v)
  unfolding if_sent
  if_sent-Ensures total chunk w v true sent rest o d a t k = k (o.if_true refl)
  if_sent-Ensures total chunk w v false sent rest o d a t k = record {
    sent = total + sent;
    added = d;
    announced = a;
    there = t;
    if_active = λ h. cc;
  }

  send_chunk-Ensures :
      (again : ClientSession → FileStream → ℕ → M os.World ClientSession) (total n : ℕ)
      (good : Bool) (chunk : Bytes) (before after : os.World)
      → Again again
      → Progress true total before
      → 0 < n
      → total + n ≤ file_size
      → chunk ≡ take n (drop total content)
      → delivered fd after ≡ delivered fd before
      → unread handle after ≡ drop n (drop total content)
      → good ≡ (length chunk == n)
      → Ensures Result (
          send_chunk os rounds again s total (chunk, record { handle = handle; good = good }) after)
  unfolding send_chunk
  send_chunk-Ensures again total n good [] before after k p h a e d u g = record {
    sent = total;
    added = d ∙ p.added;
    announced = p.announced;
    there = p.there;
    if_active = λ _. (omega (arith, p.there, chunk_length total n [] e), refl);
  }
  send_chunk-Ensures again total n good (c ∷ cs) before after k p h a e d u g =
      Ensures->>= _ Result _ (send_all os rounds s.socket (c ∷ cs)) after
        (send_chunk_lem (c ∷ cs) after)
        (λ r v o.
          let chunk = c ∷ cs in
          let sent = o.0.0 in
          let d' = added_chunk total n sent chunk _ _ (d ∙ p.added) e o.0.2.within o.0.2.added in
          let l : length chunk ≡ min n (length content - total) = chunk_length total n chunk e in
          if_sent-Ensures total chunk after v r.0 sent _ o.0.2 d' (omega (arith, o.0.2.within))
            (omega (arith, o.0.2.within, p.there))
            (λ j. k good (total + length chunk) v (
              Progress-next total n (length chunk) good chunk before v p a e g refl
                (d' ∙ ap (λ x. start ++ take (total + x) content) j) (o.1 ∙ u))))

  -- The test has failed: the session is over, or all has gone out that was announced or there.
  body_stops :
      (good : Bool) (total : ℕ) (t : ClientSession) (w : os.World)
      → Progress good total w
      → (t.is_active ≡ true → t ≡ s)
      → (t.is_active && ltb total file_size && good) ≡ false
      → Result (t, w)
  body_stops good total t w p same e = record {
    sent = total;
    added = p.added;
    announced = p.announced;
    there = p.there;
    if_active = λ h. (ground (arith, p.there, p.announced, p.at_end), same h);
  }

  body_reads :
      (again : ClientSession → FileStream → ℕ → M os.World ClientSession) (good : Bool) (total : ℕ)
      (w : os.World)
      → Again again
      → Progress good total w
      → total < file_size
      → good ≡ true
      → Ensures Result (
          stream_body os rounds again file_size
            (record { handle = handle; good = good })
            total
            s
            true
            w)
  unfolding stream_body read_stream
  body_reads again good total w k p more ready =
      let n = min s.chunk_size (file_size - total) in
      send_chunk-Ensures again total n _ (os.read handle n w).0 w (os.read handle n w).1 k
        (rw ready at p) (omega arith) (omega arith)
        ((reading.read_law handle n w).0 ∙ ap (take n) p.ahead) (wire.read_delivers fd handle n w)
        ((reading.read_law handle n w).1 ∙ ap (drop n) p.ahead) (ground arith)

  body-Ensures :
      (again : ClientSession → FileStream → ℕ → M os.World ClientSession) (good : Bool) (total : ℕ)
      (t : ClientSession) (w : os.World) (test : Bool)
      → Again again
      → Progress good total w
      → (t.is_active ≡ true → t ≡ s)
      → (t.is_active && ltb total file_size && good) ≡ test
      → Ensures Result (
          stream_body os rounds again file_size
            (record { handle = handle; good = good })
            total
            t
            test
            w)
  body-Ensures again good total t w false k p same e =
      unfold stream_body in body_stops good total t w p same e
  body-Ensures again good total t w true k p same e =
      rw (same (ground arith)) (body_reads again good total w k p (ground arith) (ground arith))

  stream_round-Ensures :
      (again : ClientSession → FileStream → ℕ → M os.World ClientSession) (good : Bool) (total : ℕ)
      (t : ClientSession) (w : os.World)
      → Again again
      → Progress good total w
      → (t.is_active ≡ true → t ≡ s)
      → Ensures Result (
          stream_round os rounds again file_size
            (record { handle = handle; good = good })
            total
            t
            w)
  unfolding stream_round
  stream_round-Ensures again good total t w k p same =
      body-Ensures again good total t w _ k p same refl

  Progress-kept :
      (good : Bool) (total : ℕ) (w v : os.World)
      → Progress good total w
      → delivered fd v ≡ delivered fd w
      → unread handle v ≡ unread handle w
      → Progress good total v
  Progress-kept good total w v p d u = record {
    announced = p.announced;
    there = p.there;
    added = d ∙ p.added;
    ahead = u ∙ p.ahead;
    at_end = p.at_end;
  }

  stream_loop-Ensures : (fuel : ℕ) → Again (stream_loop os rounds fuel file_size)
  unfolding stream_loop
  stream_loop-Ensures zero good total w p = tt
  stream_loop-Ensures (suc fuel) good total w p =
      Ensures->>= _ Result _ (load_active os s) w
        (Ensures-and _ _ _
          (Ensures-and _ _ _ (load_active-view os (delivered fd) (wire.delivered_untouched fd) s w)
            (load_active-view os (unread handle) (reading.unread_untouched handle) s w))
          (load_active-same os s w))
        (λ t v h.
          stream_round-Ensures (stream_loop os rounds fuel file_size) good total t v
            (stream_loop-Ensures fuel) (Progress-kept good total w v p h.0.0 h.0.1) h.1)

  -- The transfer of an open file, from its first byte.
  pub stream_loop-Streamed :
      (fuel : ℕ) (w : os.World)
      → delivered fd w ≡ start
      → unread handle w ≡ content
      → Ensures Result
          (stream_loop os rounds fuel file_size s (record { handle = handle; good = true }) 0 w)
  stream_loop-Streamed fuel w d u = stream_loop-Ensures fuel true 0 w (record {
    announced = omega arith;
    there = omega arith;
    added = d ∙ sym (append-nil start);
    ahead = u;
    at_end = λ h. cc;
  })
