-- ===== src/Client/Saving.antt =====
-- What the client writes to its file is what the server sent behind the header.
use multi_client_media_strea.Base.{
  ℕ, zero, suc, ◌+◌, ◌-◌, ◌≤◌, ◌<◌, Bool, true, false, [], ◌++◌, append_assoc, append-nil, ◌≡◌, ◌≢◌,
  ◌⊎◌, refl, sym, ap, ap₂, ◌∙◌, arith, some, inl, inr, Bool-cases, Bytes, ℤ, pos, negsuc, length,
  ltb, min, length-append,
}
use multi_client_media_strea.Client.{client_chunk_size, save_chunk, receive_loop}
use multi_client_media_strea.Os.{Os}
use multi_client_media_strea.Os.Contract.{Wire, Saving}
use multi_client_media_strea.Os.Monad.{M, Ensures, Ensures-some, Ensures-and, Ensures->>=}
use multi_client_media_strea.Socket.{Socket, recv_all}
use multi_client_media_strea.Socket.Recv.{Filled, recv_all-Ensures}
use multi_client_media_strea.Socket.Views.{recv_all-view}

-- `content` has been handed to the file's stream, and it is what has been taken from the connection, less
-- `rest`. The flag says that this is the whole file. If the peer had closed the connection, nothing
-- has been taken.
pub record Saved (file_size : ℕ) (shut : Bool) (before after file file' : Bytes) (whole : Bool)
    : Type 0 where
  pub content : Bytes
  pub rest : Bytes
  pub taken : after ≡ before ++ (content ++ rest)
  pub added : file' ≡ file ++ content
  pub within : length content + length rest ≤ file_size
  pub if_true : whole ≡ true → (length content ≡ file_size) × (rest ≡ [])
  pub if_false : whole ≡ false → length content + length rest < file_size
  pub silent : shut ≡ true → content ≡ []

only_one :
    (n : ℕ)
    → (pos (suc n) ≡ pos 1) ⊎ ((pos (suc n) ≡ pos 0) ⊎ (pos (suc n) ≡ negsuc 0))
    → pos (suc n) ≡ pos 1
only_one n (inl e) = e
only_one n (inr (inl e)) = absurd (ground arith)
only_one n (inr (inr e)) = absurd (ground arith)

module _ (os : Os) (wire : Wire os) (saving : Saving os) (rounds fd out file_size : ℕ)
    (start file : Bytes) (shut : Bool) where
  open wire use {received, closed}

  abbrev Result : Bool × os.World → Type 0
  Result r = Saved file_size shut start (received fd r.1) file (saving.written out r.1) r.0

  record Progress (total : ℕ) (w : os.World) : Type 0 where
    content : Bytes
    measured : length content ≡ total
    within : total ≤ file_size
    taken : received fd w ≡ start ++ content
    added : saving.written out w ≡ file ++ content
    silent : shut ≡ true → (content ≡ []) × (closed fd w ≡ true)

  abbrev Again : (ℕ → M os.World Bool) → Type 0
  Again again = (total : ℕ) (w : os.World) → Progress total w → Ensures Result (again total w)

  cut_short :
      (total to_recv : ℕ) (w v : os.World) (code : ℤ) (buffer : Bytes)
      → Progress total w
      → total + to_recv ≤ file_size
      → code ≢ pos 1
      → Filled to_recv
          (received fd w)
          (received fd v)
          (wire.closed fd w)
          (wire.closed fd v)
          buffer
          code
      → saving.written out v ≡ saving.written out w
      → Result (false, v)
  cut_short total to_recv w v code buffer p b short f e = record {
    content = p.content;
    rest = buffer;
    taken = f.added ∙ ap (λ s. s ++ buffer) p.taken ∙ append_assoc start p.content buffer;
    added = e ∙ p.added;
    within = omega (arith, f.within, p.measured);
    if_true = λ h. cc;
    if_false = λ _. omega (arith, f.short short, p.measured);
    silent = λ x. (p.silent x).0;
  }

  save_chunk-Ensures :
      (again : ℕ → M os.World Bool) (total to_recv : ℕ) (w v : os.World) (code : ℤ) (buffer : Bytes)
      → Again again
      → Progress total w
      → total + to_recv ≤ file_size
      → Filled to_recv
          (received fd w)
          (received fd v)
          (wire.closed fd w)
          (wire.closed fd v)
          buffer
          code
      → saving.written out v ≡ saving.written out w
      → Ensures Result (save_chunk os rounds again out to_recv total (code, buffer) v)
  unfolding save_chunk
  save_chunk-Ensures again total to_recv w v (pos zero) buffer k p b f e =
      cut_short total to_recv w v (pos zero) buffer p b (λ x. cc) f e
  save_chunk-Ensures again total to_recv w v (negsuc n) buffer k p b f e =
      cut_short total to_recv w v (negsuc n) buffer p b (λ x. cc) f e
  save_chunk-Ensures again total to_recv w v (pos (suc n)) buffer k p b f e =
      k (total + to_recv) (os.write out buffer v) (record {
        content = p.content ++ buffer;
        measured =
            omega (arith, length-append p.content buffer, p.measured, f.full (only_one n f.codes));
        within = b;
        taken =
            wire.write_receives fd out buffer v
            ∙ f.added
            ∙ ap (λ s. s ++ buffer) p.taken
            ∙ append_assoc start p.content buffer;
        added =
            saving.write_law out buffer v
            ∙ ap (λ s. s ++ buffer) (e ∙ p.added)
            ∙ append_assoc file p.content buffer;
        silent = λ x.
            let (none_yet, still) = p.silent x in
            let (none_now, kept) = f.silent still in
            (ap₂ ◌++◌ none_yet none_now, wire.write_closed fd out buffer v ∙ kept);
      })

  receive_loop-Ensures :
      (fuel : ℕ) → Again (receive_loop os rounds fuel (record { fd = pos fd }) out file_size)
  unfolding receive_loop
  receive_loop-Ensures zero total w p = tt
  receive_loop-Ensures (suc fuel) total w p = elim (Bool-cases (ltb total file_size)) [
    | inl more ↦
        let to_recv = min client_chunk_size (file_size - total) in
        let sock : Socket = record { fd = pos fd } in
        rw (more, receive_loop)
          (Ensures->>= _ Result _ (recv_all os rounds sock to_recv) w
            (Ensures-and _ _ _ (recv_all-Ensures os wire rounds fd to_recv w) (
              recv_all-view os (saving.written out) fd to_recv (saving.recv_writes out fd) rounds
                w))
            (λ r v h.
              save_chunk-Ensures (receive_loop os rounds fuel sock out file_size) total to_recv w v
                r.0 r.1 (receive_loop-Ensures fuel) p (ground arith) h.0 h.1))
    | inr over ↦
        rw (over, receive_loop)
          (record {
            content = p.content;
            rest = [];
            taken = p.taken ∙ ap (◌++◌ start) (sym (append-nil p.content));
            added = p.added;
            within = omega (arith, p.measured, p.within);
            if_true = λ _. (ground (arith, p.measured, p.within), refl);
            if_false = λ h. cc;
            silent = λ x. (p.silent x).0;
          })
  ]

pub receive_loop-Saves :
    (os : Os) (wire : Wire os) (saving : Saving os) (rounds fuel fd out file_size : ℕ)
    (w : os.World)
    → Ensures
        (λ (r : Bool × os.World).
          Saved file_size
            (wire.closed fd w)
            (wire.received fd w)
            (wire.received fd r.1)
            (saving.written out w)
            (saving.written out r.1)
            r.0)
        (receive_loop os rounds fuel (record { fd = pos fd }) out file_size 0 w)
receive_loop-Saves os wire saving rounds fuel fd out file_size w =
    receive_loop-Ensures os wire saving rounds fd out file_size (wire.received fd w)
      (saving.written out w) (wire.closed fd w) fuel 0 w
      (record {
        content = [];
        measured = refl;
        within = omega arith;
        taken = sym (append-nil _);
        added = sym (append-nil _);
        silent = λ x. (refl, x);
      })

-- Where the system keeps the contracts `Wire` and `Saving`, on a socket with a descriptor a result of
-- the client's loop is true only if exactly `file_size` bytes have been taken from the connection
-- and handed to the file's stream, in order. If it is false less has been taken, and what has been added is
-- that, less the last piece. If the peer had closed the connection, nothing has been added.
pub receive_loop-Saved :
    (os : Os) (wire : Wire os) (saving : Saving os) (rounds fuel fd out file_size : ℕ)
    (w v : os.World) (whole : Bool)
    → receive_loop os rounds fuel (record { fd = pos fd }) out file_size 0 w ≡ some (whole, v)
    → Saved file_size
        (wire.closed fd w)
        (wire.received fd w)
        (wire.received fd v)
        (saving.written out w)
        (saving.written out v)
        whole
receive_loop-Saved os wire saving rounds fuel fd out file_size w v whole =
    Ensures-some
      (λ (r : Bool × os.World).
        Saved file_size (wire.closed fd w) (wire.received fd w) (wire.received fd r.1)
          (saving.written out w) (saving.written out r.1) r.0)
      _ (whole, v) (receive_loop-Saves os wire saving rounds fuel fd out file_size w)
