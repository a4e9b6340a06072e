-- ===== src/Socket/Send.antt =====
-- `send_all` hands over the whole buffer, or says how much of it.
use multi_client_media_strea.Base.{
  ℕ, zero, suc, ◌+◌, ◌≤◌, ◌<◌, Bool, true, false, ◌++◌, append_assoc, append-nil, ◌≡◌, refl, sym,
  ap, ◌∙◌, inl, inr, arith, Option, some, Bytes, Bool-cases, ℤ, pos, to_int, length, take, drop,
  ltb, length-drop, take-add,
}
use multi_client_media_strea.Os.{Os, Reply, done, failed, eintr}
use multi_client_media_strea.Os.Contract.{Wire, Sends}
use multi_client_media_strea.Os.Monad.{M, Ensures, Ensures-some, Ensures->>=}
use multi_client_media_strea.Socket.{send_next, send_loop, send_all, send_string}

-- `sent` bytes of the buffer, in front, have been handed over, and the flag says whether that is all.
pub record Outcome (data' before after : Bytes) (all : Bool) (sent : ℕ) : Type 0 where
  pub within : sent ≤ length data'
  pub added : after ≡ before ++ take sent data'
  pub if_true : all ≡ true → sent ≡ length data'
  pub if_false : all ≡ false → sent < length data'

module _ (os : Os) (wire : Wire os) (fd : ℕ) (data' start : Bytes) where
  open wire use {delivered}

  abbrev pub Result : (Bool × ℤ) × os.World → Type 0
  Result r = (sent : ℕ) × (r.0.1 ≡ to_int sent) × Outcome data' start (delivered fd r.1) r.0.0 sent

  abbrev Keeps : (ℕ → M os.World (Bool × ℤ)) → Type 0
  Keeps again =
      (total : ℕ) (w : os.World)
      → total ≤ length data'
      → delivered fd w ≡ start ++ take total data'
      → Ensures Result (again total w)

  stopped :
      (total : ℕ) (after : Bytes)
      → total < length data'
      → after ≡ start ++ take total data'
      → Outcome data' start after false total
  stopped total after h e = record {
    within = omega arith;
    added = e;
    if_true = λ x. cc;
    if_false = λ _. h;
  }

  send_next-Ensures :
      (again : ℕ → M os.World (Bool × ℤ)) (total : ℕ) (before : Bytes) (reply : Reply ℕ)
      (w : os.World)
      → Keeps again
      → total < length data'
      → before ≡ start ++ take total data'
      → Sends (drop total data') before reply (delivered fd w)
      → Ensures Result (send_next os again total reply w)
  unfolding send_next
  send_next-Ensures again total before (failed eintr) w k h e law =
      k total w (omega arith) (law ∙ e)
  send_next-Ensures again total before (done (suc n)) w k h e law =
      k (total + suc n) w (omega (arith, law.0, length-drop total data')) (
        law.1
        ∙ ap (λ s. s ++ take (suc n) (drop total data')) e
        ∙ append_assoc start (take total data') _
        ∙ ap (◌++◌ start) (take-add total (suc n) _ data' refl))
  send_next-Ensures again total before (done zero) w k h e law =
      (total, refl, stopped total _ h (law.1 ∙ append-nil before ∙ e))
  send_next-Ensures again total before (failed _) w k h e law =
      (total, refl, stopped total _ h (law ∙ e))

  send_loop-Ensures : (fuel : ℕ) → Keeps (send_loop os fuel fd data')
  unfolding send_loop
  send_loop-Ensures zero total w h e = tt
  send_loop-Ensures (suc fuel) total w h e = elim (Bool-cases (ltb total (length data'))) [
    | inl more ↦
        rw (more, send_loop)
          (send_next-Ensures (send_loop os fuel fd data') total (delivered fd w) _ _
            (send_loop-Ensures fuel) (ground arith) e (wire.send_law fd (drop total data') w))
    | inr over ↦
        rw (over, send_loop)
          (
            total,
            refl,
            record { within = h; added = e; if_true = λ _. ground arith; if_false = λ x. cc },
          )
  ]

module _ (os : Os) (wire : Wire os) (fuel fd : ℕ) (data' : Bytes) (w : os.World) where
  open wire use {delivered}

  abbrev pub Sent : (Bool × Option ℤ) × os.World → Type 0
  Sent r =
      (sent : ℕ) × (r.0.1 ≡ some (to_int sent))
      × Outcome data' (delivered fd w) (delivered fd r.1) r.0.0 sent

  pub send_all-Ensures : Ensures Sent (send_all os fuel (record { fd = pos fd }) data' w)
  unfolding send_all
  send_all-Ensures =
      Ensures->>= (Result os wire fd data' (delivered fd w)) Sent _ (send_loop os fuel fd data' 0) w
        (send_loop-Ensures os wire fd data' (delivered fd w) fuel 0 w (omega arith)
          (sym (append-nil _)))
        (λ r v h. (h.0, ap some h.1, h.2))

  -- Where the system keeps the contract `Wire`, on a socket with a descriptor: if `send_all` returns
  -- true the buffer follows what was handed over before, whole and in order; if it returns false a
  -- shorter prefix does. Either way `*out_bytes_sent` is the length of that prefix as an `int`.
  pub send_all-Outcome :
      (w' : os.World) (all : Bool) (out : Option ℤ)
      → send_all os fuel (record { fd = pos fd }) data' w ≡ some ((all, out), w')
      → (sent : ℕ) × (out ≡ some (to_int sent))
        × Outcome data' (delivered fd w) (delivered fd w') all sent
  send_all-Outcome w' all out q = Ensures-some Sent _ ((all, out), w') send_all-Ensures q

pub send_string-Sent :
    (os : Os) (wire : Wire os) (fuel fd : ℕ) (str : Bytes) (w : os.World)
    → Ensures
        (λ (r : Bool × os.World).
          (sent : ℕ) × Outcome str (wire.delivered fd w) (wire.delivered fd r.1) r.0 sent)
        (send_string os fuel (record { fd = pos fd }) str w)
unfolding send_string
send_string-Sent os wire fuel fd str w =
    Ensures->>= (Sent os wire fuel fd str w) _ _ (send_all os fuel (record { fd = pos fd }) str) w
      (send_all-Ensures os wire fuel fd str w) (λ r v h. (h.0, h.2))
