-- ===== src/Tests/Promises.antt =====
-- The system of the tests keeps the contracts of Os/Contract.
use multi_client_media_strea.Base.{
  ℕ, zero, suc, Bool, true, false, List, [], ◌∷◌, ◌++◌, ◌≡◌, ◌≢◌, refl, sym, ap, arith, Option,
  some, Bytes, bytes_eq, bytes_eq_iff, length, take, drop, min, length-take, length-drop,
  append-nil, ◌+◌, ◌≤◌, All, if◌then◌else◌, ◌==◌, inl, inr, Bool-cases,
}
use multi_client_media_strea.FilePath.{FilePath, dot, dot_dot}
use multi_client_media_strea.FilePath.Relative.{IsName, IsCanonical, AllNormal}
use multi_client_media_strea.FileManager.Safety.{AnswersNormal}
use multi_client_media_strea.Os.{
  Reply, done, failed, eintr, Signal, sigint, sigterm, sigpipe, other_signal, SignalAction,
}
use multi_client_media_strea.Os.Contract.{
  Wire, Reading, Patience, Saving, Signals, Sends, Receives, Closes, Spends, Untouched,
  UntouchedByFiles,
}
use multi_client_media_strea.Tests.Machine.{
  Machine, same_signal, send_now, recv_some, recv_open, recv_now, clean_name, clean, resolve, tidy,
  normalize, machine,
}

pub untouched : {A : Type 0} (view : Machine → A) → Untouched machine view
untouched view = record {
  by_stop_requested = λ w. refl;
  by_shutdown = λ fd w. refl;
  by_close = λ fd w. refl;
}

pub untouched_by_files :
    {A : Type 0} (view : Machine → A)
    → ((w : Machine) → view (record w { saved = [] }) ≡ view w)
    → UntouchedByFiles machine view
untouched_by_files view created = record {
  by_exists = λ p w. refl;
  by_create_directories = λ p w. refl;
  by_canonical = λ p w. refl;
  by_open_write = λ p w. created w;
  by_weakly_canonical = λ p w. refl;
  by_is_directory = λ p w. refl;
  by_is_regular_file = λ p w. refl;
  by_file_size = λ p w. refl;
  by_directory_entries = λ p w. refl;
  by_probe_entry = λ p w. refl;
  by_entry_size = λ p w. refl;
  by_open_read = λ p w. refl;
}

pub send_now-Sends :
    (chunk : Bytes) (k : ℕ) (w : Machine)
    → Sends chunk w.sent (send_now chunk k w).0 (send_now chunk k w).1.sent
send_now-Sends chunk zero w = (omega arith, refl)
send_now-Sends chunk (suc k) w = refl

-- What holds of a call of `recv`, if it holds of each way to answer it.
module _ (P : Reply Bytes × Machine → Type 0) (room : ℕ) (w : Machine)
    (gone : w.ended ≡ true → P (done [], w)) (nothing : P (done [], record w { ended = true }))
    (some_bytes : (c : ℕ) (s rest : Bytes)
      → w.ended ≡ false
      → length (c ∷ s) ≤ room
      → length (c ∷ s) + length rest ≡ length w.incoming
      → P (done (c ∷ s), record w { taken = w.taken ++ (c ∷ s); incoming = rest }))
    (interrupted : (k : ℕ)
      → w.interrupts ≡ suc k
      → P (failed eintr, record w { interrupts = k })) where
  recv_some-cases :
      (s rest : Bytes)
      → w.ended ≡ false
      → length s ≤ room
      → length s + length rest ≡ length w.incoming
      → P (recv_some s rest w)
  recv_some-cases [] rest e h l = nothing
  recv_some-cases (c ∷ s) rest e h l = some_bytes c s rest e h l

  recv_open-cases : (b : Bool) (n : ℕ) → w.ended ≡ b → n ≤ room → P (recv_open b n w)
  recv_open-cases true n e h = gone e
  recv_open-cases false n e h =
      recv_some-cases (take n w.incoming) (drop n w.incoming) e
        (omega (arith, length-take n w.incoming))
        (omega (arith, length-take n w.incoming, length-drop n w.incoming))

  pub recv_now-cases : (k : ℕ) → w.interrupts ≡ k → P (recv_now room k w)
  recv_now-cases zero e = recv_open-cases w.ended (min (suc w.burst) room) refl (omega arith)
  recv_now-cases (suc k) e = interrupted k e

pub recv_now-Receives :
    (room : ℕ) (w : Machine)
    → Receives room w.taken (recv_now room w.interrupts w).0 (recv_now room w.interrupts w).1.taken
recv_now-Receives room w =
    recv_now-cases (λ r. Receives room w.taken r.0 r.1.taken) room w
      (λ e. (omega arith, sym (append-nil w.taken))) (omega arith, sym (append-nil w.taken))
      (λ c s rest e h l. (h, refl)) (λ k e. refl) w.interrupts refl

pub recv_now-Closes :
    (room : ℕ) (w : Machine)
    → Closes w.ended (recv_now room w.interrupts w).0 (recv_now room w.interrupts w).1.ended
recv_now-Closes room w =
    recv_now-cases (λ r. Closes w.ended r.0 r.1.ended) room w (λ e. e) refl (λ c s rest e h l. e)
      (λ k e. refl) w.interrupts refl

pub recv_now-same :
    {A : Type 0} (view : Machine → A) (room : ℕ) (w : Machine)
    → ((b : Bool) → view (record w { ended = b }) ≡ view w)
    → ((t rest : Bytes) → view (record w { taken = t; incoming = rest }) ≡ view w)
    → ((k : ℕ) → view (record w { interrupts = k }) ≡ view w)
    → view (recv_now room w.interrupts w).1 ≡ view w
recv_now-same view room w a b c =
    recv_now-cases (λ r. view r.1 ≡ view w) room w (λ e. refl) (a true) (λ x s rest e h l. b _ rest)
      (λ k e. c k) w.interrupts refl

pub send_now-taken : (chunk : Bytes) (k : ℕ) (w : Machine) → (send_now chunk k w).1.taken ≡ w.taken
send_now-taken chunk zero w = refl
send_now-taken chunk (suc k) w = refl

abbrev pub machine_wire : Wire machine
machine_wire = record {
  delivered = λ fd w. w.sent;
  received = λ fd w. w.taken;
  delivered_untouched = λ fd. untouched (λ w. w.sent);
  received_untouched = λ fd. untouched (λ w. w.taken);
  delivered_by_files = λ fd. untouched_by_files (λ w. w.sent) (λ w. refl);
  received_by_files = λ fd. untouched_by_files (λ w. w.taken) (λ w. refl);
  closed = λ fd w. w.ended;
  closed_by_files = λ fd. untouched_by_files (λ w. w.ended) (λ w. refl);
  send_receives = λ fd fd' b w. send_now-taken b w.interrupts w;
  recv_delivers =
      λ fd fd' n w. recv_now-same (λ v. v.sent) n w (λ b. refl) (λ t r. refl) (λ k. refl);
  write_delivers = λ fd h b w. refl;
  write_receives = λ fd h b w. refl;
  write_closed = λ fd h b w. refl;
  recv_closed = λ fd room w h. recv_now-Closes room w;
  read_delivers = λ fd h n w. refl;
  read_receives = λ fd h n w. refl;
  send_law = λ fd chunk w. send_now-Sends chunk w.interrupts w;
  recv_law = λ fd room w. recv_now-Receives room w;
}

pub send_now-file : (chunk : Bytes) (k : ℕ) (w : Machine) → (send_now chunk k w).1.file ≡ w.file
send_now-file chunk zero w = refl
send_now-file chunk (suc k) w = refl

abbrev pub machine_reading : Reading machine
machine_reading = record {
  unread = λ h w. w.file;
  unread_untouched = λ h. untouched (λ w. w.file);
  send_reads = λ h fd chunk w. send_now-file chunk w.interrupts w;
  read_law = λ h n w. (refl, refl);
}

pub send_now-Spends :
    (chunk : Bytes) (k : ℕ) (w : Machine)
    → w.interrupts ≡ k
    → Spends (send_now chunk k w).0 w.interrupts (send_now chunk k w).1.interrupts
send_now-Spends chunk zero w e = omega arith
send_now-Spends chunk (suc k) w e = omega arith

pub recv_now-Spends :
    (room : ℕ) (w : Machine)
    → Spends
        (recv_now room w.interrupts w).0
        w.interrupts
        (recv_now room w.interrupts w).1.interrupts
recv_now-Spends room w =
    recv_now-cases (λ r. Spends r.0 w.interrupts r.1.interrupts) room w (λ e. omega arith)
      (omega arith) (λ c s rest e h l. omega arith) (λ k e. omega arith) w.interrupts refl

abbrev pub machine_patience : Patience machine
machine_patience = record {
  pending = λ w. w.interrupts;
  untouched = untouched (λ w. w.interrupts);
  by_files = untouched_by_files (λ w. w.interrupts) (λ w. refl);
  by_read = λ h n w. refl;
  by_write = λ h b w. refl;
  send_spends = λ fd chunk w. send_now-Spends chunk w.interrupts w refl;
  recv_spends = λ fd room w. recv_now-Spends room w;
}

pub send_now-saved : (chunk : Bytes) (k : ℕ) (w : Machine) → (send_now chunk k w).1.saved ≡ w.saved
send_now-saved chunk zero w = refl
send_now-saved chunk (suc k) w = refl

abbrev pub machine_saving : Saving machine
machine_saving = record {
  written = λ h w. w.saved;
  stored = λ h w. w.saved;
  broken = λ h w. false;
  stored_law = λ h w e. refl;
  open_law = λ p h w w' e. ap (λ (r : Option ℕ × Machine). r.1.saved) (sym e);
  write_law = λ h b w. refl;
  recv_writes = λ h fd n w. recv_now-same (λ v. v.saved) n w (λ b. refl) (λ t r. refl) (λ k. refl);
  send_writes = λ h fd b w. send_now-saved b w.interrupts w;
  canonical_writes = λ h p w. refl;
}

same_signal_refl : (s : Signal) → same_signal s s ≡ true
same_signal_refl sigint = refl
same_signal_refl sigterm = refl
same_signal_refl sigpipe = refl
same_signal_refl (other_signal n) = ground arith

same_signal_differs : (s t : Signal) → s ≢ t → same_signal s t ≡ false
same_signal_differs sigint sigint h = absurd (h refl)
same_signal_differs sigint sigterm h = refl
same_signal_differs sigint sigpipe h = refl
same_signal_differs sigint (other_signal n) h = refl
same_signal_differs sigterm sigint h = refl
same_signal_differs sigterm sigterm h = absurd (h refl)
same_signal_differs sigterm sigpipe h = refl
same_signal_differs sigterm (other_signal n) h = refl
same_signal_differs sigpipe sigint h = refl
same_signal_differs sigpipe sigterm h = refl
same_signal_differs sigpipe sigpipe h = absurd (h refl)
same_signal_differs sigpipe (other_signal n) h = refl
same_signal_differs (other_signal m) sigint h = refl
same_signal_differs (other_signal m) sigterm h = refl
same_signal_differs (other_signal m) sigpipe h = refl
same_signal_differs (other_signal m) (other_signal n) h = elim (Bool-cases (m == n)) [
  | inl e ↦ absurd (h (ap other_signal (ground arith)))
  | inr e ↦ e
]

pub set_own :
    (s : Signal) (a : SignalAction) (f : Signal → SignalAction)
    → (if same_signal s s then a else f s) ≡ a
set_own s a f = ground (arith, same_signal_refl s)

pub set_other :
    (s t : Signal) (a : SignalAction) (f : Signal → SignalAction)
    → s ≢ t
    → (if same_signal s t then a else f t) ≡ f t
set_other s t a f h = ground (arith, same_signal_differs s t h)

abbrev pub machine_signals : Signals machine
machine_signals = record {
  action = λ s w. w.actions s;
  sigaction_law = λ s a w. set_own s a w.actions;
  sigaction_others = λ s t a w h. set_other s t a w.actions h;
  by_socket = λ t w. refl;
  by_setsockopt = λ t fd o w. refl;
  by_bind = λ t fd ip port w. refl;
  by_listen = λ t fd backlog w. refl;
  by_close = λ t fd w. refl;
}

not_named : (e f : Bytes) → bytes_eq e f ≡ false → e ≢ f
not_named e f h = ground (arith, bytes_eq_iff e f)

clean_name-IsName : (e : Bytes) → clean_name e ≡ true → IsName e
clean_name-IsName [] h = absurd (ground arith)
clean_name-IsName (c ∷ e) h = record {
  ne_nil = λ q. cc;
  ne_dot = not_named (c ∷ e) dot (ground arith);
  ne_dot_dot = not_named (c ∷ e) dot_dot (ground arith);
}

clean-All : (es : List Bytes) → clean es ≡ true → All IsName es
clean-All [] h = tt
clean-All (e ∷ es) h = (clean_name-IsName e (ground arith), clean-All es (ground arith))

tidy-AllNormal : (es : List Bytes) → tidy es ≡ true → AllNormal es
tidy-AllNormal [] h = tt
tidy-AllNormal ([] ∷ []) h = (λ q. cc, λ q. cc)
tidy-AllNormal ((c ∷ e) ∷ []) h =
    (not_named (c ∷ e) dot (ground arith), not_named (c ∷ e) dot_dot (ground arith))
tidy-AllNormal (e ∷ (f ∷ es)) h =
    (clean_name-IsName e (ground arith), tidy-AllNormal (f ∷ es) (ground arith))

pub machine-AnswersNormal : AnswersNormal machine
machine-AnswersNormal q p w w' a e =
    let found : normalize q ≡ some p = ap (λ (r : Option FilePath × Machine). r.0) e in
    let same : q ≡ p = ground arith in
    rw (← same)
      (record { is_absolute = ground arith; all_normal = tidy-AllNormal q.elements (ground arith) })

pub resolve-IsCanonical : (q p : FilePath) → resolve q ≡ some p → IsCanonical p
resolve-IsCanonical q p found =
    let same : q ≡ p = ground arith in
    rw (← same)
      (record { is_absolute = ground arith; all_names = clean-All q.elements (ground arith) })
