-- ===== src/Tests/Sessions.antt =====
-- The end of a session at concrete inputs.
use multi_client_media_strea.Base.{
  ℕ, zero, suc, ◌+◌, ◌≤◌, ◌<◌, true, [], ◌∷◌, ◌≡◌, refl, arith, some, Bytes, length,
}
use multi_client_media_strea.ClientSession
use multi_client_media_strea.ClientSession.Complete.{run-Complete}
use multi_client_media_strea.ClientSession.Conversation.{Conversation}
use multi_client_media_strea.ClientSession.Finish.{Over}
use multi_client_media_strea.FileManager.{get_file_size, list_files}
use multi_client_media_strea.Os.{Os, done}
use multi_client_media_strea.Os.Contract.{
  Wire, Untouched, UntouchedByFiles, Reading, Patience, Dwindling, Spends,
}
use multi_client_media_strea.Os.Monad.{Ends}
use multi_client_media_strea.Protocol.{build_list_response}
use multi_client_media_strea.Tests.Examples.{before, session, manager}
use multi_client_media_strea.Tests.Machine.{Machine, machine, recv_now, send_now}
use multi_client_media_strea.Tests.Promises.{machine_wire, machine_reading, recv_now-cases}
use multi_client_media_strea.Tests.Opened.{listing_code, path_code}

-- A system on which every file has five bytes.
abbrev steady : Os
steady = record machine { file_size = λ p w. (some 5, w) }

-- The interruptions and the bytes to come.
abbrev to_come : Machine → ℕ
to_come w = w.interrupts + length w.incoming

send_now-to_come :
    (chunk : Bytes) (k : ℕ) (w : Machine)
    → w.interrupts ≡ k
    → Spends (send_now chunk k w).0 (to_come w) (to_come (send_now chunk k w).1)
send_now-to_come chunk zero w e = omega arith
send_now-to_come chunk (suc k) w e = omega arith

recv_now-to_come :
    (room : ℕ) (w : Machine)
    → Spends (recv_now room w.interrupts w).0 (to_come w) (to_come (recv_now room w.interrupts w).1)
recv_now-to_come room w =
    recv_now-cases (λ r. Spends r.0 (to_come w) (to_come r.1)) room w (λ e. omega arith)
      (omega arith) (λ c s rest e h l. omega (arith, l)) (λ k e. omega (arith, e)) w.interrupts refl

recv_now-dwindles :
    (room c : ℕ) (s : Bytes) (w : Machine)
    → (recv_now room w.interrupts w).0 ≡ done (c ∷ s)
    → to_come (recv_now room w.interrupts w).1 < to_come w
recv_now-dwindles room c s w =
    recv_now-cases (λ r. r.0 ≡ done (c ∷ s) → to_come r.1 < to_come w) room w (λ e q. absurd (cc q))
      (λ q. absurd (cc q)) (λ c' s' rest e h l q. omega (arith, l)) (λ k e q. absurd (cc q))
      w.interrupts refl

abbrev steady_untouched : {A : Type 0} (view : Machine → A) → Untouched steady view
steady_untouched view = record {
  by_stop_requested = λ w. refl;
  by_shutdown = λ fd w. refl;
  by_close = λ fd w. refl;
}

abbrev steady_by_files :
    {A : Type 0} (view : Machine → A)
    → ((w : Machine) → view (record w { saved = [] }) ≡ view w)
    → UntouchedByFiles steady view
steady_by_files view created = record {
  by_exists = λ p w. refl;
  by_create_directories = λ p w. refl;
  by_canonical = λ p w. refl;
  by_open_write = λ p w. created w;
  by_weakly_canonical = λ p w. refl;
  by_is_directory = λ p w. refl;
  by_is_regular_file = λ p w. refl;
  by_file_size = λ p w. refl;
  by_directory_entries = λ p w. refl;
  by_probe_entry = λ name w. refl;
  by_entry_size = λ name w. refl;
  by_open_read = λ p w. refl;
}

abbrev steady_reading : Reading steady
steady_reading = record {
  unread = machine_reading.unread;
  unread_untouched = λ h. steady_untouched (λ w. w.file);
  send_reads = machine_reading.send_reads;
  read_law = machine_reading.read_law;
}

abbrev steady_patience : Patience steady
steady_patience = record {
  pending = to_come;
  untouched = steady_untouched to_come;
  by_files = steady_by_files to_come (λ w. refl);
  by_read = λ h n w. refl;
  by_write = λ h b w. refl;
  send_spends = λ fd chunk w. send_now-to_come chunk w.interrupts w refl;
  recv_spends = λ fd room w. recv_now-to_come room w;
}

steady-Dwindling : Dwindling steady steady_patience
steady-Dwindling = record { recv_dwindles = λ fd room c s w. recv_now-dwindles room c s w }

steady_sizes :
    (filename : Bytes) (w : Machine) (n : ℕ)
    → (get_file_size steady manager filename w).0 ≡ some n
    → n ≤ 22
unfolding path_code
steady_sizes filename w n e = ground (arith, e)

steady_listings : (w : Machine) → length (build_list_response (list_files steady manager w).0) ≤ 22
unfolding listing_code
steady_listings w = omega arith

abbrev steady_wire : Wire steady
steady_wire = record {
  delivered = λ fd w. w.sent;
  received = λ fd w. w.taken;
  closed = λ fd w. w.ended;
  delivered_untouched = λ fd. steady_untouched (λ w. w.sent);
  received_untouched = λ fd. steady_untouched (λ w. w.taken);
  delivered_by_files = λ fd. steady_by_files (λ w. w.sent) (λ w. refl);
  received_by_files = λ fd. steady_by_files (λ w. w.taken) (λ w. refl);
  closed_by_files = λ fd. steady_by_files (λ w. w.ended) (λ w. refl);
  send_receives = machine_wire.send_receives;
  recv_delivers = machine_wire.recv_delivers;
  write_delivers = λ fd h b w. refl;
  write_receives = λ fd h b w. refl;
  write_closed = λ fd h b w. refl;
  recv_closed = machine_wire.recv_closed;
  read_delivers = λ fd h n w. refl;
  read_receives = λ fd h n w. refl;
  send_law = machine_wire.send_law;
  recv_law = machine_wire.recv_law;
}

run-Complete_example :
    Ends
      (λ r.
        Over r
        × Conversation steady steady_wire steady_reading 7
            (record session { is_active = true })
            manager
            before
            r.1)
      (ClientSession.run steady 5000 100 manager session before)
run-Complete_example =
    run-Complete steady steady_wire steady_reading steady_patience steady-Dwindling 5000 100 22 7
      manager session before refl (omega arith) (λ v. refl) steady_sizes steady_listings
      (omega arith) (omega arith)
