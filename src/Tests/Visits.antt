-- ===== src/Tests/Visits.antt =====
-- A whole session at concrete inputs: what it says, what it asks the file system and which descriptors
-- it uses.
use multi_client_media_strea.Base.{
  ℕ, zero, suc, List, ◌∷◌, ◌++◌, true, false, [], ◌≡◌, ◌≢◌, refl, arith, some, codes, ◌==◌,
  if◌then◌else◌,
}
use multi_client_media_strea.ClientSession
use multi_client_media_strea.ClientSession.{ClientSession}
use multi_client_media_strea.ClientSession.Bounds.{AskedInside, run-AskedInside}
use multi_client_media_strea.ClientSession.Conversation.{Conversation, run-Conversation}
use multi_client_media_strea.ClientSession.Isolation.{run-use_of}
use multi_client_media_strea.FilePath.{FilePath}
use multi_client_media_strea.FileManager.Safety.{AnswersNormal}
use multi_client_media_strea.Os.Contract.{Asking, Separate}
use multi_client_media_strea.Socket.{invalid}
use multi_client_media_strea.Tests.Examples.{before, session, manager, root, root-IsCanonical}
use multi_client_media_strea.Tests.Ledger.{Ledger, ledger, uses}
use multi_client_media_strea.Tests.Machine.{Machine, machine}
use multi_client_media_strea.Tests.Opened.{run_code}
use multi_client_media_strea.Tests.Promises.{machine_wire, machine_reading, machine-AnswersNormal}

abbrev pub hello : Machine
hello = record before { incoming = codes "GET a.txt\nQUIT\n" }

abbrev pub goodbye : Machine
goodbye = record hello {
  sent = codes "OK 5\nhelloOK BYE\n";
  taken = codes "GET a.txt\nQUIT\n";
  incoming = [];
  file = [];
  interrupts = 0;
}

-- The client gets a file and says goodbye.
visit :
    ClientSession.run machine 20 4 manager session hello
    ≡ some (record session { is_active = false; socket = invalid }, goodbye)
unfolding run_code
visit = refl

run-Conversation_example :
    Conversation machine machine_wire machine_reading 7
      (record session { is_active = true })
      manager
      hello
      goodbye
run-Conversation_example =
    run-Conversation machine machine_wire machine_reading 20 4 7 manager session
      (record session { is_active = false; socket = invalid }) hello goodbye refl (omega arith)
      visit

abbrev pub blank : Ledger
blank = record { base = hello; asked = []; calls = [] }

abbrev pub ledger_asking : Asking ledger
ledger_asking = record {
  asked = λ w. w.asked;
  by_exists = λ p w. refl;
  by_is_directory = λ p w. refl;
  by_is_regular_file = λ p w. refl;
  by_file_size = λ p w. refl;
  by_directory_entries = λ p w. refl;
  by_open_read = λ p w. refl;
  by_weakly_canonical = λ p w. refl;
  by_probe_entry = λ name w. refl;
  by_entry_size = λ name w. refl;
  by_read = λ h n w. refl;
  by_send = λ fd b w. refl;
  by_recv = λ fd n w. refl;
  untouched = record {
    by_stop_requested = λ w. refl;
    by_shutdown = λ fd w. refl;
    by_close = λ fd w. refl;
  };
}

pub others : (fd other_fd n : ℕ) → fd ≢ other_fd → (if fd == other_fd then suc n else n) ≡ n
others fd other_fd n h = ground arith

abbrev pub ledger_separate : Separate ledger (λ fd w. uses fd w.calls)
ledger_separate = record {
  by_send = λ fd other_fd b w h. others fd other_fd (uses other_fd w.calls) h;
  by_recv = λ fd other_fd n w h. others fd other_fd (uses other_fd w.calls) h;
  by_shutdown = λ fd other_fd w h. others fd other_fd (uses other_fd w.calls) h;
  by_close = λ fd other_fd w h. others fd other_fd (uses other_fd w.calls) h;
  by_stop_requested = λ fd w. refl;
  by_read = λ fd h n w. refl;
  by_files = λ fd. record {
    by_exists = λ p w. refl;
    by_create_directories = λ p w. refl;
    by_canonical = λ p w. refl;
    by_open_write = λ p w. refl;
    by_weakly_canonical = λ p w. refl;
    by_is_directory = λ p w. refl;
    by_is_regular_file = λ p w. refl;
    by_file_size = λ p w. refl;
    by_directory_entries = λ p w. refl;
    by_probe_entry = λ name w. refl;
    by_entry_size = λ name w. refl;
    by_open_read = λ p w. refl;
  };
}

pub ledger_answers : AnswersNormal ledger
ledger_answers q p w w' a e = machine-AnswersNormal q p w.base w.base a (λ i. ((e i).0, w.base))

abbrev pub song : FilePath
song = record root { elements = root.elements ++ codes "a.txt" ∷ [] }

abbrev pub sevens : ℕ → List ℕ
sevens zero = []
sevens (suc n) = 7 ∷ sevens n

abbrev pub last : Ledger
last = record { base = goodbye; asked = song ∷ song ∷ song ∷ []; calls = sevens 25 }

-- The same visit, with the ledger.
noted :
    ClientSession.run ledger 20 4 manager session blank
    ≡ some (record session { is_active = false; socket = invalid }, last)
unfolding run_code
noted = refl

run-AskedInside_example : AskedInside root [] last.asked
run-AskedInside_example =
    run-AskedInside ledger ledger_asking ledger_answers 20 4 7 manager session
      (record session { is_active = false; socket = invalid }) blank last root-IsCanonical refl
      noted

run-use_of_example : uses 8 last.calls ≡ 0
run-use_of_example =
    run-use_of ledger (λ fd w. uses fd w.calls) ledger_separate 20 4 7 8 manager session
      (record session { is_active = false; socket = invalid }) blank last refl (omega arith) noted
