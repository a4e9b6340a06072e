-- ===== src/Tests/Ledger.antt =====
-- The system of the tests, with a record of the paths that it is asked about and of the calls on each
-- descriptor. Its working directory is the root of all paths.
use multi_client_media_strea.Base.{ℕ, true, suc, List, [], ◌∷◌, ◌++◌, ◌==◌, if◌then◌else◌}
use multi_client_media_strea.FilePath.{FilePath}
use multi_client_media_strea.Os.{Os}
use multi_client_media_strea.Tests.Machine.{Machine, machine, resolve}

pub record Ledger : Type 0 where
  pub base : Machine
  pub asked : List FilePath
  pub calls : List ℕ

abbrev pub plainly : {A : Type 0} → Ledger → A × Machine → A × Ledger
plainly w r = (r.0, record w { base = r.1 })

abbrev pub asking : {A : Type 0} → FilePath → Ledger → A × Machine → A × Ledger
asking p w r = (r.0, record w { base = r.1; asked = w.asked ++ p ∷ [] })

abbrev pub using : {A : Type 0} → ℕ → Ledger → A × Machine → A × Ledger
using fd w r = (r.0, record w { base = r.1; calls = fd ∷ w.calls })

-- How often a descriptor was used.
abbrev pub uses : ℕ → List ℕ → ℕ
uses fd [] = 0
uses fd (n ∷ ns) = if n == fd then suc (uses fd ns) else uses fd ns

abbrev pub ledger : Os
ledger = record {
  World = Ledger;
  socket = λ w. plainly w (machine.socket w.base);
  setsockopt = λ fd o w. plainly w (machine.setsockopt fd o w.base);
  inet_pton = machine.inet_pton;
  inet_ntop = machine.inet_ntop;
  sigaction = λ s a w. record w { base = machine.sigaction s a w.base };
  bind = λ fd n m w. plainly w (machine.bind fd n m w.base);
  listen = λ fd z w. plainly w (machine.listen fd z w.base);
  accept = λ fd w. plainly w (machine.accept fd w.base);
  getpeername = λ fd w. plainly w (machine.getpeername fd w.base);
  connect = λ fd n m w. plainly w (machine.connect fd n m w.base);
  send = λ fd b w. using fd w (machine.send fd b w.base);
  recv = λ fd n w. using fd w (machine.recv fd n w.base);
  shutdown = λ fd w. (using fd w (tt, machine.shutdown fd w.base)).1;
  close = λ fd w. (using fd w (tt, machine.close fd w.base)).1;
  stop_requested = λ w. plainly w (machine.stop_requested w.base);
  exists = λ p w. asking p w (machine.exists p w.base);
  create_directories = λ p w. plainly w (machine.create_directories p w.base);
  canonical = λ p w. plainly w (resolve (record p { absolute = true }), w.base);
  weakly_canonical = λ p w. plainly w (machine.weakly_canonical p w.base);
  is_directory = λ p w. asking p w (machine.is_directory p w.base);
  is_regular_file = λ p w. asking p w (machine.is_regular_file p w.base);
  file_size = λ p w. asking p w (machine.file_size p w.base);
  directory_entries = λ p w. asking p w (machine.directory_entries p w.base);
  probe_entry = λ b w. plainly w (machine.probe_entry b w.base);
  entry_size = λ b w. plainly w (machine.entry_size b w.base);
  open_read = λ p w. asking p w (machine.open_read p w.base);
  allocates = λ n w. machine.allocates n w.base;
  read = λ fd n w. plainly w (machine.read fd n w.base);
  open_write = λ p w. plainly w (machine.open_write p w.base);
  write = λ fd b w. record w { base = machine.write fd b w.base };
}
