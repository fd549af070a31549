-- ===== src/Examples/Lifetimes.antt =====
-- The daemon's start and stop, the event loop and the sockets at concrete inputs.
use cec_control.Prelude.{
  ◌≢◌, ◌⊎◌, ℕ, zero, suc, ◌≡◌, refl, true, false, none, some, [], ◌∷◌, All, arith, codes, List,
  Option,
}
use cec_control.Adapter.{returned}
use cec_control.Configuration.Settings.{DaemonConfig}
use cec_control.Dispatch.{validate_dispatch_table, dispatch_table}
use cec_control.Message.{same_type}
use cec_control.Registry.{commands}
use cec_control.Startup.{Machine, fresh}
use cec_control.Startup.Start.{start}
use cec_control.Startup.Stop.{destroy}
use cec_control.Startup.Referents.{IsSound, destroy-IsSound}
use cec_control.Startup.Joined.{IsCalm, destroy-IsCalm}
use cec_control.EventLoop.{Behave, Request, removes, stops, adds, new_loop, ask_all, run}
use cec_control.EventLoop.Dispatched.{Fair, run-Fair}
use cec_control.Client.{econnrefused, another, Errno}
use cec_control.UnixSocket.{Kernel, Process, done, error, in_progress, timed_out, listen, connect}
use cec_control.UnixSocket.Owned.{
  Owns, Tells, first_error, calls_of, sockets-Owns, listen-unlinked, connect-first_error,
}

abbrev config : DaemonConfig
config = record { enable_power_monitor = true; scan_devices_at_startup = false }

-- Everything succeeds, but the monitor cannot join the loop.
abbrev pub machine : Machine
machine = record {
  signals_valid = true;
  work_valid = true;
  timer_valid = λ t. true;
  throws = λ s. false;
  initialize = returned true;
  open_connection = returned true;
  executor_starts = returned true;
  worker_starts = returned true;
  server_starts = returned true;
  monitor_initializes = returned true;
  attaches = returned false;
  adds = λ s. true;
  watchdog_usec = some 20000000;
  arms = λ ms. true;
  stop_throws = λ c. false;
}

destroy-IsSound_example : All IsSound (destroy machine (start machine config fresh).1).past
destroy-IsSound_example = destroy-IsSound machine config

machine_starts : (start machine config fresh).0 ≡ true
unfolding start validate_dispatch_table dispatch_table commands same_type
machine_starts = refl

destroy-IsCalm_example : All IsCalm (destroy machine (start machine config fresh).1).past
destroy-IsCalm_example = destroy-IsCalm machine config (λ c. refl) machine_starts

-- The first handler removes the second and itself, the second stops the loop.
abbrev behave : Behave ℕ ℕ
behave h events s = elim h [ zero ↦ (removes 4 ∷ removes 3 ∷ [], s) | suc k ↦ (stops ∷ [], s) ]

abbrev requests : List (Request ℕ)
requests = adds (some 3) 1 (some 0) ∷ adds (some 4) 1 (some 1) ∷ adds (some 5) 1 (some 1) ∷ []

abbrev batches : List (Option (List (ℕ × ℕ)))
batches = some ((3, 1) ∷ (4, 1) ∷ []) ∷ some ((5, 1) ∷ []) ∷ []

run-Fair_example :
    Fair (run (λ n. true) behave batches (ask_all (λ n. true) requests new_loop, 0)).0.trace
run-Fair_example = run-Fair (λ n. true) behave requests batches 0

-- A stale file lies at the path, and a connection is not answered in time.
abbrev kernel : Kernel
kernel = record {
  exists = true;
  socket = done;
  probe_socket = done;
  probe = error econnrefused;
  unlink = done;
  bind = done;
  chmod = error (another 1);
  listen = done;
  connect = in_progress;
  poll = timed_out;
  getsockopt = done;
  so_error = none;
  get_flags = done;
  set_flags = done;
  accept = done;
  set_receive_timeout = done;
  set_send_timeout = done;
  path_capacity = 108;
}

abbrev process : Process
process = record { opened = 0 ∷ []; next_fd = 3; unlinked = 0; errno = none }

sockets-Owns_example :
    Owns process (listen kernel (codes "/run/s") process)
    × Owns process (connect kernel (codes "/run/s") process)
sockets-Owns_example = sockets-Owns kernel (codes "/run/s") process

was_unlinked : (listen kernel (codes "/run/s") process).1.unlinked ≢ process.unlinked
unfolding listen
was_unlinked h = omega arith

listen-unlinked_example :
    (kernel.exists ≡ true)
    × ((kernel.probe ≡ error econnrefused) ⊎ (kernel.probe ≡ error Errno.enoent))
listen-unlinked_example = listen-unlinked kernel (codes "/run/s") process was_unlinked

connect-first_error_example :
    Tells 3 (first_error (calls_of kernel)) (connect kernel (codes "/run/s") process)
connect-first_error_example = connect-first_error kernel (codes "/run/s") process (omega arith)
