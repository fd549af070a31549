-- ===== src/Bootstrap/Status.antt =====
-- src/daemon/daemon_bootstrap.cpp and src/daemon/cec_daemon.cpp: the daemon's exit status.
use cec_control.Prelude.{
  ◌≡◌, refl, Bool, true, false, ◌||◌, Option, none, some, List, [], ◌∷◌, if◌then◌else◌, arith, ap,
  ◌∙◌, ◌+◌, Bool-cases, inl, inr,
}
use cec_control.Client.{Exit, success, failure}
use cec_control.Arguments.{RunDaemon}
use cec_control.Sources.{Signal, child, terminate, interrupt, hangup}
use cec_control.Startup.{fresh}
use cec_control.Startup.Start.{start}
use cec_control.Bootstrap.{
  Host, Running, at_start, request_unrecoverable_shutdown, on_signals, Occurrence, signalled,
  adapter_lost, elsewhere, handle, run_loop, config_of, serve,
}

-- A signal that asks for a stop is among them.
abbrev pub asks_stop : List Signal → Bool
asks_stop [] = false
asks_stop (child ∷ ss) = asks_stop ss
asks_stop (terminate ∷ ss) = true
asks_stop (interrupt ∷ ss) = true
asks_stop (hangup ∷ ss) = true

-- How a run ends, by the first happening that ends it.
abbrev pub first_stop : List Occurrence → Option Exit
first_stop [] = none
first_stop (signalled ss ∷ os) =
    let later = first_stop os in if asks_stop ss then some success else later
first_stop (adapter_lost ∷ os) = some failure
first_stop (elsewhere ∷ os) = first_stop os

on_signals_lem :
    (ss : List Signal) (r : Running)
    → ((on_signals ss r).stop_requested ≡ (r.stop_requested || asks_stop ss))
      × ((on_signals ss r).exit_status ≡ r.exit_status)
unfolding on_signals
on_signals_lem [] r = ground arith
on_signals_lem (child ∷ ss) r = on_signals_lem ss (record r { reaps = r.reaps + 1 })
on_signals_lem (terminate ∷ ss) r =
    ground (arith, on_signals_lem ss (record r { stop_requested = true }))
on_signals_lem (interrupt ∷ ss) r =
    ground (arith, on_signals_lem ss (record r { stop_requested = true }))
on_signals_lem (hangup ∷ ss) r =
    ground (arith, on_signals_lem ss (record r { stop_requested = true }))

stopped_already :
    (os : List Occurrence) (r : Running)
    → r.stop_requested ≡ true
    → run_loop os r ≡ some r.exit_status
unfolding run_loop
stopped_already [] r h = rw h refl
stopped_already (o ∷ os) r h = rw h refl

onwards :
    (o : Occurrence) (os : List Occurrence) (r : Running)
    → r.stop_requested ≡ false
    → run_loop (o ∷ os) r ≡ run_loop os (handle o r)
unfolding run_loop
onwards o os r h = ground (arith, h)

lost :
    (r : Running)
    → r.exit_status ≡ success
    → ((request_unrecoverable_shutdown r).stop_requested ≡ true)
      × ((request_unrecoverable_shutdown r).exit_status ≡ failure)
unfolding request_unrecoverable_shutdown
lost r e = ground (arith, e)

run_loop-first_stop :
    (os : List Occurrence) (r : Running)
    → r.stop_requested ≡ false
    → r.exit_status ≡ success
    → run_loop os r ≡ first_stop os
unfolding handle
run_loop-first_stop [] r h e = unfold run_loop in ground (arith, h)
run_loop-first_stop (elsewhere ∷ os) r h e = onwards elsewhere os r h ∙ run_loop-first_stop os r h e
run_loop-first_stop (adapter_lost ∷ os) r h e =
    let (s, f) = lost r e in
    onwards adapter_lost os r h
    ∙ stopped_already os (request_unrecoverable_shutdown r) s
    ∙ ap (λ x. some x) f
run_loop-first_stop (signalled ss ∷ os) r h e =
    let (s, f) = on_signals_lem ss r in
    onwards (signalled ss) os r h ∙ elim (Bool-cases (asks_stop ss)) [
      | inl b ↦
          rw b
            (stopped_already os (on_signals ss r) (ground (arith, s, b)) ∙ ap (λ x. some x) (f ∙ e))
      | inr b ↦ rw b (run_loop-first_stop os (on_signals ss r) (ground (arith, s, h, b)) (f ∙ e))
    ]

-- The daemon exits with success exactly if it has started and a signal, other than that of a child, ends
-- it before the adapter is lost for good; with failure if it does not start, or the loss comes first;
-- and it goes on running while neither has happened.
pub serve-first_stop :
    (host : Host) (action : RunDaemon) (happens : List Occurrence)
    → serve host action happens ≡ (
        if (start host.machine (config_of host action).daemon fresh).0
        then first_stop happens
        else some failure)
unfolding serve
serve-first_stop host action happens =
    elim (Bool-cases (start host.machine (config_of host action).daemon fresh).0) [
      | inl e ↦ rw e (run_loop-first_stop happens at_start refl refl)
      | inr e ↦ rw e refl
    ]
