-- ===== src/Startup/Referents.antt =====
-- src/daemon/cec_daemon.cpp: a subsystem that another refers to outlives it.
use cec_control.Prelude.{◌≡◌, Bool, true, false, not, ◌||◌, if_ind, All, arith, refl}
use cec_control.Adapter.{Outcome, returned}
use cec_control.Adapter
use cec_control.Configuration.Settings.{DaemonConfig}
use cec_control.Registry.{commands}
use cec_control.Dispatch.{dispatch_table, validate_dispatch_table}
use cec_control.Startup.{
  Members, CecDaemon, Machine, nothing, fresh, Progress, onward, refused, thrown, Step, after,
  require, Call, detach_monitor, stop_server, shut_dispatcher, shut_lifecycle, stop_worker,
  stop_monitor, socket_server,
}
use cec_control.Startup.Start.{
  start, build, make, start_worker, set_up_power, register, attach, set_up_watchdog, post_arm,
  concluded, sources_valid, start_parts,
}
use cec_control.Startup.Stop.{reset_order, drop_each, stop, destroy, quiet, silence, call}

-- Each reference that one subsystem holds on another.
pub record IsSound (m : Members) : Type 0 where
  pub lifecycle_worker : m.has_lifecycle ≡ true → m.has_worker ≡ true
  pub hooks_executor : m.has_hooks ≡ true → m.has_executor ≡ true
  pub dispatcher_worker : m.has_dispatcher ≡ true → m.has_worker ≡ true
  pub dispatcher_lifecycle : m.has_dispatcher ≡ true → m.has_lifecycle ≡ true
  pub dispatcher_policy : m.has_dispatcher ≡ true → m.has_policy ≡ true
  pub supervisor_dispatcher : m.has_supervisor ≡ true → m.has_dispatcher ≡ true
  pub supervisor_lifecycle : m.has_supervisor ≡ true → m.has_lifecycle ≡ true
  pub supervisor_worker : m.has_supervisor ≡ true → m.has_worker ≡ true
  pub supervisor_monitor : m.has_supervisor ≡ true → m.points ≡ true → m.has_monitor ≡ true
  pub runs_worker : m.runs ≡ true → m.has_worker ≡ true

abbrev Safe : CecDaemon → Type 0
Safe d = IsSound d.members × All IsSound d.past

drop_each-Safe : (d : CecDaemon) → Safe d → Safe (drop_each reset_order d)
unfolding drop_each
drop_each-Safe d (h, k) = ground arith

-- What a step of `start` leaves, whichever way it ends.
abbrev Ends : (CecDaemon → Type 0) → Progress × CecDaemon → Type 0
Ends P (onward, d) = P d
Ends P (refused, d) = Safe d
Ends P (thrown, d) = Safe d

abbrev Takes : (CecDaemon → Type 0) → (CecDaemon → Type 0) → Step → Type 0
Takes P Q m = (d : CecDaemon) → P d → Ends Q (m d)

after-Ends :
    (P Q : CecDaemon → Type 0) (r : Progress × CecDaemon) (k : Step)
    → Ends P r
    → Takes P Q k
    → Ends Q (after r k)
unfolding after
after-Ends P Q (onward, d) k h f = f d h
after-Ends P Q (refused, d) k h f = h
after-Ends P Q (thrown, d) k h f = h

-- Everything that the supervisor needs is there.
record Built (d : CecDaemon) : Type 0 where
  safe : Safe d
  worker : d.members.has_worker ≡ true
  unpointed : d.members.points ≡ false

post_arm-Safe : (d : CecDaemon) → Safe d → Ends Safe (post_arm d)
unfolding post_arm
post_arm-Safe d s = s

module _ (os : Machine) where
  build-Built : (d : CecDaemon) → d.members ≡ nothing → All IsSound d.past → Ends Built (build os d)
  unfolding build
  build-Built d e h = ground (arith, e)

  start_worker-Built :
      (config : DaemonConfig) (d : CecDaemon) → Built d → Ends Built (start_worker os config d)
  unfolding start_worker
  start_worker-Built config d b = ground (arith, b.safe, b.worker, b.unpointed)

  make-Built : (d : CecDaemon) → Built d → Ends Built (make os socket_server d)
  unfolding make
  make-Built d b = ground (arith, b.safe, b.worker, b.unpointed)

  set_up_power-Safe :
      (config : DaemonConfig) (d : CecDaemon) → Built d → Ends Safe (set_up_power os config d)
  unfolding set_up_power
  set_up_power-Safe config d b = ground (arith, b.safe, b.worker, b.unpointed)

  require-Ends :
      (P : CecDaemon → Type 0) (r : Outcome Bool) (d : CecDaemon)
      → (P d → Safe d)
      → P d
      → Ends P (require r d)
  unfolding require
  require-Ends P (returned true) d f p = p
  require-Ends P (returned false) d f p = f p
  require-Ends P Adapter.threw d f p = f p

  register-Safe : (d : CecDaemon) → Safe d → Ends Safe (register os d)
  unfolding register
  register-Safe d s = ground (arith, s)

  attach-Safe : (d : CecDaemon) → Safe d → Ends Safe (attach os d)
  unfolding attach
  attach-Safe d s = ground (arith, s)

  set_up_watchdog-Safe : (d : CecDaemon) → Safe d → Ends Safe (set_up_watchdog os d)
  unfolding set_up_watchdog
  set_up_watchdog-Safe d s = ground (arith, s)

  call-Safe : (b : Bool) (c : Call) → Takes Safe Safe (call os b c)
  unfolding call
  call-Safe b detach_monitor d s = ground (arith, s)
  call-Safe b _ d s = ground (arith, s)

  silence-Safe : (d : CecDaemon) → Safe d → Ends Safe (silence os d)
  unfolding silence
  silence-Safe d s =
      let m = d.members in
      after-Ends Safe Safe _ _ (call-Safe m.has_monitor detach_monitor d s) λ d1 s1.
        after-Ends Safe Safe _ _ (call-Safe m.has_server stop_server d1 s1) λ d2 s2.
          after-Ends Safe Safe _ _ (call-Safe m.has_dispatcher shut_dispatcher d2 s2) λ d3 s3.
            after-Ends Safe Safe _ _ (call-Safe m.has_lifecycle shut_lifecycle d3 s3) λ d4 s4.
              after-Ends Safe Safe _ _ (call-Safe m.has_worker stop_worker d4 s4)
                λ d5 s5. call-Safe m.has_monitor stop_monitor d5 s5

  parts-Safe :
      (config : DaemonConfig) (d : CecDaemon)
      → d.members ≡ nothing
      → All IsSound d.past
      → Ends Safe (start_parts os config d)
  unfolding start_parts
  parts-Safe config d e h = after-Ends Built Safe _ _ (build-Built d e h) λ d1 s1.
      after-Ends Built Safe _ _ (start_worker-Built config d1 s1) λ d2 s2.
        after-Ends Built Safe _ _ (make-Built d2 s2) λ d3 s3.
          after-Ends Built Safe _ _ (require-Ends Built os.server_starts d3 (λ b. b.safe) s3)
            λ d4 s4.
              after-Ends Safe Safe (set_up_power os config d4) _ (set_up_power-Safe config d4 s4)
                λ d5 s5. after-Ends Safe Safe _ _ (register-Safe d5 s5) λ d6 s6.
                  after-Ends Safe Safe _ _ (attach-Safe d6 s6) λ d7 s7.
                    after-Ends Safe Safe _ post_arm (set_up_watchdog-Safe d7 s7) post_arm-Safe

-- A daemon as `start` leaves it.
concluded-Safe : (r : Progress × CecDaemon) → Ends Safe r → Safe (concluded r).1
concluded-Safe (onward, d) h = h
concluded-Safe (refused, d) h = h
concluded-Safe (thrown, d) h = h

ended-Safe : (r : Progress × CecDaemon) → Ends Safe r → Safe r.1
ended-Safe (onward, d) h = h
ended-Safe (refused, d) h = h
ended-Safe (thrown, d) h = h

start-Safe : (os : Machine) (config : DaemonConfig) → Safe (start os config fresh).1
unfolding start
start-Safe os config =
    if_ind (λ (r : Bool × CecDaemon). Safe r.1)
      (not (validate_dispatch_table dispatch_table commands) || not (sources_valid os))
      (λ _. ground arith)
      (λ _. concluded-Safe (start_parts os config fresh) (parts-Safe os config fresh refl tt))

stop-Safe : (os : Machine) (d : CecDaemon) → Safe d → Safe (stop os d)
unfolding stop quiet
stop-Safe os d s =
    if_ind Safe (not d.started) (λ _. s)
      (λ _.
        let e = record d { started = false; loop_stopped = true } in
        drop_each-Safe (quiet os e) (ended-Safe (silence os e) (silence-Safe os e s)))

-- Whichever step of `start` fails or throws, and whichever call of `stop` throws, each subsystem has
-- every subsystem that it refers to in all states that the daemon goes through, from its making to the
-- end of its destructor.
pub destroy-IsSound :
    (os : Machine) (config : DaemonConfig) → All IsSound (destroy os (start os config fresh).1).past
unfolding destroy
destroy-IsSound os config =
    let d = (start os config fresh).1 in
    (drop_each-Safe (stop os d) (stop-Safe os d (start-Safe os config))).1
