-- ===== src/Startup/Joined.antt =====
-- src/daemon/cec_daemon.cpp: the worker's thread and the subsystems that its jobs use.
use cec_control.Prelude.{◌≡◌, Bool, true, false, not, ◌||◌, if_ind, [], All, arith, refl}
use cec_control.Adapter.{Outcome, returned}
use cec_control.Adapter
use cec_control.Registry.{commands}
use cec_control.Dispatch.{dispatch_table, validate_dispatch_table}
use cec_control.Configuration.Settings.{DaemonConfig}
use cec_control.Startup.{
  Members, CecDaemon, Machine, nothing, fresh, Progress, onward, refused, thrown, Step, after,
  require, Call, detach_monitor, stop_server, shut_dispatcher, shut_lifecycle, stop_worker,
  stop_monitor, socket_server,
}
use cec_control.Startup.Start.{
  start, build, make, start_worker, set_up_power, register, attach, set_up_watchdog, post_arm,
  concluded, sources_valid, start_parts,
}
use cec_control.Startup.Stop.{reset_order, drop_each, stop, destroy, quiet, silence, call}

-- What a thread of the worker may reach, by its jobs and by what libcec's threads post.
pub record HasParts (m : Members) : Type 0 where
  pub supervisor : m.has_supervisor ≡ true
  pub dispatcher : m.has_dispatcher ≡ true
  pub lifecycle : m.has_lifecycle ≡ true
  pub worker : m.has_worker ≡ true
  pub hooks : m.has_hooks ≡ true
  pub executor : m.has_executor ≡ true
  pub policy : m.has_policy ≡ true

abbrev pub IsCalm : Members → Type 0
IsCalm m = m.runs ≡ true → HasParts m

record Ready (d : CecDaemon) : Type 0 where
  parts : HasParts d.members
  calm : All IsCalm d.past

abbrev Onward : (CecDaemon → Type 0) → Progress × CecDaemon → Type 0
Onward P (onward, d) = P d
Onward P (refused, d) = Unit
Onward P (thrown, d) = Unit

after-Onward :
    (P Q : CecDaemon → Type 0) (r : Progress × CecDaemon) (k : Step)
    → Onward P r
    → ((d : CecDaemon) → P d → Onward Q (k d))
    → Onward Q (after r k)
unfolding after
after-Onward P Q (onward, d) k h f = f d h
after-Onward P Q (refused, d) k h f = tt
after-Onward P Q (thrown, d) k h f = tt

module _ (os : Machine) where
  build-Ready : (d : CecDaemon) → d.members ≡ nothing → d.past ≡ [] → Onward Ready (build os d)
  unfolding build
  build-Ready d e h = ground (arith, e, h)

  start_worker-Ready :
      (config : DaemonConfig) (d : CecDaemon) → Ready d → Onward Ready (start_worker os config d)
  unfolding start_worker
  start_worker-Ready config d b = ground (arith, b.parts, b.calm)

  make-Ready : (d : CecDaemon) → Ready d → Onward Ready (make os socket_server d)
  unfolding make
  make-Ready d b = ground (arith, b.parts, b.calm)

  set_up_power-Ready :
      (config : DaemonConfig) (d : CecDaemon) → Ready d → Onward Ready (set_up_power os config d)
  unfolding set_up_power
  set_up_power-Ready config d b = ground (arith, b.parts, b.calm)

  require-Ready : (r : Outcome Bool) (d : CecDaemon) → Ready d → Onward Ready (require r d)
  unfolding require
  require-Ready (returned true) d p = p
  require-Ready (returned false) d p = tt
  require-Ready Adapter.threw d p = tt

  register-Ready : (d : CecDaemon) → Ready d → Onward Ready (register os d)
  unfolding register
  register-Ready d b = ground (arith, b.parts, b.calm)

  attach-Ready : (d : CecDaemon) → Ready d → Onward Ready (attach os d)
  unfolding attach
  attach-Ready d b = ground (arith, b.parts, b.calm)

  set_up_watchdog-Ready : (d : CecDaemon) → Ready d → Onward Ready (set_up_watchdog os d)
  unfolding set_up_watchdog
  set_up_watchdog-Ready d b = ground (arith, b.parts, b.calm)

  parts-Ready : (config : DaemonConfig) → Onward Ready (start_parts os config fresh)
  unfolding start_parts
  parts-Ready config = after-Onward Ready Ready _ _ (build-Ready fresh refl refl) λ d1 s1.
      after-Onward Ready Ready _ _ (start_worker-Ready config d1 s1) λ d2 s2.
        after-Onward Ready Ready _ _ (make-Ready d2 s2) λ d3 s3.
          after-Onward Ready Ready _ _ (require-Ready os.server_starts d3 s3) λ d4 s4.
            after-Onward Ready Ready (set_up_power os config d4) _ (set_up_power-Ready config d4 s4)
              λ d5 s5. after-Onward Ready Ready _ _ (register-Ready d5 s5) λ d6 s6.
                after-Onward Ready Ready _ _ (attach-Ready d6 s6) λ d7 s7.
                  after-Onward Ready Ready _ post_arm (set_up_watchdog-Ready d7 s7)
                    (λ d8 s8. unfold post_arm in record { parts = s8.parts; calm = s8.calm })

-- Ready and started.
abbrev Started : Bool × CecDaemon → Type 0
Started (b, d) = b ≡ true → (d.started ≡ true) × Ready d

concluded-Started : (r : Progress × CecDaemon) → Onward Ready r → Started (concluded r)
concluded-Started (onward, d) h e = (refl, record { parts = h.parts; calm = h.calm })
concluded-Started (refused, d) h e = cc
concluded-Started (thrown, d) h e = cc

start-Started : (os : Machine) (config : DaemonConfig) → Started (start os config fresh)
unfolding start
start-Started os config =
    if_ind Started (not (validate_dispatch_table dispatch_table commands) || not (sources_valid os))
      (λ _ e. cc) (λ _. concluded-Started (start_parts os config fresh) (parts-Ready os config))

record Rest (d : CecDaemon) : Type 0 where
  joined : d.members.runs ≡ false
  calm : All IsCalm d.past

-- A step that goes on.
abbrev Through : (CecDaemon → Type 0) → Progress × CecDaemon → Type 0
Through P r = (r.0 ≡ onward) × P r.1

after-Through :
    (P Q : CecDaemon → Type 0) (r : Progress × CecDaemon) (k : Step)
    → Through P r
    → ((d : CecDaemon) → P d → Through Q (k d))
    → Through Q (after r k)
unfolding after
after-Through P Q (onward, d) k h f = f d h.1
after-Through P Q (refused, d) k h f = cc
after-Through P Q (thrown, d) k h f = cc

module _ (os : Machine) (h : (c : Call) → os.stop_throws c ≡ false) where
  -- A call before the worker's, and one after it.
  call-Ready : (b : Bool) (c : Call) (d : CecDaemon) → Ready d → Through Ready (call os b c d)
  unfolding call
  call-Ready b stop_worker d r = ground (arith, h stop_worker, r.parts, r.calm)
  call-Ready b c d r = ground (arith, h c, r.parts, r.calm)

  call-Rest : (b : Bool) (c : Call) (d : CecDaemon) → Rest d → Through Rest (call os b c d)
  unfolding call
  call-Rest b stop_worker d r = ground (arith, h stop_worker, r.joined, r.calm)
  call-Rest b c d r = ground (arith, h c, r.joined, r.calm)

  worker-Rest :
      (b : Bool) (d : CecDaemon) → b ≡ true → Ready d → Through Rest (call os b stop_worker d)
  unfolding call
  worker-Rest b d e r = ground (arith, h stop_worker, r.parts, r.calm)

  quiet-Rest : (d : CecDaemon) → Ready d → Rest (quiet os d)
  unfolding quiet silence
  quiet-Rest d r =
      let m = d.members in
      (after-Through Ready Rest _ _ (call-Ready m.has_monitor detach_monitor d r) λ d1 r1.
        after-Through Ready Rest _ _ (call-Ready m.has_server stop_server d1 r1) λ d2 r2.
          after-Through Ready Rest _ _ (call-Ready m.has_dispatcher shut_dispatcher d2 r2) λ d3 r3.
            after-Through Ready Rest _ _ (call-Ready m.has_lifecycle shut_lifecycle d3 r3) λ d4 r4.
              after-Through Rest Rest _ _ (worker-Rest m.has_worker d4 r.parts.worker r4)
                λ d5 r5. call-Rest m.has_monitor stop_monitor d5 r5).1

drop_each-Rest : (d : CecDaemon) → Rest d → Rest (drop_each reset_order d)
unfolding drop_each
drop_each-Rest d r = ground (arith, r.joined, r.calm)

stop-Rest :
    (os : Machine) (d : CecDaemon)
    → ((c : Call) → os.stop_throws c ≡ false)
    → d.started ≡ true
    → Ready d
    → Rest (stop os d)
unfolding stop
stop-Rest os d h e r =
    if_ind Rest (not d.started) (λ k. cc)
      (λ _.
        let d' = record d { started = false; loop_stopped = true } in
        drop_each-Rest (quiet os d')
          (quiet-Rest os h d' (record { parts = r.parts; calm = r.calm })))

-- A daemon that started, and whose teardown calls do not throw, joins the worker's thread before it
-- destroys anything that the thread reaches: in each state that it goes through, from its making to the
-- end of its destructor, a running thread has the supervisor, the dispatcher, the lifecycle, the worker,
-- the hooks and their executor and the standby policy.
pub destroy-IsCalm :
    (os : Machine) (config : DaemonConfig)
    → ((c : Call) → os.stop_throws c ≡ false)
    → (start os config fresh).0 ≡ true
    → All IsCalm (destroy os (start os config fresh).1).past
unfolding destroy
destroy-IsCalm os config h e =
    let d = (start os config fresh).1 in
    let (s, r) = start-Started os config e in
    (drop_each-Rest (stop os d) (stop-Rest os d h s r)).calm
