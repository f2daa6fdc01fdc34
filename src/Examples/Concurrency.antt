-- ===== src/Examples/Concurrency.antt =====
-- The theorems on the goroutines of the scheduler and of the producer, applied to sample runs.
use service_broker_proxy.Prelude.{◌+◌, ◌*◌, ◌≤◌, ◌⊎◌, ◌≡◌, refl, true, false, some, [], ◌∷◌, arith}
use service_broker_proxy.Prelude.Int.{pos, negsuc}
use service_broker_proxy.Reconcile.Reconciler.{resync_message, change}
use service_broker_proxy.Reconcile.Scheduler.{await}
use service_broker_proxy.Reconcile.Scheduler.Concurrent
use service_broker_proxy.Reconcile.Scheduler.Concurrent.{
  goes_on, returns, schedule, succeed, fail, release, finish, awaited, here, next,
}
use service_broker_proxy.Reconcile.Scheduler.Concurrent.Slots.{bounded_parallelism}
use service_broker_proxy.Reconcile.Scheduler.Concurrent.Progress.{runs_end, no_deadlock}
use service_broker_proxy.Reconcile.Scheduler.Concurrent.Outcome.{ok_means_success}
use service_broker_proxy.Notifications.Producer.{
  accepted, connect, read_response_headers, read_revision,
}
use service_broker_proxy.Notifications.Producer.Goroutines
use service_broker_proxy.Notifications.Producer.Goroutines.{absent, signalling}
use service_broker_proxy.Notifications.Producer.Goroutines.Session.{connection_in_use}
use service_broker_proxy.Notifications.Producer.Goroutines.Shutdown.{shutdown_may_hang}
use service_broker_proxy.Notifications.Producer.Goroutines.Overtaking.{notification_first}
use service_broker_proxy.Examples.{notification, producer, good}

-- Two tasks are scheduled with two slots, and the first fails.
abbrev halfway : Concurrent.State
halfway = record (Concurrent.start 2) {
  todo = 0;
  executing = 1;
  leaving = 1;
  failed = 1;
  slots = 2;
  wait_group = 2;
  error_count = 1;
}

halfway-Reach : Concurrent.Reach 2 goes_on (Concurrent.start 2) 3 halfway
halfway-Reach =
    next (next (next here (schedule refl refl (ground arith))) (schedule refl refl (ground arith)))
      (fail refl)

bounded_parallelism_example : (1 ≤ 2) × (0 + 1 + 0 + 1 + 0 ≡ 2)
bounded_parallelism_example = bounded_parallelism 2 2 goes_on 3 halfway halfway-Reach

runs_end_example : 3 ≤ 4 * 2 + 2
runs_end_example = runs_end 2 goes_on 2 3 halfway halfway-Reach

no_deadlock_example :
    (t : Concurrent.State) × Concurrent.Step 2 goes_on halfway t × (t.cancelled ≡ halfway.cancelled)
no_deadlock_example = no_deadlock 2 goes_on 2 3 halfway (ground arith) halfway-Reach refl

-- The other task succeeds, and all goroutines end.
abbrev failed_once : Concurrent.State
failed_once = record (Concurrent.start 2) {
  todo = 0;
  succeeded = 1;
  failed = 1;
  error_count = 1;
  returned = some (await 1);
}

failed_once-Reach : Concurrent.Reach 2 goes_on (Concurrent.start 2) 9 failed_once
failed_once-Reach =
    next
      (next
        (next
          (next (next (next halfway-Reach (succeed refl)) (release refl refl)) (finish refl refl))
          (release refl refl))
        (finish refl refl))
      (awaited refl refl refl)

abbrev succeeded_once : Concurrent.State
succeeded_once = record (Concurrent.start 1) { todo = 0; succeeded = 1; returned = some (await 0) }

succeeded_once-Reach : Concurrent.Reach 1 returns (Concurrent.start 1) 5 succeeded_once
succeeded_once-Reach =
    next
      (next
        (next (next (next here (schedule refl refl (ground arith))) (succeed refl))
          (release refl refl))
        (finish refl refl))
      (awaited refl refl refl)

ok_means_success_example : (succeeded_once.succeeded ≡ 1) × (succeeded_once.wait_group ≡ 0)
unfolding await
ok_means_success_example =
    ok_means_success 1 1 5 succeeded_once (ground arith) succeeded_once-Reach refl

-- A run that has connected, and whose scheduleResync holds the resync message.
abbrev in_session : Goroutines.State
in_session =
    record (Goroutines.begin_session (record (Goroutines.start (negsuc 0) producer) {
      producer =
          (connect (negsuc 0) (accepted (good (pos 6)))
            (Goroutines.start (negsuc 0) producer).producer).1;
      conn_open = true;
    })) { timer = Goroutines.sending }

in_session-Reach : Goroutines.Reach (negsuc 0) 8 (Goroutines.start (negsuc 0) producer) in_session
unfolding connect read_response_headers read_revision
in_session-Reach =
    Goroutines.next
      (Goroutines.next Goroutines.here
        (Goroutines.connected_anew (accepted (good (pos 6))) refl refl refl))
      (Goroutines.signal refl refl)

connection_in_use_example :
    (((in_session.reader ≡ absent) × (in_session.pinging ≡ false)) ⊎ (true ≡ true)) × (0 ≤ 2)
connection_in_use_example = connection_in_use (negsuc 0) 8 producer in_session in_session-Reach

shutdown_may_hang_example :
    (s : Goroutines.State) × Goroutines.Reach (negsuc 0) 8 (Goroutines.start (negsuc 0) producer) s
    × (s.cancelled ≡ true)
    × ((t : Goroutines.State) → Goroutines.Reach (negsuc 0) 8 s t → t.run ≡ signalling)
unfolding connect read_response_headers read_revision
shutdown_may_hang_example = shutdown_may_hang (negsuc 0) 8 producer (accepted (good (pos 6))) refl

notification_first_example :
    (s : Goroutines.State) × Goroutines.Reach (negsuc 0) 8 (Goroutines.start (negsuc 0) producer) s
    × (s.messages ≡ change notification ∷ resync_message ∷ [])
unfolding connect read_response_headers read_revision
notification_first_example =
    notification_first (negsuc 0) 8 producer (accepted (good (pos 6))) notification (ground arith)
      refl
