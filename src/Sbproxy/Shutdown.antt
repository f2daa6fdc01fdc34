-- ===== src/Sbproxy/Shutdown.antt =====
-- The end of Run and waitWithTimeout of sbproxy.go. Times are numbers of nanoseconds; the steps of the
-- process itself take no time.
use Prim.Native.Nat.{max}
use service_broker_proxy.Prelude.{ℕ, ◌+◌, ◌≤◌, ◌<◌, ◌≡◌, refl, Option, some, arith}

-- How a call ends: it returns, or log.Fatal ends the process.
pub data Exit : Type 0 where
  returned fatal : Exit

-- `group` is the time at which the last goroutine leaves the wait group, if they all do; `server` the
-- time at which Server.Run returns, if it does.
module _ (group server : Option ℕ) (timeout : ℕ) where
  -- waitWithTimeout, called at `now`: of the two channels of the select, one that is ready first. If
  -- both are ready at the same time, either may be taken.
  pub data WaitWithTimeout (now : ℕ) : Exit → Type 0 where
    in_time : {t : ℕ} → group ≡ some t → t ≤ now + timeout → WaitWithTimeout now returned
    timed_out : ((t : ℕ) → group ≡ some t → now + timeout ≤ t) → WaitWithTimeout now fatal

  -- Run after it has started the producer and the reconciler: Server.Run, then the wait for the
  -- group, and then the deferred call.
  pub data RunEnds : Exit → Type 0 where
    ended :
        {s t : ℕ} {e : Exit}
        → server ≡ some s
        → group ≡ some t
        → WaitWithTimeout (max s t) e
        → RunEnds e

  wait_after :
      {now t : ℕ} {e : Exit}
      → 0 < timeout
      → group ≡ some t
      → t ≤ now
      → WaitWithTimeout now e
      → e ≡ returned
  wait_after p g l (in_time h i) = refl
  wait_after {now} {t} p g l (timed_out h) = ground (arith, h t g)

  -- With a positive shutdown timeout, waitWithTimeout never times out at the end of Run; and Run ends
  -- only if all goroutines leave the wait group, however long that takes.
  pub timeout_without_effect :
      (e : Exit) → 0 < timeout → RunEnds e → (e ≡ returned) × ((t : ℕ) × (group ≡ some t))
  timeout_without_effect e p (ended {s} {t} a g w) = (wait_after p g (omega arith) w, (t, g))
