-- ===== src/Exec/Threads.antt =====
-- An action as a goroutine runs it: between two of its calls others may make theirs. A thread is its
-- next call, with how it goes on once the answer is there, or it has ended.
use service_broker_proxy.Prelude.{◌∷◌}
use service_broker_proxy.Exec.{Log, Result, ok, err, Exec}
use service_broker_proxy.Exec.Calls.{Call}

pub data Thread (A : Type 0) : Type 0 where
  ended : Result A → Thread A
  -- The answer depends on the calls that all threads made before.
  calling : Call → (Log → Thread A) → Thread A

module _ {A : Type 0} where
  -- The thread alone, from its first call to its end.
  unfoldable pub run : Thread A → Exec A
  run (ended r) s = (r, s)
  run (calling c k) s = run (k s) (c ∷ s)

  abbrev pub pure : A → Thread A
  pure a = ended (ok a)

  abbrev pub ask : Call → (Log → Result A) → Thread A
  ask c answer = calling c (λ s. ended (answer s))

  unfoldable pub attempt : Thread A → Thread (Result A)
  attempt (ended r) = ended (ok r)
  attempt (calling c k) = calling c (λ s. attempt (k s))

module _ {A B : Type 0} where
  infixl 10 ◌>>=◌ ◌>>◌
  unfoldable pub ◌>>=◌ : Thread A → (A → Thread B) → Thread B
  ended (ok a) >>= f = f a
  ended (err e) >>= f = ended (err e)
  calling c k >>= f = calling c (λ s. k s >>= f)

  abbrev pub ◌>>◌ : Thread A → Thread B → Thread B
  m >> n = m >>= λ _. n
