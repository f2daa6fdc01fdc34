-- ===== src/Exec/Extensions.antt =====
-- Logs that extend a log.
use service_broker_proxy.Prelude.{◌∷◌}
use service_broker_proxy.Exec.{Log}
use service_broker_proxy.Exec.Calls.{Call}

-- The second log is the first with more calls.
pub data Later (s : Log) : Log → Type 0 where
  same : Later s s
  more : {t : Log} (c : Call) → Later s t → Later s (c ∷ t)

pub Later-trans : {s t u : Log} → Later s t → Later t u → Later s u
Later-trans l same = l
Later-trans l (more c m) = more c (Later-trans l m)
