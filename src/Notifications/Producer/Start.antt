-- ===== src/Notifications/Producer/Start.antt =====
-- Start and closeConnection of producer.go.
use service_broker_proxy.Prelude.{ℕ, ◌+◌, Bool, true, false, List, [], ◌∷◌}
use service_broker_proxy.Prelude.Int.{ℤ, pos, negsuc}
use service_broker_proxy.Types.{failed}
use service_broker_proxy.Exec.{Result, ok, err}
use service_broker_proxy.Notifications.Producer.{ProducerSettings}

-- What Start makes: the channel by the size of its buffer, and what the wait group counts.
pub record Started : Type 0 where
  pub buffer : ℕ
  pub wait_group : ℕ

-- Start. Making a channel of a negative size panics, after the wait group has been incremented.
unfoldable pub started : ℤ → ℕ → Result Started
started (pos n) group = ok (record { buffer = n; wait_group = group + 1 })
started (negsuc n) group = err (failed "makechan: size out of range")

abbrev pub start : ProducerSettings → ℕ → Result Started
start c group = started c.messages_queue_size group

-- The calls on a connection.
pub data SocketCall : Type 0 where
  write_close_message close : SocketCall

-- closeConnection, by whether there is a connection. Errors of both calls are only logged.
unfoldable pub close_connection : Bool → List SocketCall
close_connection true = write_close_message ∷ close ∷ []
close_connection false = []
