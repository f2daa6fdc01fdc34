-- ===== src/Reconcile/Visibilities/Chunks/Negative.antt =====
-- getBrokerChunks and the validation of its size, for negative sizes.
use service_broker_proxy.Prelude.{ℕ, ◌≡◌, refl, none, List, ◌∷◌}
use service_broker_proxy.Prelude.Int.{negsuc}
use service_broker_proxy.Reconcile.Settings.{Settings, validate}
use service_broker_proxy.Reconcile.Visibilities.Chunks.{get_broker_chunks}

-- The validation does not look at the chunk size, so that a negative one passes whenever the other settings
-- do; and with a negative size the chunks of any brokers are a panic.
pub negative_size_panics :
    {A : Type 0} (c : Settings) (k : ℕ) (b : A) (bs : List A)
    → (validate (record c { visibility_broker_chunk_size = negsuc k }) ≡ validate c)
      × (get_broker_chunks (b ∷ bs) (negsuc k) ≡ none)
unfolding validate get_broker_chunks
negative_size_panics c k b bs = (refl, refl)
