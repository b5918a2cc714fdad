-- ===== src/Tests/Outboxes.antt =====
-- A client that is subscribed to the load, and one that is gone.
use lin_sight.Base.{ℕ, refl, none, some, ◌≡◌, ◌++◌, List, [], ◌∷◌, Option, true, false}
use lin_sight.Base.Keys.{nat_eq, text_eq}
use lin_sight.Base.Dict.{lookup, has_key}
use lin_sight.Messages.{ServerMsg}
use lin_sight.Outbound.{sample, Sink, ClientMap, pump, pump_drain_cap, fan_out}
use lin_sight.Outbound.Deliver.{delivered, fan_out-lookup}
use lin_sight.Outbound.Drain.{Drains, pump-Drains}
use lin_sight.Tests.Fixtures.{Rate, load, model, sample_of}

abbrev reader : Sink Rate ℕ
reader = record {
  queue = sample (sample_of load 1) ∷ [];
  connected = true;
  subscriptions = ((load, 500_000), record { sensor = load; period = 500_000 }) ∷ [];
}

abbrev pub two_clients : ClientMap Rate ℕ
two_clients = (1, reader) ∷ (2, record reader { connected = false }) ∷ []

fan_out-lookup_example :
    lookup 1 (fan_out two_clients (sample_of load 2 ∷ sample_of model 2 ∷ []))
    ≡ elim (lookup 1 two_clients) [
      | none ↦ none
      | some k ↦ delivered (sample_of load 2 ∷ sample_of model 2 ∷ []) k
    ]
unfolding has_key
fan_out-lookup_example =
    fan_out-lookup two_clients (sample_of load 2 ∷ sample_of model 2 ∷ []) 1 (refl, (refl, tt))

abbrev pub append_write :
    List (ServerMsg Rate ℕ) → ServerMsg Rate ℕ → Option (List (ServerMsg Rate ℕ))
append_write w m = some (w ++ m ∷ [])

pump-Drains_example :
    Drains append_write pump_drain_cap [] reader.queue (pump append_write [] reader.queue)
pump-Drains_example = pump-Drains append_write [] reader.queue
