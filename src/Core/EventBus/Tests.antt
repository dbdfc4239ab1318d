-- ===== src/Core/EventBus/Tests.antt =====
-- Runs of the bus.
use async_trading_engine.Base.{◌≡◌, refl, Bool, not, List, [], ◌∷◌, ◌++◌, String}
use async_trading_engine.Base.Dict
use async_trading_engine.Base.Dict.{same_key}
use async_trading_engine.Core.EventBus.{
  EventBus, handlers_of, subscribe, unsubscribe, call_handlers, emit,
}
use async_trading_engine.Core.EventBus.Dispatch.{trace-emit, unsubscribe-subscribe}

abbrev bus : EventBus
bus = record { subscribers = ("shutdown", "stop" ∷ "report" ∷ []) ∷ [] }

-- A handler notes its name and subscribes another one; `stop` raises.
abbrev noted : String → String → EventBus × List String → Bool × (EventBus × List String)
noted handler payload (b, names) =
    (not (same_key handler "stop"), (subscribe "shutdown" "late" b, names ++ handler ∷ []))

both_called : (emit (λ w. w.0) noted "shutdown" "now" (bus, [])).0.1 ≡ "stop" ∷ "report" ∷ []
unfolding emit call_handlers Dict.lookup
both_called = refl

trace-emit_example :
    (emit (λ w. w.0) noted "shutdown" "now" (bus, "before" ∷ [])).0.1
    ≡ "before" ∷ "stop" ∷ "report" ∷ []
unfolding Dict.lookup
trace-emit_example =
    trace-emit (λ w. w.0) noted (λ w. w.1) (λ h payload w. refl) "shutdown" "now"
      (bus, "before" ∷ [])

round_trip :
    handlers_of "shutdown" (unsubscribe "shutdown" "late" (subscribe "shutdown" "late" bus))
    ≡ "stop" ∷ "report" ∷ []
unfolding Dict.lookup
round_trip = unsubscribe-subscribe "shutdown" "late" "shutdown" bus refl
