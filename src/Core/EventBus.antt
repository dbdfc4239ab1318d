-- ===== src/Core/EventBus.antt =====
-- src/bot/core/event_bus.py. A handler is known by a text, and what a call of it does to the world, in
-- which the bus stands, is a parameter. A handler runs to its end before the next one starts.
pub mod Dispatch
mod Tests
use async_trading_engine.Base.{Bool, true, false, List, [], ◌∷◌, ◌++◌, String, if◌then◌else◌}
use async_trading_engine.Base.Dict
use async_trading_engine.Base.Dict.{Dict, same_key}

pub record EventBus : Type 0 where
  pub subscribers : Dict (List String)

-- `_subscribers[event_type]`, empty when there is none.
abbrev pub handlers_of : String → EventBus → List String
handlers_of event_type bus = Dict.get_or event_type [] bus.subscribers

unfoldable pub subscribe : String → String → EventBus → EventBus
subscribe event_type handler bus = record {
  subscribers = Dict.insert event_type (handlers_of event_type bus ++ handler ∷ []) bus.subscribers;
}

-- `handlers.remove(handler)`: the first occurrence goes; a `ValueError` leaves the list.
unfoldable pub remove : String → List String → List String
remove handler [] = []
remove handler (h ∷ rest) = if same_key h handler then rest else h ∷ remove handler rest

unfoldable pub unsubscribe : String → String → EventBus → EventBus
unfolding remove
unsubscribe event_type handler bus = record {
  subscribers =
      Dict.insert event_type (remove handler (handlers_of event_type bus)) bus.subscribers;
}

module _ {W D : Type 0} (bus_of : W → EventBus) (call : String → D → W → Bool × W) where
  -- The calls of the handlers, with those that raised.
  unfoldable pub call_handlers : List String → D → W → W × List String
  call_handlers [] payload w = (w, [])
  call_handlers (h ∷ rest) payload w =
      let r = call h payload w in
      let later = call_handlers rest payload r.1 in
      (later.0, (if r.0 then later.1 else h ∷ later.1))

  -- `emit`, with the handlers whose exceptions are logged
  unfoldable pub emit : String → D → W → W × List String
  unfolding call_handlers
  emit event_type payload w = call_handlers (handlers_of event_type (bus_of w)) payload w
