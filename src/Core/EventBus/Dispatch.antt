-- ===== src/Core/EventBus/Dispatch.antt =====
-- Whom an emission reaches.
use async_trading_engine.Base.{◌≡◌, sym, ap, ◌∙◌, Bool, false, List, [], ◌∷◌, ◌++◌, String, arith}
use mathlib.Core.List.{append-nil, append_assoc}
use async_trading_engine.Base.Dict
use async_trading_engine.Base.Dict.{same_key, same_key_iff}
use async_trading_engine.Data.Symbols.{member}
use async_trading_engine.Core.EventBus.{
  EventBus, handlers_of, subscribe, remove, unsubscribe, call_handlers, emit,
}

module _ {W D : Type 0} (bus_of : W → EventBus) (call : String → D → W → Bool × W)
    (trace : W → List String) where
  trace-call_handlers :
      ((h : String) (payload : D) (w : W) → trace (call h payload w).1 ≡ trace w ++ h ∷ [])
      → (handlers : List String) (payload : D) (w : W)
      → trace (call_handlers bus_of call handlers payload w).0 ≡ trace w ++ handlers
  unfolding call_handlers
  trace-call_handlers traces [] payload w = sym (append-nil (trace w))
  trace-call_handlers traces (h ∷ rest) payload w =
      trace-call_handlers traces rest payload (call h payload w).1
      ∙ ap (λ xs. xs ++ rest) (traces h payload w)
      ∙ append_assoc (trace w) (h ∷ []) rest

  -- For a trace that each call extends by its handler: an emission calls the handlers that are
  -- subscribed when it starts, each as often as it is subscribed, in the order of the subscriptions,
  -- whichever of them raise and whatever they subscribe or unsubscribe.
  pub trace-emit :
      ((h : String) (payload : D) (w : W) → trace (call h payload w).1 ≡ trace w ++ h ∷ [])
      → (event_type : String) (payload : D) (w : W)
      → trace (emit bus_of call event_type payload w).0
        ≡ trace w ++ handlers_of event_type (bus_of w)
  unfolding emit
  trace-emit traces event_type payload w =
      trace-call_handlers traces (handlers_of event_type (bus_of w)) payload w

remove-append :
    (handler : String) (hs : List String)
    → member handler hs ≡ false
    → remove handler (hs ++ handler ∷ []) ≡ hs
unfolding remove
remove-append handler [] h = ground (arith, same_key_iff handler handler)
remove-append handler (x ∷ hs) h = ground (arith, h, remove-append handler hs)

-- A handler that is not subscribed to an event, and then is subscribed and unsubscribed, leaves the
-- handlers of every event as they were.
pub unsubscribe-subscribe :
    (event_type handler other : String) (bus : EventBus)
    → member handler (handlers_of event_type bus) ≡ false
    → handlers_of other (unsubscribe event_type handler (subscribe event_type handler bus))
      ≡ handlers_of other bus
unfolding unsubscribe subscribe
unsubscribe-subscribe event_type handler other bus h =
    let grown = handlers_of event_type bus ++ handler ∷ [] in
    let subscribed = Dict.insert event_type grown bus.subscribers in
    ground (
      arith,
      h,
      remove-append handler (handlers_of event_type bus) h,
      Dict.lookup-insert event_type event_type grown bus.subscribers,
      Dict.lookup-insert event_type other grown bus.subscribers,
      Dict.lookup-insert event_type other (remove handler (Dict.get_or event_type [] subscribed))
          subscribed,
      same_key_iff event_type event_type,
      same_key_iff event_type other,
    )
