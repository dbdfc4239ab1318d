-- ===== src/Core/Wiring.antt =====
-- src/bot/core/lifecycle.py and src/bot/core/bot_context.py: how the take-profit manager feeds the
-- risk manager. `epic_to_candle` is the map that the context builds.
pub mod Locked
mod Tests
use async_trading_engine.Base.{String}
use async_trading_engine.Base.Dict
use async_trading_engine.Base.Dict.{Dict}
use async_trading_engine.Risk.Budgets.{TrailLookup, returned}
use async_trading_engine.Strategy.TakeProfit.State.{TakeProfitManager, get_trailing_stop}

unfoldable pub candle_for : Dict String → String → String
candle_for epic_to_candle epic = Dict.get_or epic epic epic_to_candle

-- `_trail_lookup`
unfoldable pub trail_lookup :
    {F : Type 0} → Dict String → TakeProfitManager F → String → TrailLookup F
trail_lookup epic_to_candle m epic = returned (get_trailing_stop m (candle_for epic_to_candle epic))
