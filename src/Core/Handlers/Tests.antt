-- ===== src/Core/Handlers/Tests.antt =====
-- Runs of the handlers on a connection that answers from a list.
use async_trading_engine.Base.{◌≤◌, ◌≡◌, refl, some, [], ◌∷◌, true, false, arith, All}
use async_trading_engine.Base.Fixed.{Fixed, fixed_float, whole, Fixed-IsOrdered}
use async_trading_engine.Base.Float.{Float}
use async_trading_engine.Base.Int.{ℤ, pos, negsuc, leb_ℤ}
use async_trading_engine.Base.Dict
use async_trading_engine.Core.Models.{AccountUpdate}
use async_trading_engine.Core.EventBus.{handlers_of, subscribe}
use async_trading_engine.Core.Handlers.{wire, account_push}
use async_trading_engine.Core.Handlers.Margin.{pick_worst_performer-least, openings-account_push}
use async_trading_engine.Data.Symbols.{universe, find_symbol, fx, fx_sector}
use async_trading_engine.Execution.Script.{Script, scripted}
use async_trading_engine.Execution.Client.{Payload}
use async_trading_engine.Execution.Client.Openings.{openings}
use async_trading_engine.Execution.Context.{Bot}
use async_trading_engine.Execution.Close.{pnl_pct_of, pick_from, pick_worst_performer}
use async_trading_engine.Execution.Close.Tests.{position, by_day}
use async_trading_engine.Execution.QuoteScale.{ig_quote_scale, ig_pip_value, value_of, pip_literal}

-- EUR/USD stands at 1.1550, five per cent above its entry, and GBP/USD at 1.0450.
abbrev priced : Bot Fixed (Script (Payload Fixed))
priced = record by_day {
  positions = ("EUR/USD", position) ∷ ("GBP/USD", position) ∷ [];
  latest_close = ("EUR/USD", pos 11_550) ∷ ("GBP/USD", pos 10_450) ∷ [];
}

worst_of_two : pick_worst_performer ("EUR/USD" ∷ "GBP/USD" ∷ []) priced ≡ some "GBP/USD"
unfolding pick_worst_performer pick_from pnl_pct_of Dict.lookup ig_quote_scale ig_pip_value value_of
    pip_literal universe find_symbol fx fx_sector
worst_of_two = refl

number : (x : ℤ) → leb_ℤ x x ≡ true
number (pos n) = ground arith
number (negsuc n) = ground arith

pick_worst_performer-least_example :
    (worst : Fixed) × (pnl_pct_of "GBP/USD" priced ≡ some worst)
    × All
        (λ x.
          (pct : Fixed) → pnl_pct_of x priced ≡ some pct → Float.le fixed_float worst pct ≡ true)
        ("EUR/USD" ∷ "GBP/USD" ∷ [])
pick_worst_performer-least_example =
    pick_worst_performer-least Fixed-IsOrdered priced ("EUR/USD" ∷ "GBP/USD" ∷ []) "GBP/USD"
      ((λ pct h. number pct), ((λ pct h. number pct), tt)) worst_of_two

abbrev push : AccountUpdate Fixed
push = record {
  timestamp = 1;
  equity = whole 1_000;
  margin_required = whole 900;
  available_to_deal = whole 100;
  unrealised_pnl = whole 0;
}

push_opens_nothing :
    openings (account_push scripted push (record { bot = by_day; shutdown_event = false })).bot.net
    ≤ openings by_day.net
push_opens_nothing =
    openings-account_push scripted push (record { bot = by_day; shutdown_event = false })

-- One handler hears of the margin breaker.
wired :
    handlers_of "margin_breaker" (wire (record { subscribers = [] })) ≡ "handle_margin_breaker" ∷ []
unfolding wire subscribe Dict.lookup Dict.insert
wired = refl
