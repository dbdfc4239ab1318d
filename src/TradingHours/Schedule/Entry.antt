-- ===== src/TradingHours/Schedule/Entry.antt =====
-- The check before an entry against the schedule and against the window of unreliable marks.
use async_trading_engine.Base.{
  ℕ, ◌+◌, ◌*◌, ◌≤◌, ◌<◌, ◌≡◌, ◌↔◌, ◌⊎◌, inl, inr, true, some, String, arith,
}
use async_trading_engine.Data.Symbols.{forex, metal}
use async_trading_engine.TradingHours.Schedule.{
  hm, class_of, is_market_open, in_entry_buffer, is_safe_for_entry, in_equity_mark_blackout,
}

-- While equity marks are ignored, a currency pair is safe for entry exactly when its market is open
-- and it is 22:10 or later, and a metal exactly when its market is open and it is before 21:55.
pub is_safe_for_entry-in_blackout :
    (symbol : String) (dt : ℕ)
    → in_equity_mark_blackout dt ≡ true
    → (class_of symbol ≡ some forex) ⊎ (class_of symbol ≡ some metal)
    → (is_safe_for_entry symbol dt ≡ true) ↔ (
        (is_market_open symbol dt ≡ true)
        × ((class_of symbol ≡ some forex) × (22 * 60 + 10 ≤ hm dt)
            ⊎ (class_of symbol ≡ some metal) × (hm dt < 21 * 60 + 55)))
unfolding is_safe_for_entry in_equity_mark_blackout in_entry_buffer
is_safe_for_entry-in_blackout symbol dt h (inl c) = rw c (ground (arith, h, c))
is_safe_for_entry-in_blackout symbol dt h (inr c) = rw c (ground (arith, h, c))
