-- ===== src/Sentiment.antt =====
-- src/bot/sentiment/models.py: what an agent says of an asset, and what the agents come to together.
-- The times of the signals are left out.
pub mod Aggregator
pub mod Engine
use async_trading_engine.Base.{Bool, List, String}
use async_trading_engine.Base.Dict.{Dict}

pub record RawSignal (F : Type 0) : Type 0 where
  pub asset : String
  pub sentiment : F
  pub confidence : F
  pub reasoning : String
  pub source : String

-- `reasoning` holds the texts that are joined, before the cut to 500 characters.
pub record ConsensusSignal (F : Type 0) : Type 0 where
  pub asset : String
  pub sentiment : F
  pub confidence : F
  pub agreement : F
  pub sources : List String
  pub escalated : Bool
  pub reasoning : List String
  pub per_agent : Dict F
