-- ===== src/Risk/Manager/Gates/Concentration.antt =====
-- The dict of risks per sector against a plain sum over the positions of one sector.
use async_trading_engine.Base.{◌≡◌, refl, [], ◌∷◌, String, arith, if◌then◌else◌}
use async_trading_engine.Base.Dict
use async_trading_engine.Base.Dict.{Dict, same_key, same_key_iff}
use async_trading_engine.Base.Float.{Float}
use async_trading_engine.Core.Models.{Position}
use async_trading_engine.Risk.Budgets.{RiskBudgetLedger, live_risk_gbp}
use async_trading_engine.Risk.Sectors.{sector_for}
use async_trading_engine.Risk.Manager.State.{RiskManager}
use async_trading_engine.Risk.Manager.Gates.{fill_sector_risk, existing_sector_risk}

-- The positions whose EPIC is in `sector`, in order.
in_sector : {F : Type 0} → String → Dict (Position F) → Dict (Position F)
in_sector sector [] = []
in_sector sector ((epic, p) ∷ rest) =
    let others = in_sector sector rest in
    if same_key (sector_for epic) sector then (epic, p) ∷ others else others

module _ {F : Type 0} ⦃d : Float F⦄ where
  open d use {zero, add}

  -- The live risks of `positions`, added to `acc` one after the other.
  unfoldable add_risks : RiskBudgetLedger F → F → Dict (Position F) → F
  add_risks l acc [] = acc
  add_risks l acc ((epic, p) ∷ rest) = add_risks l (add acc (live_risk_gbp l epic p)) rest

  fill_sector_risk-sum :
      (l : RiskBudgetLedger F) (sector : String) (positions : Dict (Position F)) (risk : Dict F)
      → Dict.get_or sector zero (fill_sector_risk l risk positions)
        ≡ add_risks l (Dict.get_or sector zero risk) (in_sector sector positions)
  unfolding fill_sector_risk add_risks in_sector
  fill_sector_risk-sum l sector [] risk = refl
  fill_sector_risk-sum l sector ((epic, p) ∷ rest) risk =
      let here = sector_for epic in
      let grown = add (Dict.get_or here zero risk) (live_risk_gbp l epic p) in
      ground (
        arith,
        fill_sector_risk-sum l sector rest (Dict.insert here grown risk),
        Dict.lookup-insert here sector grown risk,
        same_key_iff here sector,
      )

  -- The open risk of the sector of `epic` is the sum of the live risks of the positions in that
  -- sector, added in the order of the positions.
  existing_sector_risk-sum :
      (m : RiskManager F) (epic : String)
      → existing_sector_risk m epic
        ≡ add_risks m.budget_ledger zero (in_sector (sector_for epic) m.open_positions)
  unfolding existing_sector_risk Dict.lookup
  existing_sector_risk-sum m epic =
      fill_sector_risk-sum m.budget_ledger (sector_for epic) m.open_positions []
