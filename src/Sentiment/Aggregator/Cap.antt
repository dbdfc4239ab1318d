-- ===== src/Sentiment/Aggregator/Cap.antt =====
-- The hourly cap on escalations.
use async_trading_engine.Base.{
  ℕ, suc, ◌+◌, ◌≤◌, ◌≡◌, List, [], ◌∷◌, ◌++◌, if◌then◌else◌, leb, length, arith, All, Bool-cases,
  inl, inr, refl, ◌∙◌, sym,
}
use async_trading_engine.Core.Models.{hour_ms}
use async_trading_engine.Sentiment.Aggregator.{drop_expired, try_reserve_escalation_slot}

-- The times of a session that were granted, for the readings of the clock at the requests.
unfoldable pub granted_slots : ℕ → List ℕ → List ℕ → List ℕ → List ℕ
unfolding try_reserve_escalation_slot
granted_slots limit [] times granted = granted
granted_slots limit (now ∷ rest) times granted =
    let (kept, ok) = try_reserve_escalation_slot limit now times in
    granted_slots limit rest kept (if ok then granted ++ now ∷ [] else granted)

-- How many times are at most an hour before `now`.
unfoldable pub count_recent : ℕ → List ℕ → ℕ
count_recent now [] = 0
count_recent now (t ∷ rest) =
    let n = count_recent now rest in if leb now (t + hour_ms) then suc n else n

count_recent-append :
    (later : ℕ) (xs : List ℕ) (t : ℕ)
    → count_recent later (xs ++ t ∷ [])
      ≡ count_recent later xs + (if leb later (t + hour_ms) then 1 else 0)
unfolding count_recent
count_recent-append later [] t = ground arith
count_recent-append later (x ∷ xs) t = ground (arith, count_recent-append later xs t)

length-append_one : (xs : List ℕ) (t : ℕ) → length (xs ++ t ∷ []) ≡ suc (length xs)
length-append_one [] t = ground arith
length-append_one (x ∷ xs) t = ground (arith, length-append_one xs t)

count_recent-le : (later : ℕ) (xs : List ℕ) → count_recent later xs ≤ length xs
unfolding count_recent
count_recent-le later [] = ground arith
count_recent-le later (x ∷ xs) = ground (arith, count_recent-le later xs)

count_recent-drop_expired :
    (now later : ℕ) (xs : List ℕ)
    → now ≤ later
    → count_recent later (drop_expired now xs) ≡ count_recent later xs
unfolding count_recent drop_expired
count_recent-drop_expired now later [] l = ground arith
count_recent-drop_expired now later (x ∷ xs) l =
    ground (arith, l, count_recent-drop_expired now later xs l)

length-drop_expired : (now : ℕ) (xs : List ℕ) → length (drop_expired now xs) ≤ length xs
unfolding drop_expired
length-drop_expired now [] = ground arith
length-drop_expired now (x ∷ xs) = ground (arith, length-drop_expired now xs)

granted_slots-within :
    (limit later : ℕ) (readings times granted : List ℕ)
    → All (λ t. t ≤ later) readings
    → length times ≤ limit
    → count_recent later granted ≡ count_recent later times
    → count_recent later (granted_slots limit readings times granted) ≤ limit
unfolding granted_slots try_reserve_escalation_slot
granted_slots-within limit later [] times granted h l e =
    ground (arith, l, e, count_recent-le later times)
granted_slots-within limit later (now ∷ rest) times granted (n, h) l e =
    let kept = drop_expired now times in
    let same = count_recent-drop_expired now later times n in
    let few = length-drop_expired now times in
    elim (Bool-cases (leb limit (length kept))) [
      | inl full ↦ ground (
        arith,
        full,
        granted_slots-within limit later rest kept granted h (omega (arith, few, l)) (e ∙ sym same),
      )
      | inr free ↦ ground (
        arith,
        free,
        granted_slots-within limit later rest (kept ++ now ∷ []) (granted ++ now ∷ []) h
            (ground (arith, free, length-append_one kept now))
            (ground (
              arith,
              e,
              same,
              count_recent-append later granted now,
              count_recent-append later kept now,
            )),
      )
    ]

-- When every reading of the clock lies at or before a time, at most `escalation_max_per_hour` of the
-- escalations that were granted lie in the hour before it, whatever the session.
pub granted_slots_bound :
    (limit later : ℕ) (readings : List ℕ)
    → All (λ t. t ≤ later) readings
    → count_recent later (granted_slots limit readings [] []) ≤ limit
unfolding count_recent
granted_slots_bound limit later readings h =
    granted_slots-within limit later readings [] [] h (ground arith) refl
