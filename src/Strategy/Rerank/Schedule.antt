-- ===== src/Strategy/Rerank/Schedule.antt =====
-- The deadlines of `topk_rerank_loop` in src/bot/strategy/rerank_runner.py. Times of the monotonic
-- clock are natural numbers, and so is the interval; a sleep ends when its time is over.
use async_trading_engine.Base.{
  ℕ, zero, suc, ◌+◌, ◌-◌, ◌/◌, ◌≤◌, ◌≡◌, refl, List, [], ◌∷◌, arith, if◌then◌else◌, leb, eqb,
  Option, none, some, All, length, ◌∙◌, inl, inr, Bool-cases,
}

-- What follows a pass: the next deadline, how many reranks were missed, and the sleep.
pub record Tick : Type 0 where
  pub next_rerank_at : ℕ
  pub missed : ℕ
  pub sleep_for : ℕ

-- The end of the loop's body, at the time `now`. The count of the missed reranks divides by the
-- interval: `none` is the `ZeroDivisionError`, which ends the loop.
unfoldable pub after_pass : ℕ → ℕ → ℕ → Option Tick
after_pass interval now next_rerank_at =
    let next = next_rerank_at + interval in
    if leb next now
    then if eqb interval 0
      then none
      else some
          (record { next_rerank_at = now; missed = (now - next) / interval + 1; sleep_for = 0 })
    else some (record { next_rerank_at = next; missed = 0; sleep_for = next - now })

-- When the passes of the loop start, for how long each takes.
unfoldable pub pass_starts : ℕ → ℕ → ℕ → List ℕ → List ℕ
unfolding after_pass
pass_starts interval now next_rerank_at [] = []
pass_starts interval now next_rerank_at (took ∷ rest) =
    now ∷ elim (after_pass interval (now + took) next_rerank_at) [
      | none ↦ []
      | some tick ↦ pass_starts interval (now + took + tick.sleep_for) tick.next_rerank_at rest
    ]

-- A pass starts an interval after the start of the one before, or at its end if that is later.
unfoldable pub spaced_starts : ℕ → ℕ → List ℕ → List ℕ
spaced_starts interval now [] = []
spaced_starts interval now (took ∷ rest) =
    now ∷ spaced_starts interval (now + (if leb interval took then took else interval)) rest

-- The times `now`, `now + interval`, and so on.
unfoldable pub ticks : ℕ → ℕ → ℕ → List ℕ
ticks interval now zero = []
ticks interval now (suc n) = now ∷ ticks interval (now + interval) n

-- A loop with an interval above zero whose first deadline is its start starts each pass an interval
-- after the start of the pass before, or as soon as that one ends when it took longer: missed
-- deadlines do not pile up, and no tick of the old grid is waited for.
pub pass_starts-spaced :
    (interval now : ℕ) (took : List ℕ)
    → 1 ≤ interval
    → pass_starts interval now now took ≡ spaced_starts interval now took
unfolding pass_starts after_pass spaced_starts
pass_starts-spaced interval now [] l = refl
pass_starts-spaced interval now (t ∷ rest) l = elim (Bool-cases (leb interval t)) [
  | inl h ↦ ground (arith, h, l, pass_starts-spaced interval (now + t) rest)
  | inr h ↦ ground (arith, h, l, pass_starts-spaced interval (now + interval) rest)
]

-- With an interval of zero, the loop ends after its first pass.
pub pass_starts-zero : (now t : ℕ) (rest : List ℕ) → pass_starts 0 now now (t ∷ rest) ≡ now ∷ []
unfolding pass_starts after_pass
pass_starts-zero now t rest = ground arith

-- When no pass takes longer than an interval above zero, the passes start on a grid without drift.
pass_starts-ticks :
    (interval now : ℕ) (took : List ℕ)
    → 1 ≤ interval
    → All (λ t. t ≤ interval) took
    → pass_starts interval now now took ≡ ticks interval now (length took)
unfolding ticks spaced_starts
pass_starts-ticks interval now took p h =
    pass_starts-spaced interval now took p ∙ on_grid now took h
  where
    on_grid :
        (now : ℕ) (took : List ℕ)
        → All (λ t. t ≤ interval) took
        → spaced_starts interval now took ≡ ticks interval now (length took)
    on_grid now [] h = refl
    on_grid now (t ∷ rest) (l, h) = ground (arith, l, on_grid (now + interval) rest h)
