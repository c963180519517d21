-- ===== src/Service/Poller/Tiers.antt =====
-- application/service/poller.go: Start, with the goroutines of its three tiers. What happens to a
-- goroutine of runTier is a step: its poll ends, its ticker fires, its context is done.
pub mod Ends
use oasis_modbus2mqtt.Prelude.{
  ℕ, ◌≡◌, Bool, true, false, Option, none, some, List, [], ◌∷◌, if◌then◌else◌,
}
use oasis_modbus2mqtt.Prelude.Errors.{Result}
use oasis_modbus2mqtt.Prelude.Time.{Time}
use oasis_modbus2mqtt.Prelude.Step.{Step}
use oasis_modbus2mqtt.Port.{Ctx}
use oasis_modbus2mqtt.Domain.Snapshot.{Snapshot}
use oasis_modbus2mqtt.Service.Poller.{Tier, Poller, polled, subscribe, ctx_done}
use oasis_modbus2mqtt.Service.Poller.Latest.{same}

-- A goroutine is in `fn(ctx)`, where it starts; in its `select`; or it has returned.
pub data Phase : Type 0 where
  polling waiting returned : Phase

-- The poller, its goroutines, whether `done` is closed, and the outcomes of all polls that have
-- ended, the newest first.
pub record Tiers (S : Type 0) : Type 0 where
  pub poller : Poller S
  pub phase : Tier → Phase
  pub done : Bool
  pub outcomes : List (Tier × Result Snapshot)

module _ {S : Type 0} where
  -- `Start`
  unfoldable pub start_tiers : Poller S → Tiers S
  start_tiers p = record { poller = p; phase = λ u. polling; done = false; outcomes = [] }

  unfoldable pub turn : Tier → Phase → Tiers S → Tiers S
  turn tier next s = record s { phase = λ u. if same tier u then next else s.phase u }

  -- `wg.Wait()` returns, and `close(p.done)` follows.
  unfoldable pub close_done : Tiers S → Tiers S
  close_done s = record s { done = true }

  unfoldable pub add_subscriber : Option (Snapshot → S → S) → Tiers S → Tiers S
  add_subscriber cb s = record s { poller = subscribe cb s.poller }

module _ {S : Type 0} (poll : Tier → Ctx → Step S Snapshot) (now : S → Time) (ctx : Ctx) where
  -- The rest of `doPoll`, with the outcome of `fn(ctx)` and the world that it comes in.
  unfoldable pub deliver : Tier → Result Snapshot × S → Tiers S → Tiers S
  unfolding turn
  deliver tier r s = turn tier waiting (record s {
    poller = polled poll now ctx tier r s.poller;
    outcomes = (tier, r.0) ∷ s.outcomes;
  })

  pub data Happens (s t : Tiers S) : Type 0 where
    delivers :
        (tier : Tier) (r : Result Snapshot × S)
        → s.phase tier ≡ polling
        → t ≡ deliver tier r s
        → Happens s t
    ticks : (tier : Tier) → s.phase tier ≡ waiting → t ≡ turn tier polling s → Happens s t
    returns :
        (tier : Tier) (at : Time)
        → s.phase tier ≡ waiting
        → ctx_done ctx at ≡ true
        → t ≡ turn tier returned s
        → Happens s t
    subscribes : (cb : Option (Snapshot → S → S)) → t ≡ add_subscriber cb s → Happens s t
    closes : ((tier : Tier) → s.phase tier ≡ returned) → t ≡ close_done s → Happens s t

  pub data Run (p : Poller S) : Tiers S → Type 0 where
    started : Run p (start_tiers p)
    next : {s t : Tiers S} → Run p s → Happens s t → Run p t
