-- ===== src/UseCase/Publish.antt =====
-- The loop that application/usecase/publish_state.go and publish_discovery.go share, over the
-- publishing half of application/port/mqtt_publisher.go. `errors.Join` is the list of the errors;
-- no error is none.
use oasis_modbus2mqtt.Prelude.{
  ℕ, ◌+◌, ◌≡◌, refl, Bool, true, Option, none, some, List, [], ◌∷◌, arith, length,
}
use oasis_modbus2mqtt.Prelude.Text.{Text}
use oasis_modbus2mqtt.Prelude.Errors.{Error, wrap}
use Prim.Native.String.{String}
use oasis_modbus2mqtt.Port.{Ctx}

-- `Publish(ctx, topic, payload, retained)`
abbrev pub Publisher : Type 0 → Type 0
Publisher S = Ctx → Text → Text → Bool → S → Option Error × S

pub record Message : Type 0 where
  pub topic : Text
  pub payload : Text

-- What is joined of one answer and of those behind it.
abbrev pub join_error : String → Option Error → List Error → List Error
join_error context none es = es
join_error context (some e) es = wrap context e ∷ es

-- Publishes every message, retained, and goes on behind a failure.
unfoldable pub publish_each :
    {S : Type 0} → String → Publisher S → Ctx → List Message → S → List Error × S
publish_each context publish ctx [] s = ([], s)
publish_each context publish ctx (m ∷ ms) s =
    let (o, t) = publish ctx m.topic m.payload true s in
    let (es, u) = publish_each context publish ctx ms t in (join_error context o es, u)

-- A broker that gives the n-th request the answer `respond n`; it keeps the requests, newest first.
pub record Broker : Type 0 where
  pub asked : List (Text × Text × Bool)
  pub refused : ℕ

abbrev refusal : Option Error → ℕ
refusal none = 0
refusal (some e) = 1

unfoldable pub broker_publisher : (ℕ → Option Error) → Publisher Broker
broker_publisher respond ctx topic payload retained b = (
  respond (length b.asked),
  record {
    asked = (topic, payload, retained) ∷ b.asked;
    refused = b.refused + refusal (respond (length b.asked));
  },
)

-- The requests that publish messages in order, on top of those before.
abbrev pub requests : List Message → List (Text × Text × Bool) → List (Text × Text × Bool)
requests [] before = before
requests (m ∷ ms) before = requests ms ((m.topic, m.payload, true) ∷ before)

length-join_error :
    (context : String) (o : Option Error) (es : List Error)
    → length (join_error context o es) ≡ refusal o + length es
length-join_error context none es = omega arith
length-join_error context (some e) es = omega arith

-- Every message is asked for once, retained and in order, whichever of them are refused, and there
-- are as many errors as refusals.
pub publish_each-requests :
    (context : String) (respond : ℕ → Option Error) (ctx : Ctx) (ms : List Message) (b : Broker)
    → ((publish_each context (broker_publisher respond) ctx ms b).1.asked ≡ requests ms b.asked)
      × (b.refused + length (publish_each context (broker_publisher respond) ctx ms b).0
          ≡ (publish_each context (broker_publisher respond) ctx ms b).1.refused)
unfolding publish_each broker_publisher
publish_each-requests context respond ctx [] b = (refl, omega arith)
publish_each-requests context respond ctx (m ∷ ms) b =
    let rest =
      publish_each-requests context respond ctx ms
        (broker_publisher respond ctx m.topic m.payload true b).1 in
    (
      rest.0,
      omega (
        arith,
        rest.1,
        length-join_error context (respond (length b.asked))
            (publish_each context (broker_publisher respond) ctx ms
              (broker_publisher respond ctx m.topic m.payload true b).1).0,
      ),
    )
