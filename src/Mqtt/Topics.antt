-- ===== src/Mqtt/Topics.antt =====
-- infrastructure/mqtt/topic.go: the topics of a device.
use oasis_modbus2mqtt.Prelude.{ℕ, ◌≡◌, ◌≢◌, ap, [], ◌∷◌, ◌++◌, ◌↔◌, arith}
use oasis_modbus2mqtt.Prelude.Text.{Text, codes}

pub record TopicBuilder : Type 0 where
  pub discovery_prefix : Text
  pub device_prefix : Text

unfoldable pub discovery_topic : TopicBuilder → Text → Text → Text
discovery_topic b component object_id =
    b.discovery_prefix
    ++ (codes "/"
        ++ (component
            ++ (codes "/" ++ (b.device_prefix ++ (codes "/" ++ (object_id ++ codes "/config"))))))

unfoldable pub state_topic : TopicBuilder → Text → Text
state_topic b object_id = b.device_prefix ++ (codes "/state/" ++ object_id)

unfoldable pub command_topic : TopicBuilder → Text → Text
command_topic b object_id = b.device_prefix ++ (codes "/cmd/" ++ object_id)

unfoldable pub command_wildcard : TopicBuilder → Text
command_wildcard b = b.device_prefix ++ codes "/cmd/+"

unfoldable pub availability_topic : TopicBuilder → Text
availability_topic b = b.device_prefix ++ codes "/availability"

∷_inj : {c d : ℕ} {s t : Text} → c ∷ s ≡ d ∷ t → s ≡ t
∷_inj h = cc

pub append_cancel : (p s t : Text) → p ++ s ≡ p ++ t → s ≡ t
append_cancel [] s t h = h
append_cancel (c ∷ p) s t h = append_cancel p s t (∷_inj h)

∷_head : {c d : ℕ} {s t : Text} → c ∷ s ≡ d ∷ t → c ≡ d
∷_head h = cc

state_end : {x y : Text} → codes "/state/" ++ x ≡ codes "/state/" ++ y → x ≡ y
state_end {x} {y} h = append_cancel (codes "/state/") x y h

command_end : {x y : Text} → codes "/cmd/" ++ x ≡ codes "/cmd/" ++ y → x ≡ y
command_end {x} {y} h = append_cancel (codes "/cmd/") x y h

apart : (p s t : Text) → (c d : ℕ) → c ≢ d → p ++ (b'/' ∷ c ∷ s) ≢ p ++ (b'/' ∷ d ∷ t)
apart p s t c d differ h = differ (∷_head (∷_inj (append_cancel p _ _ h)))

-- Of one device, two objects have the same state topic only if they are the same, and likewise for
-- command topics; no state topic is a command topic, and neither is the availability topic.
pub topics_apart :
    (b : TopicBuilder) (x y : Text)
    → ((state_topic b x ≡ state_topic b y) ↔ (x ≡ y))
      × ((command_topic b x ≡ command_topic b y) ↔ (x ≡ y))
      × (state_topic b x ≢ command_topic b y)
      × (state_topic b x ≢ availability_topic b)
      × (command_topic b x ≢ availability_topic b)
unfolding state_topic command_topic availability_topic
topics_apart b x y = (
  (λ h. state_end (append_cancel b.device_prefix _ _ h), λ h. ap (state_topic b) h),
  (λ h. command_end (append_cancel b.device_prefix _ _ h), λ h. ap (command_topic b) h),
  apart b.device_prefix _ _ b's' b'c' (λ e. omega (arith, e)),
  apart b.device_prefix _ _ b's' b'a' (λ e. omega (arith, e)),
  apart b.device_prefix _ _ b'c' b'a' (λ e. omega (arith, e)),
)
