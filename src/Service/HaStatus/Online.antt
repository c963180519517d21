-- ===== src/Service/HaStatus/Online.antt =====
-- Which payloads count as online.
use oasis_modbus2mqtt.Prelude.{
  ℕ, ◌+◌, ◌≡◌, refl, ap, ◌∙◌, Bool, true, some, [], ◌∷◌, ◌++◌, arith, All,
}
use oasis_modbus2mqtt.Prelude.Text.{Text, codes}
use oasis_modbus2mqtt.Prelude.Errors.{Sentinel, sentinel}
use oasis_modbus2mqtt.Port.{Ctx}
use oasis_modbus2mqtt.Prelude.Time.{Time}
use oasis_modbus2mqtt.Service.HaStatus.{normalised, handle_status, ha_status_handler_timeout}
use oasis_modbus2mqtt.Prelude.Text.{lower, to_lower, is_space, trim_left, trim_right, trim_space}

-- A text of white space.
abbrev pub IsBlank : Text → Type 0
IsBlank = All (λ c. is_space c ≡ true)

lower-is_space : (c : ℕ) → is_space c ≡ true → is_space (lower c) ≡ true
lower-is_space c h = ground arith

trim_left-blank : (blank s : Text) → IsBlank blank → trim_left (blank ++ s) ≡ trim_left s
unfolding trim_left
trim_left-blank [] s h = refl
trim_left-blank (c ∷ b) s h = rw h.0 (trim_left-blank b s h.1)

trim_right-blank : (blank : Text) → IsBlank blank → trim_right blank ≡ []
unfolding trim_right
trim_right-blank [] h = refl
trim_right-blank (c ∷ b) h = rw (trim_right-blank b h.1) (rw h.0 refl)

to_lower-append : (s t : Text) → to_lower (s ++ t) ≡ to_lower s ++ to_lower t
unfolding to_lower
to_lower-append [] t = refl
to_lower-append (c ∷ s) t = ap (λ r. lower c ∷ r) (to_lower-append s t)

to_lower-IsBlank : (blank : Text) → IsBlank blank → IsBlank (to_lower blank)
unfolding to_lower
to_lower-IsBlank [] h = tt
to_lower-IsBlank (c ∷ b) h = (lower-is_space c h.0, to_lower-IsBlank b h.1)

trimmed_online :
    (t : Text) → trim_right t ≡ [] → trim_right (trim_left (codes "online" ++ t)) ≡ codes "online"
unfolding trim_left trim_right
trimmed_online t h = rw (trim_right, h) refl

normalised-online :
    (before word after : Text)
    → IsBlank before
    → to_lower word ≡ codes "online"
    → IsBlank after
    → normalised (before ++ (word ++ after)) ≡ codes "online"
unfolding normalised trim_space
normalised-online before word after h e k =
    let lowered =
      to_lower-append before (word ++ after)
      ∙ ap (λ t. to_lower before ++ t)
          (to_lower-append word after ∙ ap (λ w. w ++ to_lower after) e) in
    ap (λ t. trim_right (trim_left t)) lowered
    ∙ ap trim_right (
        trim_left-blank (to_lower before) (codes "online" ++ to_lower after)
          (to_lower-IsBlank before h))
    ∙ trimmed_online (to_lower after) (trim_right-blank (to_lower after) (to_lower-IsBlank after k))

-- The callback runs, and nothing else happens, for the word online in any case and with any white
-- space around it; it has ten seconds.
pub online_calls :
    {S : Type 0} (callback : Ctx → S → S) (prefer_done : Bool) (now : S → Time)
    (before word after : Text) (s : S)
    → IsBlank before
    → to_lower word ≡ codes "online"
    → IsBlank after
    → handle_status (some callback) prefer_done now (before ++ (word ++ after)) s
      ≡ callback
          (record {
            done_at = some (now s + ha_status_handler_timeout);
            cause = sentinel Sentinel.deadline_exceeded;
            prefer_done = prefer_done;
          })
          s
unfolding handle_status
online_calls callback prefer_done now before word after s h e k =
    rw (normalised-online before word after h e k) refl
