-- ===== src/UseCase/PublishDiscovery/Changes.antt =====
-- When the discovery configs are published again.
use mathlib.Core.Path.{subst}
use oasis_modbus2mqtt.Prelude.{
  ℕ, ◌≡◌, refl, sym, ap, ◌∙◌, inl, inr, Bool, true, false, not, ◌&&◌, List, [], ◌∷◌, arith,
  if◌then◌else◌, Bool-cases,
}
use oasis_modbus2mqtt.Prelude.Text.{Text, text_eq}
use oasis_modbus2mqtt.Prelude.Errors.{Result, ok}
use oasis_modbus2mqtt.Port.{Ctx}
use oasis_modbus2mqtt.UseCase.Publish.{Publisher, Message}
use oasis_modbus2mqtt.UseCase.PublishDiscovery.{
  Discovery, publish_built, publish_discovery, publish_if_changed,
}

text_eq_refl : (s : Text) → text_eq s s ≡ true
text_eq_refl [] = refl
text_eq_refl (c ∷ s) = ground (arith, text_eq_refl s)

text_eq_sound : (s t : Text) → text_eq s t ≡ true → s ≡ t
text_eq_sound [] [] h = refl
text_eq_sound [] (d ∷ t) h = cc
text_eq_sound (c ∷ s) [] h = cc
text_eq_sound (c ∷ s) (d ∷ t) h = ground (arith, text_eq_sound s t)

and_left : (a b : Bool) → (a && b) ≡ true → a ≡ true
and_left true b h = refl
and_left false b h = h

module _ {S : Type 0} (build : Text → Result (List Message)) (publish : Publisher S) where
  abbrev known : Text → Discovery S → Bool
  known firmware d = text_eq firmware d.last_firmware && not (text_eq d.last_firmware [])

  skips :
      (ctx : Ctx) (c : ℕ) (label : Text) (d : Discovery S)
      → d.last_firmware ≡ c ∷ label
      → publish_if_changed build publish ctx (c ∷ label) d ≡ ([], d)
  unfolding publish_if_changed
  skips ctx c label d h =
      let test : known (c ∷ label) d ≡ true =
        subst (λ l. (text_eq (c ∷ label) l && not (text_eq l [])) ≡ true) (sym h)
          (ap (λ b. b && true) (text_eq_refl (c ∷ label))) in
      ap (λ b. if b then ([], d) else publish_discovery build publish ctx (c ∷ label) d) test

  remembers :
      (ctx : Ctx) (c : ℕ) (label : Text) (configs : List Message) (d : Discovery S)
      → build (c ∷ label) ≡ ok configs
      → (publish_if_changed build publish ctx (c ∷ label) d).1.last_firmware ≡ c ∷ label
  unfolding publish_if_changed publish_discovery publish_built
  remembers ctx c label configs d h = elim (Bool-cases (known (c ∷ label) d)) [
    | inl same ↦
        ap
          (λ b.
            (if b
              then ([], d)
              else publish_discovery build publish ctx (c ∷ label) d).1.last_firmware)
          same
        ∙ sym (text_eq_sound (c ∷ label) d.last_firmware (and_left _ _ same))
    | inr new ↦
        ap
          (λ b.
            (if b
              then ([], d)
              else publish_discovery build publish ctx (c ∷ label) d).1.last_firmware)
          new
        ∙ ap (λ r. (publish_built build publish ctx (c ∷ label) r d).1.last_firmware) h
  ]

  -- Once a firmware label that is not empty was given and its configs could be built, they are not
  -- published again for the same label, however many of the first publications have failed.
  pub publish_if_changed_twice :
      (ctx again : Ctx) (c : ℕ) (label : Text) (configs : List Message) (d : Discovery S)
      → build (c ∷ label) ≡ ok configs
      → publish_if_changed build publish again
          (c ∷ label)
          (publish_if_changed build publish ctx (c ∷ label) d).1
        ≡ ([], (publish_if_changed build publish ctx (c ∷ label) d).1)
  publish_if_changed_twice ctx again c label configs d h =
      skips again c label _ (remembers ctx c label configs d h)
