-- ===== src/Mqtt/Client/Overlap/Restored.antt =====
-- However the steps of `Subscribe` and `onConnect` interleave, the subscriptions come back.
use oasis_modbus2mqtt.Prelude.{
  ◌≡◌, refl, sym, ap, ◌∙◌, ◌⊎◌, inl, inr, Bool, true, false, not, ◌||◌, some, List, [], ◌∷◌, ◌++◌,
  arith, if◌then◌else◌, Bool-cases, Among,
}
use mathlib.Core.Path.{subst}
use oasis_modbus2mqtt.Prelude.Text.{Text, text_eq}
use oasis_modbus2mqtt.Prelude.Dict.{lookup, lookup-insert, eq_of_text_eq}
use oasis_modbus2mqtt.Mqtt.Client.{
  MessageHandler, make_paho_handler, Subscriptions, on_connection_lost, set_mqtt_connected,
}
use oasis_modbus2mqtt.Mqtt.Topics.{TopicBuilder}
use oasis_modbus2mqtt.Mqtt.Client.Overlap.{
  Overlap, store, raise_flag, build_client, copy, ask, lose, Step, builds, stores, raises, copies,
  asks, loses, Run, begin, then_step,
}

-- The loop of `onConnect` meets what the registry has for each topic.
abbrev pub Visits : {X : Type 0} → (Subscriptions X → Subscriptions X) → Type 0
Visits {X} order =
    (subs : Subscriptions X) (t : Text) (h : MessageHandler X)
    → lookup t subs ≡ some h
    → Among (t, h) (order subs)

module _ {A : Type 0} where
  Among-left : (x : A) (xs ys : List A) → Among x xs → Among x (xs ++ ys)
  Among-left x [] ys h = absurd h
  Among-left x (z ∷ xs) ys (inl e) = inl e
  Among-left x (z ∷ xs) ys (inr h) = inr (Among-left x xs ys h)

  Among-split :
      (before : List A) (y : A) (after : List A) (x : A)
      → Among x (before ++ (y ∷ after))
      → (y ≡ x) ⊎ Among x (before ++ after)
  Among-split [] y after x h = h
  Among-split (z ∷ before) y after x (inl e) = inr (inl e)
  Among-split (z ∷ before) y after x (inr h) = elim (Among-split before y after x h) [
    | inl e ↦ inl e
    | inr k ↦ inr (inr k)
  ]

both_up : (up built : Bool) → up ≡ true → built ≡ true → (not up || not built) ≡ false
both_up up built e f = ground arith

same_some : {A : Type 0} (a b : A) → some a ≡ some b → a ≡ b
same_some a b e = cc

module _ {X : Type 0} where
  abbrev Covered : Overlap X → Text → MessageHandler X → Type 0
  Covered o t h = Among (t, make_paho_handler h) o.client.world.asked ⊎ Among (t, h) o.pending

  record IsCovered (o : Overlap X) : Type 0 where
    built : o.client.connected ≡ true → o.client.built ≡ true
    covered :
        (t : Text) (h : MessageHandler X)
        → o.client.connected ≡ true
        → o.copied ≡ true
        → lookup t o.client.subs ≡ some h
        → Covered o t h

  store-IsCovered :
      (topic : Text) (handler : MessageHandler X) (o : Overlap X)
      → IsCovered o
      → IsCovered (store topic handler o)
  unfolding store
  store-IsCovered topic handler o v = record {
    built = v.built;
    covered = λ t h up copied found.
        rw (both_up o.client.connected o.client.built up (v.built up))
          (stored t h up copied (sym (lookup-insert topic t handler o.client.subs) ∙ found));
  }
    where
      stored :
          (t : Text) (h : MessageHandler X)
          → o.client.connected ≡ true
          → o.copied ≡ true
          → (if text_eq topic t then some handler else lookup t o.client.subs) ≡ some h
          → Among (t, make_paho_handler h) o.client.world.asked
            ⊎ Among (t, h) ((topic, handler) ∷ o.pending)
      stored t h up copied found = elim (Bool-cases (text_eq topic t)) [
        | inl same ↦ inr (
            inl (
              ap (λ (s : Text). (s, handler)) (eq_of_text_eq topic t same)
              ∙ ap (λ (g : MessageHandler X). (t, g))
                  (same_some handler h (
                    sym (ap (λ (b : Bool). if b then some handler else lookup t o.client.subs) same)
                    ∙ found))))
        | inr differ ↦
            elim (v.covered t h up copied (
              sym (ap (λ (b : Bool). if b then some handler else lookup t o.client.subs) differ)
              ∙ found)) [ inl a ↦ inl a | inr b ↦ inr (inr b) ]
      ]

  raise-IsCovered : (o : Overlap X) → o.client.built ≡ true → IsCovered (raise_flag o)
  unfolding raise_flag set_mqtt_connected
  raise-IsCovered o b = record { built = λ e. b; covered = λ t h up copied found. cc }

  build-IsCovered : (o : Overlap X) → IsCovered o → IsCovered (build_client o)
  unfolding build_client
  build-IsCovered o v = record { built = λ e. refl; covered = v.covered }

  lose-IsCovered : (o : Overlap X) → IsCovered (lose o)
  unfolding lose on_connection_lost set_mqtt_connected
  lose-IsCovered o = record { built = λ e. cc; covered = λ t h up copied found. cc }

  ask-IsCovered :
      (before : Subscriptions X) (entry : Text × MessageHandler X) (after : Subscriptions X)
      (o : Overlap X)
      → o.pending ≡ before ++ (entry ∷ after)
      → IsCovered o
      → IsCovered (ask entry (before ++ after) o)
  unfolding ask
  ask-IsCovered before entry after o e v = record {
    built = v.built;
    covered = λ t h up copied found. elim (v.covered t h up copied found) [
      | inl asked ↦ inl (inr asked)
      | inr pending ↦
          elim (Among-split before entry after (t, h) (subst (Among (t, h)) e pending)) [
            | inl same ↦
                inl (inl (ap (λ (x : Text × MessageHandler X). (x.0, make_paho_handler x.1)) same))
            | inr other ↦ inr other
          ]
    ];
  }

  module _ (topics : TopicBuilder) (order : Subscriptions X → Subscriptions X)
      (visits : Visits order) where
    copy-IsCovered : (o : Overlap X) → IsCovered o → IsCovered (copy topics order o)
    unfolding copy
    copy-IsCovered o v = record {
      built = v.built;
      covered = λ t h up copied found.
          inr (Among-left (t, h) (order o.client.subs) o.pending (visits o.client.subs t h found));
    }

    Step-IsCovered : {o p : Overlap X} → Step topics order o p → IsCovered o → IsCovered p
    Step-IsCovered {o} (builds e) v = subst IsCovered (sym e) (build-IsCovered o v)
    Step-IsCovered {o} (stores topic handler e) v =
        subst IsCovered (sym e) (store-IsCovered topic handler o v)
    Step-IsCovered {o} (raises b e) v = subst IsCovered (sym e) (raise-IsCovered o b)
    Step-IsCovered {o} (copies e) v = subst IsCovered (sym e) (copy-IsCovered o v)
    Step-IsCovered {o} (asks before entry after f e) v =
        subst IsCovered (sym e) (ask-IsCovered before entry after o f v)
    Step-IsCovered {o} (loses e) v = subst IsCovered (sym e) (lose-IsCovered o)

    Run-IsCovered : {o : Overlap X} → Run topics order o → IsCovered o
    Run-IsCovered (begin c down) = record { built = λ e. cc; covered = λ t h up copied found. cc }
    Run-IsCovered (then_step r s) = Step-IsCovered s (Run-IsCovered r)

    -- However the parts of `Subscribe`, `Connect`, `onConnect` and `onConnectionLost` interleave: while
    -- the client is connected, and `onConnect` has copied the registry, the broker has been asked in
    -- this session for the handler that the registry has for a topic, or a call still has that request
    -- to make; so once no request is left, it has been asked for all of them.
    pub overlap_restores :
        (o : Overlap X)
        → Run topics order o
        → o.client.connected ≡ true
        → o.copied ≡ true
        → o.pending ≡ []
        → (t : Text) (h : MessageHandler X) → lookup t o.client.subs ≡ some h
        → Among (t, make_paho_handler h) o.client.world.asked
    overlap_restores o r up copied idle t h found =
        elim ((Run-IsCovered r).covered t h up copied found) [
          | inl asked ↦ asked
          | inr pending ↦ absurd (subst (Among (t, h)) idle pending)
        ]
