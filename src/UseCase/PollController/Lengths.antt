-- ===== src/UseCase/PollController/Lengths.antt =====
-- Whatever a reader answers, a poll decodes only whole blocks.
use oasis_modbus2mqtt.Prelude.{
  ℕ, ◌≡◌, refl, sym, ap, ◌∙◌, Bool, List, ◌==◌, ==_iff, if◌then◌else◌, Bool-cases, inl, inr, length,
}
use oasis_modbus2mqtt.Prelude.Errors.{Result, ok, err, Sentinel, sentinel, wrap}
use oasis_modbus2mqtt.Prelude.Step.{Step, pure, gets, ◌>>=◌}
use oasis_modbus2mqtt.Prelude.Time.{Time}
use oasis_modbus2mqtt.Port.{Ctx, Reader}
use oasis_modbus2mqtt.Domain.Snapshot.{Snapshot}
use oasis_modbus2mqtt.UseCase.PollController.{
  check_block, read_block, read_three, hot_snapshot, medium_snapshot, slow_snapshot, poll_hot,
  poll_medium, poll_slow,
}
use Prim.Native.String.{String}

-- An answer that is an error is followed by nothing.
bind_inv :
    {S A B : Type 0} (m : Step S A) (f : A → Step S B) (s : S) (b : B)
    → ((m >>= f) s).0 ≡ ok b
    → (a : A) × ((m s).0 ≡ ok a) × ((f a (m s).1).0 ≡ ok b)
bind_inv {S} {A} {B} m f s b h = go (m s).0 refl h
  where
    go :
        (r : Result A)
        → (m s).0 ≡ r
        → (elim r as (λ x. Result B × S) [ ok a ↦ f a (m s).1 | err e ↦ (err e, (m s).1) ]).0 ≡ ok b
        → (a : A) × ((m s).0 ≡ ok a) × ((f a (m s).1).0 ≡ ok b)
    go (ok a) e k = (a, e, k)
    go (err x) e k = cc

ok_inj : {xs ys : List ℕ} → ok xs ≡ ok ys → xs ≡ ys
ok_inj h = cc

snap_inj : {x y : Snapshot} → ok x ≡ ok y → x ≡ y
snap_inj h = cc

check_block-length :
    (label : String) (count : ℕ) (r : Result (List ℕ)) (regs : List ℕ)
    → check_block label count r ≡ ok regs
    → (r ≡ ok regs) × (length regs ≡ count)
unfolding check_block
check_block-length label count (err e) regs h = cc
check_block-length label count (ok xs) regs h =
    let answer = λ (b : Bool).
      (if b then ok xs else err (wrap label (sentinel Sentinel.unexpected_read_length))) in
    elim (Bool-cases (length xs == count)) [
      | inl whole ↦
          let same = ok_inj (sym (ap answer whole) ∙ h) in
          (ap ok same, ap length (sym same) ∙ (==_iff (length xs) count).0 whole)
      | inr short ↦ absurd (cc (sym (ap answer short) ∙ h))
    ]

-- A poll's three reads, begun at `s`, were answered with whole blocks, and the snapshot is what these
-- blocks mean at the time at which the last of them came.
abbrev pub Decodes :
    {S : Type 0}
    → (S → Time)
    → (Step S (List ℕ) × ℕ)
    → (Step S (List ℕ) × ℕ)
    → (Step S (List ℕ) × ℕ)
    → (List ℕ → List ℕ → List ℕ → Time → Snapshot)
    → S
    → Snapshot
    → Type 0
Decodes now (first, m) (second, n) (third, k) decode s snap =
    (a : List ℕ) × (b : List ℕ) × (c : List ℕ) × ((first s).0 ≡ ok a)
    × ((second (first s).1).0 ≡ ok b)
    × ((third (second (first s).1).1).0 ≡ ok c)
    × (length a ≡ m)
    × (length b ≡ n)
    × (length c ≡ k)
    × (snap ≡ decode a b c (now (third (second (first s).1).1).1))

module _ {S : Type 0} (reader : Reader S) (now : S → Time) where
  read_three_inv :
      (x y z : String) (m n k : ℕ) (first second third : Step S (List ℕ))
      (decode : List ℕ → List ℕ → List ℕ → Time → Snapshot) (s : S) (snap : Snapshot)
      → (read_three reader now
          (read_block x m first)
          (read_block y n second)
          (read_block z k third)
          decode
          s).0
        ≡ ok snap
      → Decodes now (first, m) (second, n) (third, k) decode s snap
  unfolding read_three read_block
  read_three_inv x y z m n k first second third decode s snap h =
      let last = λ (a b c : List ℕ). (gets now >>= λ t. pure (decode a b c t)) in
      let from_third = λ (a b : List ℕ). (read_block z k third >>= last a b) in
      let from_second = λ (a : List ℕ). (read_block y n second >>= from_third a) in
      let (a, ra, ha) = bind_inv (read_block x m first) from_second s snap h in
      let (b, rb, hb) = bind_inv (read_block y n second) (from_third a) _ snap ha in
      let (c, rc, hc) = bind_inv (read_block z k third) (last a b) _ snap hb in
      let whole_a = check_block-length x m _ a ra in
      let whole_b = check_block-length y n _ b rb in
      let whole_c = check_block-length z k _ c rc in
      (a, b, c, whole_a.0, whole_b.0, whole_c.0, whole_a.1, whole_b.1, whole_c.1, snap_inj (sym hc))

  -- Whatever the reader answers, a poll that succeeds has asked for its three blocks in order, every
  -- answer was a block of exactly the length that was asked for, so that no index into it is out of
  -- range, and its snapshot is what these answers mean at the time after the last of them.
  pub poll-Decodes :
      (ctx : Ctx) (s : S) (h m l : Snapshot)
      → (poll_hot reader now ctx s).0 ≡ ok h
      → (poll_medium reader now ctx s).0 ≡ ok m
      → (poll_slow reader now ctx s).0 ≡ ok l
      → Decodes now
          (reader.read_input ctx 2 17, 17)
          (reader.read_input ctx 25 6, 6)
          (reader.read_holding ctx 31 2, 2)
          hot_snapshot
          s
          h
        × Decodes now
            (reader.read_input ctx 57 2, 2)
            (reader.read_input ctx 69 2, 2)
            (reader.read_holding ctx 86 1, 1)
            medium_snapshot
            s
            m
        × Decodes now
            (reader.read_input ctx 0 1, 1)
            (reader.read_input ctx 79 1, 1)
            (reader.read_holding ctx 0 1, 1)
            slow_snapshot
            s
            l
  unfolding poll_hot poll_medium poll_slow
  poll-Decodes ctx s h m l eh em el = (
    read_three_inv _ _ _ 17 6 2 _ _ _ hot_snapshot s h eh,
    read_three_inv _ _ _ 2 2 1 _ _ _ medium_snapshot s m em,
    read_three_inv _ _ _ 1 1 1 _ _ _ slow_snapshot s l el,
  )
