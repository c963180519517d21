-- ===== src/UseCase/PollController/Groups.antt =====
-- The catalog against the registers that are polled.
use oasis_modbus2mqtt.Prelude.{ℕ, ◌≡◌, All}
use oasis_modbus2mqtt.Prelude.Errors.{ok}
use oasis_modbus2mqtt.Port.{Ctx, Reader}
use oasis_modbus2mqtt.Prelude.Time.{Time}
use oasis_modbus2mqtt.Domain.Register.{RegisterKind}
use oasis_modbus2mqtt.Domain.Catalog.{registers_by_group}
use oasis_modbus2mqtt.Domain.Catalog.Entry.{PollGroup, hot_group, medium_group, slow_group}
use oasis_modbus2mqtt.Service.Poller.{Tier, hot, medium, slow}
use oasis_modbus2mqtt.UseCase.PollController.{
  hot_snapshot, medium_snapshot, slow_snapshot, poll_hot, poll_medium, poll_slow, read_three,
  read_block, check_block,
}
use oasis_modbus2mqtt.UseCase.PollController.Bank.{window}
use oasis_modbus2mqtt.UseCase.PollController.View.{poll_fns}

-- A reader of registers that keep still, and change nothing else.
abbrev pub bank_reader : {S : Type 0} → (ℕ → ℕ) → (ℕ → ℕ) → Reader S
bank_reader input holding = record {
  read_input = λ ctx start count s. (ok (window input start count), s);
  read_holding = λ ctx start count s. (ok (window holding start count), s);
}

abbrev pub group_of : Tier → PollGroup
group_of hot = hot_group
group_of medium = medium_group
group_of slow = slow_group

-- The value of the register that an entry is about.
abbrev pub value_of : (ℕ → ℕ) → (ℕ → ℕ) → RegisterKind → ℕ → ℕ
value_of input holding RegisterKind.input addr = input addr
value_of input holding RegisterKind.holding addr = holding addr
value_of input holding RegisterKind.invalid addr = 0

-- Two controllers show the same in the registers of a poll group.
abbrev pub Agree : PollGroup → (ℕ → ℕ) → (ℕ → ℕ) → (ℕ → ℕ) → (ℕ → ℕ) → Type 0
Agree g i h j k =
    All (λ r. value_of i h r.kind r.addr ≡ value_of j k r.kind r.addr) (registers_by_group g)

-- What a tier polls is decided by the registers that the catalog puts into its group: two
-- controllers that agree in these give the same snapshot.
pub poll_group :
    {S : Type 0} (tier : Tier) (i h j k : ℕ → ℕ) (now : S → Time) (ctx : Ctx) (s : S)
    → Agree (group_of tier) i h j k
    → (poll_fns (bank_reader i h) now tier ctx s).0 ≡ (poll_fns (bank_reader j k) now tier ctx s).0
unfolding poll_fns poll_hot poll_medium poll_slow read_three read_block check_block
    registers_by_group hot_snapshot medium_snapshot slow_snapshot
poll_group hot i h j k now ctx s
      (e2, (e3, (e4, (e5, (e6, (e9, (e14, (e16, (e18, (e25, (e30, (e31, (e32, end))))))))))))) =
    cc
poll_group medium i h j k now ctx s (e57, (e58, (e69, (e70, (e86, end))))) = cc
poll_group slow i h j k now ctx s (e0, (e79, (e00, end))) = cc
