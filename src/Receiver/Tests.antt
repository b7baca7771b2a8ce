-- ===== src/Receiver/Tests.antt =====
-- A receiver that is stopped, released and retired, and one that is released too early.
use yoga_slim7x_usb.Base.{
  ℕ, ◌≡◌, refl, List, [], ◌∷◌, Bool, true, false, ◌==◌, if◌then◌else◌, Status, ok, positive, ◌>>>◌,
}
use yoga_slim7x_usb.Receiver.{
  X1Imsi, ImsiIo, State, all_parents, each_parent, x1_imsi_write_checked, disable_bank,
  disable_banks, detach_parents, stop_admitted, stop_now, x1_imsi_stop_retained, release_admitted,
  group_released, release_now, x1_imsi_release_stopped, retire_admitted, x1_imsi_retire_context,
}
use yoga_slim7x_usb.Receiver.Accesses.{Access}
use yoga_slim7x_usb.Receiver.Order.{
  ImsiCall, stop_call, release_call, retire_call, imsi_call, imsi_calls, IsRetired,
  imsi_calls-IsRetired,
}

-- Registers, and whether the parents still have their handlers.
abbrev Machine : Type 0
Machine = (ℕ → ℕ) × Bool

abbrev machine : ImsiIo Machine
machine = record {
  mask_offset = 0x100;
  enable_offset = 0x200;
  block_size = 12;
  readl = λ s offset. (s.0 offset, s);
  writel = λ s offset v. ((λ i. if i == offset then v else s.0 i), s.1);
  keep_irq_mask = λ s bank v. s;
  vectors_in_use = λ s. false;
  has_handler_data = λ s irq. s.1;
  owns_handler_data = λ s irq. s.1;
  has_action = λ s irq. false;
  disable_irq = λ s irq. s;
  detach = λ s irq. (s.0, false);
  bridge_present = λ s. true;
  bridge_bus = λ s. false;
  bridge_registered = λ s. false;
  bridge_domain_kept = λ s. true;
  bridge_msi_domain = λ s. true;
  leave_domain = λ s. s;
  free_msi = λ s. s;
  release_group = λ s. (positive 1, s);
}

abbrev eight : List ℕ
eight = 11 ∷ 12 ∷ 13 ∷ 14 ∷ 15 ∷ 16 ∷ 17 ∷ 18 ∷ []

abbrev receiver : X1Imsi
receiver = record {
  retained = true;
  domain_ready = true;
  target_reserved = true;
  associated = true;
  ready = true;
  banks = 8;
  error = ok;
  stop = record {
    attempted = false;
    finished = false;
    banks_disabled = 0;
    parents_detached = 0;
    error = ok;
  };
  release_attempted = false;
  released = false;
  release_error = ok;
  irq_domain = true;
  use_imsi_rx = true;
  num_vectors = 256;
  parents = eight;
  msi_irq = eight;
  msi_data = 0x1000;
  target_group = true;
  target_group_closed = true;
  dbi_kept = true;
}

abbrev start : Bool × State (Machine × List Access)
start = (true, (receiver, (((λ i. 0), true), [])))

abbrev agree : Machine → Status × Machine
agree s = (ok, s)

abbrev untouched : Machine → Machine
untouched s = s

abbrev orderly : List (ImsiCall Machine × (Machine → Machine))
orderly =
    (release_call agree, untouched)
    ∷ (stop_call, untouched)
    ∷ (release_call agree, untouched)
    ∷ (retire_call agree, untouched)
    ∷ []

orderly_retires :
    let (active, (r, s)) = imsi_calls machine start orderly in
    (active ≡ false) × (r.released ≡ true) × (r.stop.banks_disabled ≡ 8)
unfolding imsi_calls imsi_call x1_imsi_stop_retained stop_admitted stop_now disable_banks
    disable_bank x1_imsi_write_checked detach_parents all_parents each_parent
    x1_imsi_release_stopped release_admitted release_now group_released x1_imsi_retire_context
    retire_admitted ◌>>>◌
orderly_retires = (refl, refl, refl)

imsi_calls-IsRetired_example : IsRetired machine (imsi_calls machine start orderly)
imsi_calls-IsRetired_example =
    imsi_calls-IsRetired machine orderly receiver ((λ i. 0), true)
      (record {
        eight_parents = refl;
        unstopped = refl;
        unfinished = refl;
        no_banks = refl;
        no_parents = refl;
        unattempted = refl;
        unreleased = refl;
      })
