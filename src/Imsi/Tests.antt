-- ===== src/Imsi/Tests.antt =====
-- The policies on a kernel that admits everything.
use yoga_slim7x_usb.Base.{
  demand, ℕ, ◌≡◌, ◌↔◌, refl, List, [], ◌∷◌, Option, some, true, false, if◌then◌else◌, ◌==◌, ok, err,
  erange, ◌>>>◌,
}
use yoga_slim7x_usb.Imsi.{
  PolicyIo, ImsiPolicy, IrqLine, ResourceWindow, bus_resource, memory_resource, on_device,
  read_receipt, write_mask, x1_policy_live, x1_policy_admit, x1_policy_global_idle, global_steps,
  x1_imsi_policy_global, check_memory, check_window, check_windows, exclude_windows, target_steps,
  x1_imsi_policy_target,
}
use yoga_slim7x_usb.Imsi.Receipts.{read_at, write_at, logged}
use yoga_slim7x_usb.Imsi.Target.{IsTarget, x1_imsi_policy_target_iff}

abbrev no_policy : ImsiPolicy
no_policy = record {
  global_attempted = false;
  global_ready = false;
  target_attempted = false;
  target_ready = false;
  mask_write_issued = false;
  mask_write_returned = false;
  mask_before = 0;
  mask_after = 0;
  status_before = 0;
  status_after = 0;
  target = 0;
  memory_windows = 0;
  global_error = ok;
  target_error = ok;
}

abbrev idle_line : IrqLine
idle_line = record {
  in_domain = true;
  hwirq = 199;
  level_high = true;
  disabled = true;
  has_action = false;
  has_handler_data = false;
}

abbrev bridge_windows : List (Option ResourceWindow)
bridge_windows =
    some (record { type = bus_resource; start = 0; end = 255; offset = 0 })
    ∷ some (record {
      type = memory_resource;
      start = 0x440000000;
      end = 0x44fffffff;
      offset = 0x400000000;
    })
    ∷ []

-- A kernel whose state is the mask register; the link is up.
abbrev machine : PolicyIo ℕ
machine = record {
  all_set = true;
  check_live = λ s. (ok, s);
  runtime_active = λ s. true;
  board_admitted = λ s. true;
  host_admitted = λ s. true;
  owner_admitted = λ s. true;
  parf_resource = λ s. some (0x1c28000, 0x8000);
  global_irq = λ s. 40;
  irq_line = λ s. idle_line;
  readl = λ s offset. (if offset == 0x224 then 0x2000 else s, s);
  writel = λ s offset v. v;
  windows = λ s. bridge_windows;
}

global_ok :
    let (ret, (p, log)) = x1_imsi_policy_global (logged machine) (some no_policy) 40 (5, []) in
    (ret ≡ ok)
    × (log.1
        ≡ read_at 0x224 0x2000
          ∷ read_at 0x22c 0x7f800005
          ∷ write_at 0x22c 0x7f800005
          ∷ read_at 0x22c 5
          ∷ read_at 0x224 0x2000
          ∷ [])
unfolding x1_imsi_policy_global global_steps on_device x1_policy_admit x1_policy_global_idle
    x1_policy_live demand read_receipt write_mask ◌>>>◌
global_ok = (refl, refl)

-- A target below the windows, and one that meets the window in the addresses of the bus.
target_ok : (x1_imsi_policy_target machine (some no_policy) 0x1000 5).0 ≡ ok
unfolding x1_imsi_policy_target target_steps on_device x1_policy_admit x1_policy_live demand
    exclude_windows check_windows check_window check_memory ◌>>>◌
target_ok = refl

target_meets : (x1_imsi_policy_target machine (some no_policy) 0x40000000 5).0 ≡ err erange
unfolding x1_imsi_policy_target target_steps on_device x1_policy_admit x1_policy_live demand
    exclude_windows check_windows check_window check_memory ◌>>>◌
target_meets = refl

x1_imsi_policy_target_iff_example :
    let (r, t) = x1_policy_admit machine 5 in
    ((x1_imsi_policy_target machine (some no_policy) 0x1000 5).0 ≡ ok)
    ↔ ((r ≡ ok) × IsTarget 0x1000 bridge_windows × ((x1_policy_live machine t).0 ≡ ok))
x1_imsi_policy_target_iff_example = x1_imsi_policy_target_iff machine no_policy 0x1000 5 refl refl
