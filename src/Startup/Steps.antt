-- ===== src/Startup/Steps.antt =====
-- snapshot/module/qcom-usb4-x1-startup.h: the steps of the X1 cold start in the order of their
-- `enum`, and the table of operations of qcom-usb4-x1-startup.c.
use yoga_slim7x_usb.Base.{ℕ, ◌^◌, List, [], ◌∷◌}

-- `enum x1_step`; `none_yet` is `X1_NONE`.
pub data XStep : Type 0 where
  none_yet validate owner phy_prepare rx_prepare txb_prepare txa_prepare rx_clock_reference : XStep
  misc_reset_assert misc_assert_delay extra_reset_assert dp_reset_assert reset_assert_delay : XStep
  dp_reset_clear extra_reset_clear reset_release_delay misc_reset_clear sys_ready rx_clock_phy :
      XStep
  clear_1200c rx_active txb_active txa_active set_81000 pipe_reset_assert pipe_assert_delay : XStep
  pipe_assert_settle set_81018 pipe_reset_clear pipe_release_delay pipe_release_settle : XStep
  clear_81000 upload sys_memory_force tcsr_route pipe_hwcg_off set_81004 timer_high timer_low :
      XStep
  timer_8148 timer_8144 drom phy_composite adapter_23 adapter_22 adapter_21 clear_d064_6 : XStep
  mcu_start preset : XStep

-- The number that the `enum` gives a step.
unfoldable pub step_index : XStep → ℕ
step_index none_yet = 0
step_index validate = 1
step_index owner = 2
step_index phy_prepare = 3
step_index rx_prepare = 4
step_index txb_prepare = 5
step_index txa_prepare = 6
step_index rx_clock_reference = 7
step_index misc_reset_assert = 8
step_index misc_assert_delay = 9
step_index extra_reset_assert = 10
step_index dp_reset_assert = 11
step_index reset_assert_delay = 12
step_index dp_reset_clear = 13
step_index extra_reset_clear = 14
step_index reset_release_delay = 15
step_index misc_reset_clear = 16
step_index sys_ready = 17
step_index rx_clock_phy = 18
step_index clear_1200c = 19
step_index rx_active = 20
step_index txb_active = 21
step_index txa_active = 22
step_index set_81000 = 23
step_index pipe_reset_assert = 24
step_index pipe_assert_delay = 25
step_index pipe_assert_settle = 26
step_index set_81018 = 27
step_index pipe_reset_clear = 28
step_index pipe_release_delay = 29
step_index pipe_release_settle = 30
step_index clear_81000 = 31
step_index upload = 32
step_index sys_memory_force = 33
step_index tcsr_route = 34
step_index pipe_hwcg_off = 35
step_index set_81004 = 36
step_index timer_high = 37
step_index timer_low = 38
step_index timer_8148 = 39
step_index timer_8144 = 40
step_index drom = 41
step_index phy_composite = 42
step_index adapter_23 = 43
step_index adapter_22 = 44
step_index adapter_21 = 45
step_index clear_d064_6 = 46
step_index mcu_start = 47
step_index preset = 48

-- `enum kind`.
pub data Kind : Type 0 where
  provider update delay release_delay clear_1200c : Kind

-- `struct operation`, without the name that is printed.
pub record Operation : Type 0 where
  pub step : XStep
  pub kind : Kind
  pub offset : ℕ
  pub mask : ℕ
  pub value : ℕ

-- The macros `P`, `U` and `D`, and a row with no operands.
abbrev special_op : XStep → Kind → Operation
special_op s k = record { step = s; kind = k; offset = 0; mask = 0; value = 0 }

abbrev provider_op : XStep → Operation
provider_op s = special_op s Kind.provider

abbrev update_op : XStep → ℕ → ℕ → ℕ → Operation
update_op s o m v = record { step = s; kind = Kind.update; offset = o; mask = m; value = v }

abbrev delay_op : XStep → ℕ → Operation
delay_op s us = record { step = s; kind = Kind.delay; offset = 0; mask = 0; value = us }

-- `operations[]`.
unfoldable pub operations : List Operation
operations =
    provider_op phy_prepare
    ∷ provider_op rx_prepare
    ∷ provider_op txb_prepare
    ∷ provider_op txa_prepare
    ∷ provider_op rx_clock_reference
    ∷ provider_op misc_reset_assert
    ∷ delay_op misc_assert_delay 100
    ∷ provider_op extra_reset_assert
    ∷ provider_op dp_reset_assert
    ∷ delay_op reset_assert_delay 1
    ∷ provider_op dp_reset_clear
    ∷ provider_op extra_reset_clear
    ∷ special_op reset_release_delay Kind.release_delay
    ∷ provider_op misc_reset_clear
    ∷ provider_op sys_ready
    ∷ provider_op rx_clock_phy
    ∷ special_op clear_1200c Kind.clear_1200c
    ∷ provider_op rx_active
    ∷ provider_op txb_active
    ∷ provider_op txa_active
    ∷ update_op set_81000 0x81000 1 1
    ∷ provider_op pipe_reset_assert
    ∷ delay_op pipe_assert_delay 1000
    ∷ delay_op pipe_assert_settle 100
    ∷ update_op set_81018 0x81018 1 1
    ∷ provider_op pipe_reset_clear
    ∷ delay_op pipe_release_delay 1000
    ∷ delay_op pipe_release_settle 100
    ∷ update_op clear_81000 0x81000 1 0
    ∷ provider_op upload
    ∷ provider_op sys_memory_force
    ∷ provider_op tcsr_route
    ∷ provider_op pipe_hwcg_off
    ∷ update_op set_81004 0x81004 1 1
    ∷ update_op timer_high 0x80c8 0xffff0000 0x00040000
    ∷ update_op timer_low 0x80c8 0xffff 0
    ∷ update_op timer_8148 0x8148 0xffffffff 250000
    ∷ update_op timer_8144 0x8144 0xffffffff 4000
    ∷ provider_op drom
    ∷ provider_op phy_composite
    ∷ update_op adapter_23 0xd000 (2 ^ 23) 0
    ∷ update_op adapter_22 0xd000 (2 ^ 22) 0
    ∷ update_op adapter_21 0xd000 (2 ^ 21) 0
    ∷ update_op clear_d064_6 0xd064 (2 ^ 6) 0
    ∷ provider_op mcu_start
    ∷ provider_op preset
    ∷ []
