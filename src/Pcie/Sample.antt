-- ===== src/Pcie/Sample.antt =====
-- A root port, a device tree and a kernel on which all the calls succeed, for the tests.
use yoga_slim7x_usb.Base.{ℕ, List, [], ◌∷◌, some, true, false, if◌then◌else◌, ◌==◌, ok, done}
use yoga_slim7x_usb.Bridge.{X1Pci0Io}
use yoga_slim7x_usb.Bridge.Tables.{x1_root, x1_parf, x1_router}
use yoga_slim7x_usb.Bridge.Alone.{same_place}
use yoga_slim7x_usb.Bridge.Windows.{Registers, write_register, register_file}
use yoga_slim7x_usb.Pcie.{PciDevice}
use yoga_slim7x_usb.Pcie.Probe.{Platform, PcieKernel}
use yoga_slim7x_usb.Pcie.Stages.{PcieCall, start_call, train_call, scan_call}

-- A port that acknowledges each reset request at once and takes the root-port header at the reset.
abbrev pub root_port : X1Pci0Io Registers
root_port = record register_file {
  write = λ regs r off v.
      write_register r off (if same_place x1_router 0xe008 r off then 0 else v) regs;
  reset = λ regs b. (ok, write_register x1_root 12 0x10000 regs);
}

abbrev pub root_words : ℕ → ℕ
root_words off =
    if off == 0
    then 0x011117cb
    else (if off == 4
        then 0x00100000
        else (if off == 8
            then 0xff000001
            else (if off == 0x34
                then 0x70
                else (if off == 0x70 then 0x00420010 else (if off == 0xf48 then 0x400 else 0)))))

abbrev pub powered_off : Registers
powered_off x1_root off = root_words off
powered_off x1_parf off = if off == 0x1b0 then 0x11 else 0
powered_off x1_router off = 0

abbrev pub root_device : PciDevice
root_device = record {
  identity = 1;
  class = 0x060400;
  driver = false;
  domain = 0;
  bus_number = 0;
  on_root_bus = true;
  own_window = true;
  devfn = 0;
  vendor = 0x17cb;
  device = 0x0111;
  hdr_type = 1;
  multifunction = false;
  is_pcie = true;
  pcie_type = 4;
  revision = 1;
}

abbrev pub disk : PciDevice
disk = record root_device {
  identity = 7;
  class = 0x010802;
  bus_number = 1;
  on_root_bus = false;
  vendor = 0x1344;
  device = 0x51c4;
  hdr_type = 0;
}

abbrev pub yoga : Platform
yoga = record {
  hyp_mode = false;
  board_allowed = true;
  nhi_complete = true;
  is_test = true;
  is_init = true;
  pcie6_disabled = true;
  pcie5_disabled = true;
  ecam_resource = some (0x400000000, 0x10000000);
  parf_resource = some (0x1c28000, 0x8000);
  domain = some 0;
  smmu_reserved = true;
  usb4_clock_index = some 0;
  clock_count = some 8;
  clock = done (record { is_gcc = true; args_count = 1; arg = 100 });
  reset = done (record { is_gcc = true; args_count = 1; arg = 20 });
  reset_count = some 1;
  pipe_clock = 100;
  tunnel_reset = 20;
}

-- A kernel that grants everything.
abbrev pub granting : PcieKernel Registers
granting = record {
  platform = λ s. yoga;
  io = root_port;
  alloc_owner = λ s. (true, s);
  map_parf = λ s. (ok, s);
  get_reset = λ s. (ok, s);
  get_clock = λ i s. (ok, s);
  get_mem_path = λ s. (done true, s);
  get_cfg_path = λ s. (done true, s);
  resume = λ s. (ok, s);
  forbid = λ s. s;
  enable_clock = λ i s. (ok, s);
  set_mem_bandwidth = λ s. (ok, s);
  set_cfg_bandwidth = λ s. (ok, s);
  alloc_host = λ s. (true, s);
  ecam_create = λ s. (ok, s);
  host_probe = λ s. (ok, (root_device ∷ [], s));
  driver_register = λ s. (ok, (true, s));
  rescan = λ s. (disk ∷ [], s);
  bound = λ s identity. false;
}

abbrev pub all_calls : List PcieCall
all_calls = start_call true ∷ train_call ∷ scan_call ∷ []
