-- ===== src/Lib.antt =====
-- A model of the core logic of the Yoga Slim 7x USB4 work: the small C files and headers that
-- decide what may be sent to hardware, and the bounded state machines around them.
--
-- The parts and their files:
--   Pan       snapshot/kernel/drivers/soc/qcom/yoga_pan_packet.h (yoga_pan_decode); Pan/Plan is
--             yoga_pan_plan.h (yoga_plan) and yoga_link_plan.h (yoga_link_word). The state is the
--             decoded message `Pan`, the plan `YogaPortPlan`, and a log of messages.
--   Typec     snapshot/module/qcom-usb4-typec.c: the words of the microcontroller's mailbox.
--   Native    snapshot/kernel/drivers/thunderbolt/x1-native-policy.h: what the driver admits.
--   Pdlog     snapshot/kernel/drivers/soc/qcom/yoga_pdlog_policy.h: the bounded log reader.
--   Ucsi      snapshot/kernel/drivers/soc/qcom/yoga_ucsi_packet.h (yoga_ucsi_decode); Ucsi/Query is
--             yoga_ucsi_query.h: uq_command_kind and uq_pending over the callbacks of uq_io.
--   Firmware  snapshot/module/qcom-usb4-fw.c (fw_validate, fw_upload).
--   Mcu       snapshot/module/qcom-usb4-mcu.c: the microcontroller over the register accessors;
--             it uploads by Firmware and stores the descriptor of Drom.
--   Drom      snapshot/module/qcom-usb4-drom.c and qcom-usb4-x1-drom.c: the router's descriptor.
--   Startup   snapshot/module/qcom-usb4-x1-startup.c: the one-attempt cold start, which calls Drom
--             and Firmware to validate its configuration. Startup/Steps is the table.
--   Packet    snapshot/kernel/drivers/thunderbolt/x1-link-packet.h, x1-diag-packet.h (Packet/Read),
--             x1-enum-packet.h (Packet/Plans, Packet/Write) and x1-event-packet.h (Packet/Event).
--   Session   experiments/omarchy1/kernel/drivers/nvme/host/x1-private-read.h: the one session that
--             admits a private read; the state is the pair of static variables.
--   Window    experiments/el1-pci0/kernel/drivers/thunderbolt/x1-pci0-mem.h: the outbound memory
--             window, programmed once over the callbacks of x1_mem_io.
--   Bridge    snapshot/kernel/drivers/thunderbolt/x1-pcie-init.h: the phases of the PCIe root port over
--             the callbacks of x1_pci0_io; the proofs read a trace of the accesses (Bridge/Trace).
--   Topology  snapshot/kernel/drivers/thunderbolt/x1-topology.h: the read-only inventory of a router,
--             whose reads pass the address gate of Packet/Read;
--             Topology/Chain is the chain of capabilities that a configuration holds.
--   Imsi      experiments/el1-pci0/kernel/drivers/thunderbolt/x1-imsi-policy.c: the one-attempt policies
--             of the interrupt messages (x1_imsi_policy_global, x1_imsi_policy_target).
--   Receiver  experiments/el1-pci0/kernel/drivers/thunderbolt/x1-imsi.c: x1_imsi_stop_retained,
--             x1_imsi_release_stopped and x1_imsi_retire_context on the receipts of `struct x1_imsi`.
--             Receiver/Accesses logs what a stop does to the registers and to the parents.
--   Pcie      snapshot/kernel/drivers/thunderbolt/qcom-x1-pcie.c and x1-pcie-msi-audit.h: the owner of
--             the root port. Pcie/Root is x1_root_validate, Pcie/Probe the bring-up, which calls the
--             phases of Bridge, Pcie/Calls x1_pcie_start, x1_pcie_train and x1_pcie_scan on the statics
--             of the file (PcieState). Pcie/Stages is their abstract machine.
--   Manager   snapshot/kernel/drivers/thunderbolt/qcom-x1-native.c: the owner of the connection manager
--             (X1Native). Manager/Start is x1_native_start, Manager/Connect x1_native_connect,
--             Manager/Storage x1_native_prepare_storage. It uses the policies of Native, and the
--             calls of the PCIe root port through an interface (PcieCalls), which Manager/Joined
--             fills with those of Pcie; Manager/Log keeps what is asked of the hardware.
--   Base      shared names, lists, errors, words and their bytes; Base/Steps is the
--             sequencing of calls that return an errno, with rules for what holds when it ends.
-- A `Tests` module of a part runs it on concrete inputs.
--
-- How C is read: a function that returns an errno returns a `Status` (ok, err with a negative
-- errno, or a positive number); a pointer that may be null is an `Option`; an output parameter is
-- passed in and returned (`Out`), so that an error path that leaves it alone is seen to do so; a
-- callback with a context is a function on a state of any type. Bytes and words are natural numbers
-- with the wrap-around of the C type written out.
--
-- Bounds and fuel: the loops over a firmware image run on fuel, which is the size of the image; each
-- round takes at least eight bytes, so it is enough, which is what the theorems on images show.
-- The wait of the cold start counts its 11 attempts as the code does, and the poll of a UCSI query its
-- 50 rounds; the walk over capabilities counts its 16 rounds, and the walk over those of the root port
-- its 48, which are as many as its pointers have places. The wait of x1_native_connect runs on rounds
-- that are given; a round sleeps for 20 milliseconds and the deadline is 20 seconds away, so that 1000
-- are enough. All other loops are structural.
--
-- Parameters: crc32c of the kernel, the field macros of linux/usb/pd.h and linux/usb/typec_tbt.h,
-- the callbacks of the firmware upload, of the cold start and of the UCSI queries, the register
-- accessors and polls of the microcontroller, of the memory window, of the PCIe root port and of the
-- inventory, the identity of the storage device that a build defines, what the PCI core reports of
-- a device, and what the kernel says of the devices, the interrupt line and the windows in Imsi, and its
-- registers, handlers and domains in Receiver; what the kernel, the device tree and the PCI core find
-- and do in Pcie, the Thunderbolt core and the callbacks of the caller in Manager. The numbers of
-- linux/pci_regs.h and linux/pci_ids.h in Pcie are those of the PCI specifications.
--
-- Not modelled: the drivers that bind these parts to the kernel (frontend.c, qcom-x1-nhi-diag.c, yoga_*.c),
-- the copies of Linux drivers, trace headers, scripts, the device lookups of the
-- private read, the null arguments of the calls in Receiver, and, so far, the preparation of
-- the interrupt receiver and the other drivers under experiments.
pub mod Base
pub mod Bridge
pub mod Drom
pub mod Firmware
pub mod Imsi
pub mod Manager
pub mod Mcu
pub mod Native
pub mod Packet
pub mod Pan
pub mod Pcie
pub mod Pdlog
pub mod Receiver
pub mod Session
pub mod Startup
pub mod Topology
pub mod Typec
pub mod Ucsi
pub mod Window
