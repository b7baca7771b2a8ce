-- ===== src/Packet.antt =====
-- The control packets of the diagnostic transport: the address word that reads and writes share.
-- The four headers x1-link-packet.h, x1-enum-packet.h, x1-event-packet.h and x1-diag-packet.h of
-- snapshot/kernel/drivers/thunderbolt are in the child modules; `crc32c` is a parameter.
pub mod Address
pub mod Read
pub mod Write
pub mod Event
pub mod Plans
pub mod ReadLaws
mod Tests
