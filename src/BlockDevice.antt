-- ===== src/BlockDevice.antt =====
-- libs/block-device/src/structs.rs: logical block addresses and groups of blocks.
pub mod Lba
pub mod Group
