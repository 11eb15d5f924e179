-- ===== src/Campaign.antt =====
-- bench/strong/release_campaign.py and bench/strong/landscape_campaign.py.
pub mod Spec
pub mod Runs
pub mod Release
pub mod Landscape
pub mod Evidence
pub mod Validate
pub mod Command
pub mod Driver
