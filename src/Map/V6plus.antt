-- ===== src/Map/V6plus.antt =====
-- The static rules of src/map/v6plus_rules.rs.
pub mod Row
pub mod Prefix38A
pub mod Prefix38B
pub mod Prefix31
pub mod Prefix20A
pub mod Prefix20B
pub mod Prefix20C
pub mod Table
pub mod Checks
pub mod Usable
pub mod Apart
