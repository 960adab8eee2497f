-- ===== src/Map.antt =====
-- src/map: the MAP rules, what is computed from them, and the third-party address types they use.
pub mod Net
pub mod Rule
pub mod Calc
pub mod V6plus
pub mod PortSet
