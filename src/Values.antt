-- ===== src/Values.antt =====
-- The values that the tables store, and the texts of quantities: round trips and normal forms.
pub mod Selections
pub mod Lists
pub mod Features
pub mod Elements
pub mod Relative
pub mod Digits
pub mod Quantities
pub mod Wrapping
pub mod Fractions
pub mod Cpu
