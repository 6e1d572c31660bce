-- ===== src/Cooklang.antt =====
-- packages/snapcook-core/src/snapcook_core/cooklang: the text form of a recipe.
pub mod Numbers
pub mod Quantities
pub mod Safe
pub mod Scanner
pub mod Steps
pub mod Printer
