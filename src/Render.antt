-- ===== src/Render.antt =====
-- packages/snapcook-core/src/snapcook_core/render/.
pub mod Toposort
pub mod Model
pub mod Labels
pub mod Options
pub mod Quantities
pub mod Ingredients
pub mod Prose
pub mod Picture
pub mod Build
pub mod Text
pub mod Mermaid
pub mod Html
