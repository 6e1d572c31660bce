-- ===== src/Checks.antt =====
-- Sample data, runs of the model on it, and the properties at a concrete input.
mod Soup
mod Graphs
mod Versions
mod Web
mod Core
mod Rounding
mod Render
mod Cooklang
