-- ===== src/Tui.antt =====
-- internal/app: what the terminal interface computes from sizes and times, without drawing.
pub mod Scroll
pub mod Layout
pub mod Sync
