-- ===== src/View.antt =====
-- What the components of frontend/src/components show, and what a click in them asks of the console. Class
-- names, icons and animations are not kept.
pub mod Numbers
pub mod Drawer
pub mod FileRow
pub mod TaskCard
pub mod Screen
