-- ===== src/Ui.antt =====
-- src/ui.rs, src/ui_leptos.rs, src/ui_dioxus.rs: the pages and the script of the operator page.
pub mod Markup
pub mod Page
pub mod Adapters
pub mod Browser
pub mod Script
