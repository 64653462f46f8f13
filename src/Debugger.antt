-- ===== src/Debugger.antt =====
-- The execution debugger, web/src/pages/debugger.
pub mod Store
pub mod Actions
pub mod Machine
pub mod RunToEnd
pub mod Response
pub mod Preview
pub mod Bridge
pub mod Labels
pub mod Export
