-- ===== src/Report.antt =====
-- report.go: the report on the containers of the store, the controls that it offers, and the
-- handler of a control.
pub mod Controls
pub mod Nodes
pub mod Shown
pub mod Numbers
pub mod Handlers
pub mod Offered
pub mod Raw
pub mod Frame
