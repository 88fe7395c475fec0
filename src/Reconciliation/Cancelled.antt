-- ===== src/Reconciliation/Cancelled.antt =====
-- An order that the broker cancelled after a fill that is new, in crates/reconciliation/src/lib.rs.
use insider_trader.Maps.{text_key}
