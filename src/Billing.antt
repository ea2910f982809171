-- ===== src/Billing.antt =====
-- app/services/billing_service.py and the repositories that it uses. The definitions are in Store,
-- Renewal, Snapshot, Limits and Plans; the other modules prove what those do.
pub mod Store
pub mod Renewal
pub mod Snapshot
pub mod Limits
pub mod Footprint
pub mod Plans
pub mod Invoices
pub mod Rolling
pub mod Metering
pub mod PlanChange
mod Tests
