-- ===== src/Tests.antt =====
-- Concrete inputs, and each theorem with hypotheses at one of them.
pub mod Samples
pub mod SampleRows
pub mod Parts
pub mod SessionRows
pub mod CctpRuns
pub mod FlowRuns
pub mod HlRuns
pub mod MirrorRuns
pub mod JupiterRuns
pub mod IntentRuns
mod AttestationRuns
pub mod DecimalRuns
pub mod DeriveRuns
mod BatchRuns
mod HlOrderRuns
mod PermitRuns
pub mod OrderRuns
pub mod RouteRuns
pub mod TradeRuns
