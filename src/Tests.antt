-- ===== src/Tests.antt =====
-- Runs of the model on concrete inputs, and the theorems at inputs that meet their hypotheses.
mod RingBufRuns
mod SessionRuns
mod LayoutRuns
mod EventBusRuns
mod PaneRuns
mod BlockRuns
mod BatchRuns
mod GitRuns
mod TrackerRuns
mod ClientRuns
mod HandshakeRuns
