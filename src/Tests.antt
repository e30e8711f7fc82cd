-- ===== src/Tests.antt =====
-- Runs of the model on concrete inputs, and the theorems at inputs that meet their hypotheses.
mod BufferRuns
mod TimerRuns
mod RequestRuns
mod FormRuns
mod ResponseRuns
mod ConnRuns
mod StringRuns
mod LogRuns
mod NetRuns
mod PoolRuns
mod AddressRuns
mod HeartbeatRuns
mod ServerRuns
