-- ===== src/Tests.antt =====
-- Runs of the models on concrete inputs.
mod Data
mod Results
mod Completion
mod Loop
mod Handle
mod Rules
mod Analysis
mod Artifacts
mod Building
mod Interactive
mod Network
mod System
