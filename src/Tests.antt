-- ===== src/Tests.antt =====
-- Runs of the models on concrete inputs, and the theorems at inputs that meet their hypotheses.
mod Data
mod Agents
mod Reports
mod Releases
mod Archives
mod Claims
mod Router
mod Valuations
mod Histories
