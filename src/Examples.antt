-- ===== src/Examples.antt =====
-- Runs of the theorems on concrete inputs.
pub mod Data
mod OfDelivery
mod OfStore
mod OfInterfaces
mod OfVerdicts
mod OfWorker
mod OfLifecycle
mod OfAttempts
mod OfApi
mod OfSystem
mod OfCommand
mod OfServing
mod OfDashboard
