-- ===== src/Examples.antt =====
-- Concrete inputs for the theorems, and runs of the model.
mod World
mod Start
mod Lives
mod Alone
mod Boot
mod Parts
mod Clients
mod Managers
mod Loop
