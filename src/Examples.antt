-- ===== src/Examples.antt =====
-- Concrete runs of the program at which the hypotheses of the theorems hold.
mod Answers
mod Commands
mod Configurations
mod Json
mod Machine
mod Processes
mod Execution
mod Runs
mod Sessions
mod SshFiles
mod UserFiles
