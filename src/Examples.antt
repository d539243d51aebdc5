-- ===== src/Examples.antt =====
-- Concrete hosts, configurations and requests, on which the definitions run and the theorems apply.
mod Hosts
mod Machines
mod Agents
mod Paths
mod Sharing
mod Watchers
mod Processes
mod Calls
mod Program
