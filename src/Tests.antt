-- ===== src/Tests.antt =====
-- Runs of the definitions on concrete inputs, and the theorems applied at such inputs.
mod Numbers
mod Messages
mod Log
mod Diff
mod Files
mod States
mod Memory
mod Disks
mod Configs
mod Publishing
mod Apps
mod Names
mod Server
mod Report
