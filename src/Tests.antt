-- ===== src/Tests.antt =====
-- The theorems at concrete inputs.
mod Pages
mod FrameStack
mod HeapBlocks
mod Library
mod Screen
mod Sessions
mod Keys
mod Tables
mod Runs
mod Boot
mod Devices
mod Faults
mod Regions
mod Interrupts
mod Firmware
mod Starts
