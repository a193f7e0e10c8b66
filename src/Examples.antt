-- ===== src/Examples.antt =====
-- Tests of the library on concrete data.
mod Data
mod Valid
mod Capsules
mod Diffs
mod Replay
mod Demo
mod Checkout
mod Records
mod Store
mod Process
mod Runner
mod Graphs
mod Compile
mod Capture
mod Api
