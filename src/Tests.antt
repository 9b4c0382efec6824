-- ===== src/Tests.antt =====
-- Test data and runs at concrete inputs, in the words of the tests under src/.
mod Data
mod Slices
mod Datagrams
mod Maps
mod Protocol
mod Sd
mod E2e
mod State
mod Publish
mod Runtime
mod Receive
mod Pools
