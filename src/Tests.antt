-- ===== src/Tests.antt =====
-- Concrete instances of the theorems, over streams that are lists of bytes.
mod Instances
mod Wire
mod Codecs
mod Peers
mod Calls
mod Printing
mod Trips
mod Metrics
mod Driving
mod Ending
mod Load
