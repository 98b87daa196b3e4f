-- ===== src/Tests.antt =====
-- Runs of the model in a small world, and the theorems applied there.
mod Foreign
mod Fixture
mod State
mod Config
mod Flags
mod Bearer
mod Gateway
mod Issue
mod Transports
mod Serving
mod Start
mod Process
mod Ui
mod Streams
mod Schema
mod Overlap
