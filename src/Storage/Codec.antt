-- ===== src/Storage/Codec.antt =====
-- crates/neo4r-storage/src/codec.rs: commands and log entries as bytes.
pub mod Bytes
pub mod Values
pub mod Commands
pub mod Entries
pub mod Trips
pub mod Sorted
pub mod Canonical
pub mod ValueTrips
pub mod Depth
pub mod CommandTrips
pub mod RoundTrip
pub mod EntryTrips
pub mod Tests
