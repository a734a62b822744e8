-- ===== src/Applications.antt =====
-- backend/src/modules/applications/applications.service.ts, method by method; each child has one
-- method with its laws. `Stages` has the enum's tests, `Counter` and `Lifecycle` what the methods
-- keep together, `Race` two requests whose database calls interleave.
pub mod Stages
pub mod Create
pub mod Edit
pub mod Submit
pub mod Review
pub mod Withdraw
pub mod Listing
pub mod Lifecycle
pub mod Race
pub mod Counter
mod Tests
