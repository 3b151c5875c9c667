-- ===== src/Order.antt =====
-- services/order/order: the guarded status writer (domain/transitions.py), the saga's activities
-- (activities.py) and the kitchen (domain/kitchen.py).
pub mod Rows
pub mod Transitions
pub mod Activities
pub mod Kitchen
pub mod Graph
pub mod Sound
pub mod Steps
pub mod Writes
pub mod History
pub mod Life
pub mod Replay
pub mod Races
pub mod Saga
pub mod Workflow
pub mod Holdings
pub mod Unwound
pub mod Compensation
pub mod Forward
pub mod Run
pub mod Deadline
pub mod Stranded
pub mod Placement
pub mod Started
pub mod Apart
pub mod Placed
pub mod Answers
pub mod Cascade
pub mod Attempts
pub mod Custody
mod Tests
mod CascadeTests
mod PlacementTests
pub mod Ends
