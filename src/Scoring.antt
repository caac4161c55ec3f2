-- ===== src/Scoring.antt =====
-- modules/comparison/scoring.py: integer scores of quotes and their ranking.
mod Weights
mod Criteria
pub mod Score
mod Points
mod Results
mod Keys
pub mod Ranking
mod Sorting
mod Lexical
mod Lowest
mod Order
pub mod Eligibility
mod Tests
