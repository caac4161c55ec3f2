-- ===== src/QuoteRules.antt =====
-- modules/quotes/rules.py: the calculation and the validation of a supplier's quote.
mod Amounts
pub mod Presence
mod Requirements
pub mod Submission
mod Accepted
mod Eligible
mod Risks
mod Diets
mod Decision
mod Tests
