-- ===== src/Evidence.antt =====
-- The evidence of a claim (analysis/generate_claim_evidence.py).
pub mod Blockers
pub mod Claim
mod Tests
