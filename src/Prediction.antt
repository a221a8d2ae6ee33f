-- ===== src/Prediction.antt =====
-- backend/app/prediction: what becomes of an opportunity and of the signals made of it.
pub mod Lifecycle
pub mod Duplicate
pub mod Labeling
pub mod Agreement
pub mod Candidates
pub mod Ensemble
pub mod Qualification
pub mod Priority
