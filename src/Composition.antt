-- ===== src/Composition.antt =====
-- How the components work together: registry.go with http.go and smtp.go, and retry.go with
-- idempotency.go.
pub mod Factories
pub mod Retried
