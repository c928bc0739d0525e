-- ===== src/Tests.antt =====
-- Runs of the modelled code on concrete inputs, and the theorems at such inputs.
mod Samples
mod ErrorTests
mod MessageTests
mod RetryTests
mod StoreTests
mod SendTests
mod RegistryTests
mod HttpTests
mod TemplateTests
mod SmtpSamples
mod SmtpTests
mod SmtpSendTests
mod SharingTests
mod UnreservedTests
