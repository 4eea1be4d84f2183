-- ===== src/Tests.antt =====
-- Runs of the modelled code on concrete inputs, and the theorems at inputs that meet their
-- hypotheses.
mod Payload
mod Reservations
mod Gate
mod Sizes
mod Fees
mod Inputs
mod Selection
mod Compression
mod Rates
mod Emission
mod Conserved
mod Reveal
mod Instance
mod Amounts
mod Maintenance
