-- ===== src/Tests.antt =====
-- Runs of the model on concrete inputs, and the theorems at inputs that meet their hypotheses.
mod Decimal
mod Downlink
mod Slices
mod Policies
mod Preprocessor
mod Grants
mod Harq
mod Uplink
mod Pdu
mod Tda
mod Transport
mod Frame
mod Link
mod Order
