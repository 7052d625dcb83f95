-- ===== src/Tests.antt =====
-- Test runs and examples.
mod Curve
mod Market
mod Machine
mod Data
mod Addresses
mod Configure
mod Codec
mod Instructions
mod Program
mod Costs
mod Governed
mod Builders
mod Packing
mod Decimals
