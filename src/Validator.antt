-- ===== src/Validator.antt =====
-- pkg/share/manila/shareoptions/validator: a validator for structs of text fields, configured by the
-- tags of the fields.
pub mod Fields
pub mod Values
pub mod Relations
pub mod Populate
pub mod Accepts
pub mod Accepted
mod Scenarios
