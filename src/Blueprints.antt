-- ===== src/Blueprints.antt =====
-- Blueprints, the schemas of objects that are registered at run time: astral/blueprint.go, the Spec
-- carriers, astral/blueprints.go.
pub mod Spec
pub mod Validate
pub mod Registry
pub mod Order
pub mod Listing
