-- ===== src/Hub.antt =====
-- components/vitohome/__init__.py: the validation that the entity platforms share.
pub mod Invalid
pub mod Masks
pub mod Fields
pub mod Converters
pub mod Access
pub mod Settings
