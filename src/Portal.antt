-- ===== src/Portal.antt =====
-- What a data subject meets: magic links and export capabilities, of
-- apps/api/src/modules/identity-verification and apps/api/src/modules/exports.
pub mod MagicLink
pub mod MagicLinkLaws
pub mod Exports
mod Tests
