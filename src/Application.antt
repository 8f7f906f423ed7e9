-- ===== src/Application.antt =====
-- src/application: the cooperative awareness messages and the services that send them.
pub mod Cam
pub mod Internal
pub mod CaService
