-- ===== src/Http.antt =====
-- src/shared/http: what stands between a request and a controller.
pub mod DomainExceptionFilter
pub mod KeycloakAuthGuard
